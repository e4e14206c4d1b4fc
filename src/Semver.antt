-- ===== src/Semver.antt =====
-- internal/semver/semver.go: semantic versions. A position in the text is the text behind it.
pub mod Parsing
pub mod Precedence
use ocsf_toolkit.Common.{
  ℕ, suc, ◌+◌, List, [], ◌∷◌, ◌++◌, Bool, true, false, not, ◌&&◌, ◌||◌, Option, none, some, Bytes,
  bytes_eq, codes, nat_eq, same, ltb, leb, length, if◌then◌else◌,
}

pub record Version : Type 0 where
  pub major : Bytes
  pub minor : Bytes
  pub patch : Bytes
  pub prerelease : Bytes

abbrev pub is_digit : ℕ → Bool
is_digit c = leb b'0' c && leb c b'9'

abbrev pub is_identifier_character : ℕ → Bool
is_identifier_character c =
    is_digit c || leb b'A' c && leb c b'Z' || leb b'a' c && leb c b'z' || same c b'-'

-- the digits that a text starts with, and what follows them
abbrev pub span_digits : Bytes → Bytes × Bytes
span_digits [] = ([], [])
span_digits (c ∷ s) =
    let (digits, rest) = span_digits s in if is_digit c then (c ∷ digits, rest) else ([], c ∷ s)

abbrev starts_with : ℕ → Bytes → Bool
starts_with c [] = false
starts_with c (d ∷ s) = same d c

-- `numericIdentifier`: the identifier, and the text behind it
unfoldable pub numeric_identifier : Bytes → Option (Bytes × Bytes)
numeric_identifier s =
    let (digits, rest) = span_digits s in
    if same (length digits) 0 || ltb 1 (length digits) && starts_with b'0' digits
    then none
    else some (digits, rest)

-- whether an identifier of `count` characters is refused
abbrev refused : Bool → ℕ → Bool → Bool → Bool
refused strict count zero_first numeric =
    same count 0 || strict && numeric && ltb 1 count && zero_first

abbrev behind : ℕ → Option (Bytes × Bytes) → Option (Bytes × Bytes)
behind c none = none
behind c (some (list, rest)) = some (c ∷ list, rest)

-- `identifierList`: the list that was read, and the text behind it. `count` is the distance from
-- `identifierStart`, and `zero_first` says that a zero stands there.
unfoldable pub identifier_list : Bool → ℕ → Bool → Bool → Bytes → Option (Bytes × Bytes)
identifier_list strict count zero_first numeric [] =
    if refused strict count zero_first numeric then none else some ([], [])
identifier_list strict count zero_first numeric (c ∷ s) =
    let next = identifier_list strict 0 false true s in
    let more =
      identifier_list strict (count + 1) (if same count 0 then same c b'0' else zero_first)
        (numeric && is_digit c) s in
    if same c b'+' && strict
    then (if refused strict count zero_first numeric then none else some ([], c ∷ s))
    else if same c b'.'
    then (if refused strict count zero_first numeric then none else behind c next)
    else if not (is_identifier_character c)
    then none
    else behind c more

-- the test that a character stands at a position, with the text behind the character
abbrev pub expect : ℕ → Bytes → Option Bytes
expect character [] = none
expect character (c ∷ s) = if same c character then some s else none

abbrev finish : Bytes → Bytes → Bytes → Bytes → Bytes → Option Version
finish major minor patch prerelease [] =
    some (record { major = major; minor = minor; patch = patch; prerelease = prerelease })
finish major minor patch prerelease (c ∷ s) = none

abbrev rest_of_list : Option (Bytes × Bytes) → Option Bytes
rest_of_list none = none
rest_of_list (some (list, rest)) = some rest

-- the build metadata, which is not kept
abbrev build_metadata : Bytes → Option Bytes → Option Bytes
build_metadata s none = some s
build_metadata s (some behind_plus) = rest_of_list (identifier_list false 0 false true behind_plus)

abbrev prerelease_list : Bytes → Option Bytes → Option (Bytes × Bytes)
prerelease_list s none = some ([], s)
prerelease_list s (some behind_dash) = identifier_list true 0 false true behind_dash

-- Every step that fails ends the parse.
infixl 1 ◌>>=◌
abbrev ◌>>=◌ : {A B : Type 0} → Option A → (A → Option B) → Option B
none >>= f = none
some a >>= f = f a

-- `Parse`
unfoldable pub parse : Bytes → Option Version
unfolding numeric_identifier identifier_list
parse value = do
  (major, behind_major) ← numeric_identifier value
  after_major ← expect b'.' behind_major
  (minor, behind_minor) ← numeric_identifier after_major
  after_minor ← expect b'.' behind_minor
  (patch, behind_patch) ← numeric_identifier after_minor
  (prerelease, behind_prerelease) ← prerelease_list behind_patch (expect b'-' behind_patch)
  left ← build_metadata behind_prerelease (expect b'+' behind_prerelease)
  finish major minor patch prerelease left

pub data Comparison : Type 0 where
  less equal greater : Comparison

-- `if comparison := …; comparison != 0 { return comparison }`, and what follows
abbrev pub or_else : Comparison → Comparison → Comparison
or_else equal next = next
or_else c next = c

abbrev pub compare_ℕ : ℕ → ℕ → Comparison
compare_ℕ a b = if ltb a b then less else if ltb b a then greater else equal

-- lists by their first difference, a list before its continuations
abbrev pub compare_lists : {A : Type 0} → (A → A → Comparison) → List A → List A → Comparison
compare_lists f [] [] = equal
compare_lists f [] (d ∷ t) = less
compare_lists f (c ∷ s) [] = greater
compare_lists f (c ∷ s) (d ∷ t) = or_else (f c d) (compare_lists f s t)

-- `strings.Compare`
abbrev pub compare_bytes : Bytes → Bytes → Comparison
compare_bytes = compare_lists compare_ℕ

unfoldable pub compare_numeric_identifier : Bytes → Bytes → Comparison
compare_numeric_identifier left right =
    or_else (compare_ℕ (length left) (length right)) (compare_bytes left right)

abbrev pub identifier_numeric : Bytes → Bool
identifier_numeric [] = true
identifier_numeric (c ∷ s) = is_digit c && identifier_numeric s

unfoldable pub compare_identifier : Bytes → Bytes → Comparison
unfolding compare_numeric_identifier
compare_identifier left right =
    if identifier_numeric left
    then (if identifier_numeric right then compare_numeric_identifier left right else less)
    else (if identifier_numeric right then greater else compare_bytes left right)

abbrev pub split_at : ℕ → Bytes × List Bytes → Bytes × List Bytes
split_at c (first, others) = if same c b'.' then ([], first ∷ others) else (c ∷ first, others)

-- what repeated `strings.Cut` by a dot gives: the first identifier, and the others
unfoldable pub identifiers : Bytes → Bytes × List Bytes
identifiers [] = ([], [])
identifiers (c ∷ s) = split_at c (identifiers s)

-- the loop of `comparePrerelease`, on all the identifiers of both sides
unfoldable pub compare_identifiers : List Bytes → List Bytes → Comparison
unfolding compare_identifier
compare_identifiers = compare_lists compare_identifier

abbrev pub all_identifiers : Bytes → List Bytes
all_identifiers s = (identifiers s).0 ∷ (identifiers s).1

unfoldable pub compare_prerelease : Bytes → Bytes → Comparison
unfolding identifiers compare_identifiers
compare_prerelease [] [] = equal
compare_prerelease [] (d ∷ t) = greater
compare_prerelease (c ∷ s) [] = less
compare_prerelease (c ∷ s) (d ∷ t) =
    compare_identifiers (all_identifiers (c ∷ s)) (all_identifiers (d ∷ t))

-- `Compare`
unfoldable pub compare : Version → Version → Comparison
unfolding compare_numeric_identifier compare_prerelease
compare left right = or_else (compare_numeric_identifier left.major right.major) (
    or_else (compare_numeric_identifier left.minor right.minor) (
      or_else (compare_numeric_identifier left.patch right.patch)
        (compare_prerelease left.prerelease right.prerelease)))

unfoldable pub is_initial_development : Version → Bool
is_initial_development v = same v.major (codes "0")

unfoldable pub is_prerelease : Version → Bool
is_prerelease v = not (same (length v.prerelease) 0)

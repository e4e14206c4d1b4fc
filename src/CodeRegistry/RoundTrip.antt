-- ===== src/CodeRegistry/RoundTrip.antt =====
-- A code and its stable name stand for one another.
use ocsf_toolkit.Common.{
  ℕ, zero, suc, ◌+◌, ◌≤◌, ◌<◌, ◌≡◌, ◌⊎◌, refl, ◌∙◌, List, [], ◌∷◌, Bool, true, false, not, ◌&&◌,
  ◌||◌, none, some, arith, Bytes, bytes_eq, same, same_iff, nat_eq, length, get_elem?, Bool-cases,
  inl, inr,
}
use ocsf_toolkit.CodeRegistry.{
  Info, Registry, valid, to_code, rest_of, name_of, to_string, parse, parse_from, marshal_text,
  unmarshal_text,
}

abbrev names : List Info → Bytes → Bool
names [] name = false
names (info ∷ rest) name = same info.name name || names rest name

-- No two entries have one name, as a Boolean test that a table can be checked by.
abbrev distinct : List Info → Bool
distinct [] = true
distinct (info ∷ rest) = not (names rest info.name) && distinct rest

-- A registry has an unused entry first, at most 256 entries, and different names.
pub record IsRegistry (infos : Registry) : Type 0 where
  pub start : 0 < length infos
  pub fits : length infos ≤ 256
  pub apart : distinct (rest_of infos) ≡ true

parse_from-none :
    (value : Bytes) (index : ℕ) (l : List Info)
    → names l value ≡ false
    → parse_from value index l ≡ none
unfolding parse_from
parse_from-none value index [] h = refl
parse_from-none value index (info ∷ rest) h = ground (arith, parse_from-none value (index + 1) rest)

names-get :
    (l : List Info) (k : ℕ) (info : Info) → get_elem? l k ≡ some info → names l info.name ≡ true
names-get [] k info h = cc
names-get (x ∷ l) zero info h = ground (arith, same_iff x.name info.name)
names-get (x ∷ l) (suc k) info h = ground (arith, names-get l k info h)

parse_from-get :
    (index k : ℕ) (l : List Info) (info : Info)
    → distinct l ≡ true
    → get_elem? l k ≡ some info
    → parse_from info.name index l ≡ some (to_code (index + k))
unfolding parse_from
parse_from-get index k [] info d h = cc
parse_from-get index zero (x ∷ l) info d h = ground (arith, same_iff x.name info.name)
parse_from-get index (suc k) (x ∷ l) info d h =
    ground
      (arith, same_iff x.name info.name, names-get l k info h, parse_from-get (index + 1) k l info)

get_elem?-lt_length :
    (l : List Info) (k : ℕ) → k < length l → (info : Info) × (get_elem? l k ≡ some info)
get_elem?-lt_length [] k h = absurd (omega arith)
get_elem?-lt_length (x ∷ l) zero h = (x, refl)
get_elem?-lt_length (x ∷ l) (suc k) h = get_elem?-lt_length l k (omega arith)

-- In a registry, a valid code is parsed back from its name.
pub parse-to_string :
    (infos : Registry) (code : ℕ)
    → IsRegistry infos
    → valid infos code ≡ true
    → parse infos (to_string infos code) ≡ some code
unfolding parse to_string valid
parse-to_string [] code r v = absurd (omega (arith, r.start))
parse-to_string (unused ∷ rest) zero r v = cc
parse-to_string (unused ∷ rest) (suc k) r v =
    let (info, found) = get_elem?-lt_length rest k (ground arith) in
    ground (arith, parse_from-get 1 k rest info, r.apart, r.fits)

parse_from_sound :
    (value : Bytes) (index : ℕ) (l : List Info) (code : ℕ)
    → index + length l ≤ 256
    → parse_from value index l ≡ some code
    → (k : ℕ) × (code ≡ index + k) × (k < length l) × (name_of (get_elem? l k) ≡ value)
unfolding parse_from
parse_from_sound value index [] code f h = cc
parse_from_sound value index (info ∷ rest) code f h = elim (Bool-cases (same info.name value)) [
  | inl e ↦ (0, ground arith, omega arith, (same_iff info.name value).0 e)
  | inr e ↦
      let (k, at, inside, named) =
        parse_from_sound value (index + 1) rest code (omega arith) (ground arith) in
      (suc k, omega arith, omega arith, named)
]

-- In a registry, a name that parses is the name of the code it parses to, and that code is valid.
pub to_string-parse :
    (infos : Registry) (value : Bytes) (code : ℕ)
    → IsRegistry infos
    → parse infos value ≡ some code
    → (valid infos code ≡ true) × (to_string infos code ≡ value)
unfolding parse to_string valid
to_string-parse [] value code r h = cc
to_string-parse (unused ∷ rest) value code r h =
    let (k, at, inside, named) = parse_from_sound value 1 rest code (omega (arith, r.fits)) h in
    go k at inside named
  where
    towards : (k : ℕ) → 1 + k ≡ suc k
    towards k = omega arith

    go :
        (k : ℕ)
        → code ≡ 1 + k
        → k < length rest
        → name_of (get_elem? rest k) ≡ value
        → (valid (unused ∷ rest) code ≡ true) × (to_string (unused ∷ rest) code ≡ value)
    go k at inside named = rw (at ∙ towards k) (ground arith)

-- In a registry, what a code marshals to is unmarshalled to that code, and an invalid code does not
-- marshal.
pub unmarshal_text-marshal_text :
    (infos : Registry) (code : ℕ)
    → IsRegistry infos
    → ((valid infos code ≡ false) × (marshal_text infos code ≡ none))
      ⊎ ((text : Bytes) × (marshal_text infos code ≡ some text)
          × (unmarshal_text infos text ≡ some code))
unfolding marshal_text unmarshal_text to_string
unmarshal_text-marshal_text infos code r = elim (Bool-cases (valid infos code)) [
  | inl v ↦ inr (to_string infos code, rw v refl, parse-to_string infos code r v)
  | inr n ↦ inl (n, rw n refl)
]

-- ===== src/ObservablePath/Selectors.antt =====
-- Selectors are read back from their text.
use ocsf_toolkit.Common.{
  ℕ, zero, suc, ◌≤◌, ◌<◌, ◌≡◌, refl, sym, ap, ◌∙◌, List, [], ◌∷◌, ◌++◌, Bool, true, false, ◌&&◌,
  none, some, Bytes, bytes_eq, nat_eq, codes, same, contains, length, cut, arith, append_assoc,
  append-nil, length-append, leb,
}
use ocsf_toolkit.Common.Decimal.{
  decimal, decimal-cons, is_digit, all_digits, max_int64, atoi-decimal, decimal-digits,
}
use ocsf_toolkit.ObservablePath.{
  Selector, brackets, wildcard, index, ok, parse_selector, parse_selectors,
}
use ocsf_toolkit.ObservablePath.Print.{selector_text, selectors_text}

pub cut-separator : (b : ℕ) (s t : Bytes) → contains s b ≡ false → cut b (s ++ b ∷ t) ≡ (s, some t)
cut-separator b [] t h = ground arith
cut-separator b (c ∷ s) t h = ground (arith, cut-separator b s t)

pub cut-whole : (b : ℕ) (s : Bytes) → contains s b ≡ false → cut b s ≡ (s, none)
cut-whole b [] h = refl
cut-whole b (c ∷ s) h = ground (arith, cut-whole b s)

pub contains-append :
    (s t : Bytes) (b : ℕ)
    → contains s b ≡ false
    → contains t b ≡ false
    → contains (s ++ t) b ≡ false
contains-append [] t b h k = k
contains-append (c ∷ s) t b h k = ground (arith, contains-append s t b)

contains-digits :
    (s : Bytes) (b : ℕ) → all_digits s ≡ true → is_digit b ≡ false → contains s b ≡ false
contains-digits [] b h k = refl
contains-digits (c ∷ s) b h k = ground (arith, contains-digits s b)

abbrev pub fits : Selector → Bool
fits (index i) = leb i max_int64
fits _ = true

abbrev pub all_fit : List Selector → Bool
all_fit [] = true
all_fit (s ∷ rest) = fits s && all_fit rest

not_empty : (s : Bytes) → 0 < length s → same s [] ≡ false
not_empty [] h = absurd (omega arith)
not_empty (c ∷ s) h = refl

not_star : (s : Bytes) → all_digits s ≡ true → same s (codes "*") ≡ false
not_star [] h = refl
not_star (c ∷ s) h = ground arith

parse_selector-text : (s : Selector) → fits s ≡ true → parse_selector (selector_text s) ≡ ok s
unfolding parse_selector selector_text
parse_selector-text brackets h = refl
parse_selector-text wildcard h = refl
parse_selector-text (index i) h =
    rw
      (
        not_empty (decimal i) (decimal-cons i),
        not_star (decimal i) (decimal-digits i),
        decimal-digits i,
        atoi-decimal i (ground arith),
      )
      refl

pub contains-selector :
    (s : Selector) (b : ℕ)
    → is_digit b ≡ false
    → same b b'*' ≡ false
    → contains (selector_text s) b ≡ false
unfolding selector_text
contains-selector brackets b h k = refl
contains-selector wildcard b h k = ground arith
contains-selector (index i) b h k = contains-digits (decimal i) b (decimal-digits i) h

pub parse_selectors-text :
    (ss acc : List Selector) (fuel : ℕ)
    → all_fit ss ≡ true
    → length (selectors_text ss) ≤ fuel
    → parse_selectors fuel (selectors_text ss) acc ≡ ok (acc ++ ss)
unfolding parse_selectors selectors_text
parse_selectors-text [] acc fuel h le = ap ok (sym (append-nil acc))
parse_selectors-text (s ∷ ss) acc zero h le = absurd (omega arith)
parse_selectors-text (s ∷ ss) acc (suc fuel) h le =
    rw
      (cut-separator b']' (selector_text s) (selectors_text ss)
        (contains-selector s b']' refl refl))
      (rw (parse_selector-text s (ground arith)) (
        parse_selectors-text ss (acc ++ s ∷ []) fuel (ground arith)
          (omega (arith, le, length-append (selector_text s) (b']' ∷ selectors_text ss)))
        ∙ ap ok (append_assoc acc (s ∷ []) ss)))

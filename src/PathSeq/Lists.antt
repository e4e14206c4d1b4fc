-- ===== src/PathSeq/Lists.antt =====
-- Lists written at an index, cut and joined: what the refinement of the sequence rests on.
use ocsf_toolkit.Common.{
  ℕ, zero, suc, ◌-◌, ◌≤◌, ◌<◌, ◌≡◌, refl, ap, ◌∙◌, List, [], ◌∷◌, ◌++◌, arith, set, take, get_elem?,
  length, drop, some,
}

module _ {ℓ} {A : Type ℓ} where
  abbrev pub drop_last : List A → List A
  drop_last [] = []
  drop_last (x ∷ []) = []
  drop_last (x ∷ y ∷ xs) = x ∷ drop_last (y ∷ xs)

  pub set-append_left :
      (xs ys : List A) (i : ℕ) (v : A) → i < length xs → set xs i v ++ ys ≡ set (xs ++ ys) i v
  set-append_left [] ys i v h = absurd (omega arith)
  set-append_left (x ∷ xs) ys zero v h = refl
  set-append_left (x ∷ xs) ys (suc i) v h =
      ap (λ (r : List A). x ∷ r) (set-append_left xs ys i v (omega arith))

  -- `n` is the length of `xs`, which a caller knows as a numeral.
  pub set-append_right :
      (xs ys : List A) (n i : ℕ) (v : A)
      → length xs ≡ n
      → n ≤ i
      → xs ++ set ys (i - n) v ≡ set (xs ++ ys) i v
  set-append_right [] ys n i v e h = ap (λ (j : ℕ). set ys j v) (omega arith)
  set-append_right (x ∷ xs) ys zero i v e h = absurd (omega arith)
  set-append_right (x ∷ xs) ys (suc n) zero v e h = absurd (omega arith)
  set-append_right (x ∷ xs) ys (suc n) (suc i) v e h =
      ap (λ (r : List A). x ∷ r)
        (ap (λ (j : ℕ). xs ++ set ys j v) (omega arith)
          ∙ set-append_right xs ys n i v (omega arith) (omega arith))

  pub get_elem?-append_left :
      (xs ys : List A) (i : ℕ) → i < length xs → get_elem? xs i ≡ get_elem? (xs ++ ys) i
  get_elem?-append_left [] ys i h = absurd (omega arith)
  get_elem?-append_left (x ∷ xs) ys zero h = refl
  get_elem?-append_left (x ∷ xs) ys (suc i) h = get_elem?-append_left xs ys i (omega arith)

  pub get_elem?-append_right :
      (xs ys : List A) (n i : ℕ)
      → length xs ≡ n
      → n ≤ i
      → get_elem? ys (i - n) ≡ get_elem? (xs ++ ys) i
  get_elem?-append_right [] ys n i e h = ap (get_elem? ys) (omega arith)
  get_elem?-append_right (x ∷ xs) ys zero i e h = absurd (omega arith)
  get_elem?-append_right (x ∷ xs) ys (suc n) zero e h = absurd (omega arith)
  get_elem?-append_right (x ∷ xs) ys (suc n) (suc i) e h =
      ap (get_elem? ys) (omega arith) ∙ get_elem?-append_right xs ys n i (omega arith) (omega arith)

  pub take-set_last :
      (xs : List A) (n : ℕ) (v : A)
      → n < length xs
      → take (suc n) (set xs n v) ≡ take n xs ++ v ∷ []
  take-set_last [] n v h = absurd (omega arith)
  take-set_last (x ∷ xs) zero v h = refl
  take-set_last (x ∷ xs) (suc n) v h =
      ap (λ (r : List A). x ∷ r) (take-set_last xs n v (omega arith))

  pub take_all : (xs : List A) (n : ℕ) → length xs ≤ n → take n xs ≡ xs
  take_all [] zero h = refl
  take_all [] (suc n) h = refl
  take_all (x ∷ xs) zero h = absurd (omega arith)
  take_all (x ∷ xs) (suc n) h = ap (λ (r : List A). x ∷ r) (take_all xs n (omega arith))

  pub take-set_beyond : (xs : List A) (n : ℕ) (v : A) → take n (set xs n v) ≡ take n xs
  take-set_beyond [] n v = refl
  take-set_beyond (x ∷ xs) zero v = refl
  take-set_beyond (x ∷ xs) (suc n) v = ap (λ (r : List A). x ∷ r) (take-set_beyond xs n v)

  pub drop_last-take :
      (xs : List A) (n : ℕ) → n < length xs → drop_last (take (suc n) xs) ≡ take n xs
  drop_last-take [] n h = absurd (omega arith)
  drop_last-take (x ∷ []) zero h = refl
  drop_last-take (x ∷ y ∷ xs) zero h = refl
  drop_last-take (x ∷ []) (suc n) h = absurd (omega arith)
  drop_last-take (x ∷ y ∷ xs) (suc n) h =
      ap (λ (r : List A). x ∷ r) (drop_last-take (y ∷ xs) n (omega arith))

  pub get_elem?-take : (xs : List A) (n i : ℕ) → i < n → get_elem? (take n xs) i ≡ get_elem? xs i
  get_elem?-take xs zero i h = absurd (omega arith)
  get_elem?-take [] (suc n) i h = refl
  get_elem?-take (x ∷ xs) (suc n) zero h = refl
  get_elem?-take (x ∷ xs) (suc n) (suc i) h = get_elem?-take xs n i (omega arith)

  pub length-take_le : (xs : List A) (n : ℕ) → n ≤ length xs → length (take n xs) ≡ n
  length-take_le xs zero h = refl
  length-take_le [] (suc n) h = absurd (omega arith)
  length-take_le (x ∷ xs) (suc n) h = ap suc (length-take_le xs n (omega arith))

  pub drop_step :
      (xs : List A) (i : ℕ) (x : A) → get_elem? xs i ≡ some x → drop i xs ≡ x ∷ drop (suc i) xs
  drop_step [] i x e = cc
  drop_step (y ∷ xs) zero x e = cc
  drop_step (y ∷ xs) (suc i) x e = drop_step xs i x e

  pub get_elem?-lt : (xs : List A) (i : ℕ) → i < length xs → (x : A) × (get_elem? xs i ≡ some x)
  get_elem?-lt [] i h = absurd (omega arith)
  get_elem?-lt (y ∷ xs) zero h = (y, refl)
  get_elem?-lt (y ∷ xs) (suc i) h = get_elem?-lt xs i (omega arith)

  pub drop_all : (xs : List A) (n : ℕ) → length xs ≤ n → drop n xs ≡ []
  drop_all [] zero h = refl
  drop_all [] (suc n) h = refl
  drop_all (x ∷ xs) zero h = absurd (omega arith)
  drop_all (x ∷ xs) (suc n) h = drop_all xs n (omega arith)

  pub drop_last-concat : (xs : List A) (v : A) → drop_last (xs ++ v ∷ []) ≡ xs
  drop_last-concat [] v = refl
  drop_last-concat (x ∷ []) v = refl
  drop_last-concat (x ∷ y ∷ xs) v = ap (λ (r : List A). x ∷ r) (drop_last-concat (y ∷ xs) v)

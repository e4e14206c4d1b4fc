-- ===== src/Semver/Precedence.antt =====
-- The comparison of versions is a total order.
use ocsf_toolkit.Common.{
  ℕ, ◌≡◌, ◌↔◌, refl, sym, ap, ◌∙◌, List, [], ◌∷◌, ◌++◌, arith, Bytes, bytes_eq, nat_eq, same_iff,
  length, Bool-cases,
}
use ocsf_toolkit.Semver.{
  Version, Comparison, less, equal, greater, or_else, compare_ℕ, compare_lists, compare_bytes,
  compare_numeric_identifier, identifier_numeric, compare_identifier, identifiers, split_at,
  compare_identifiers, all_identifiers, compare_prerelease, compare,
}

abbrev pub flip : Comparison → Comparison
flip less = greater
flip equal = equal
flip greater = less

-- A comparison function that is a total order: the two orders of the arguments agree, equality is that
-- of the arguments, and `less` is transitive.
pub record IsOrder {A : Type 0} (f : A → A → Comparison) : Type 0 where
  pub flipped : (a b : A) → f b a ≡ flip (f a b)
  pub equal_iff : (a b : A) → (f a b ≡ equal) ↔ (a ≡ b)
  pub transitive : (a b c : A) → f a b ≡ less → f b c ≡ less → f a c ≡ less

flip-or_else : (a b : Comparison) → flip (or_else a b) ≡ or_else (flip a) (flip b)
flip-or_else less b = refl
flip-or_else equal b = refl
flip-or_else greater b = refl

compare_ℕ-IsOrder : IsOrder compare_ℕ
compare_ℕ-IsOrder = record {
  flipped = λ a b. ground arith;
  equal_iff = λ a b. ground arith;
  transitive = λ a b c. ground arith;
}

-- one comparison behind another, on any data: `f` decides, and where it is equal, `g` does
or_else_trans :
    (x y z p q r : Comparison)
    → (x ≡ less → y ≡ less → z ≡ less)
    → (x ≡ equal → z ≡ y)
    → (y ≡ equal → z ≡ x)
    → (p ≡ less → q ≡ less → r ≡ less)
    → or_else x p ≡ less
    → or_else y q ≡ less
    → or_else z r ≡ less
or_else_trans less less z p q r t u v w h k = rw (t refl refl) refl
or_else_trans less equal z p q r t u v w h k = rw (v refl) refl
or_else_trans equal less z p q r t u v w h k = rw (u refl) refl
or_else_trans equal equal z p q r t u v w h k = rw (u refl) (w h k)
or_else_trans greater y z p q r t u v w h k = absurd (cc)
or_else_trans x greater z p q r t u v w h k = absurd (cc)

or_else-equal : (a b : Comparison) → (or_else a b ≡ equal) ↔ ((a ≡ equal) × (b ≡ equal))
or_else-equal less b = ground arith
or_else-equal equal b = ground arith
or_else-equal greater b = ground arith

-- where the keys are equal, the other comparisons of them agree
module _ {A : Type 0} (f : A → A → Comparison) (o : IsOrder f) where
  same_left : (a b c : A) → f a b ≡ equal → f a c ≡ f b c
  same_left a b c e = ap (λ x. f x c) ((o.equal_iff a b).0 e)

  same_right : (a b c : A) → f b c ≡ equal → f a c ≡ f a b
  same_right a b c e = ap (λ x. f a x) (sym ((o.equal_iff b c).0 e))

  compare_lists-flipped : (s t : List A) → compare_lists f t s ≡ flip (compare_lists f s t)
  compare_lists-flipped [] [] = refl
  compare_lists-flipped [] (d ∷ t) = refl
  compare_lists-flipped (c ∷ s) [] = refl
  compare_lists-flipped (c ∷ s) (d ∷ t) =
      rw (o.flipped c d, compare_lists-flipped s t)
        (sym (flip-or_else (f c d) (compare_lists f s t)))

  compare_lists-equal : (s t : List A) → (compare_lists f s t ≡ equal) ↔ (s ≡ t)
  compare_lists-equal [] [] = ground arith
  compare_lists-equal [] (d ∷ t) = ground arith
  compare_lists-equal (c ∷ s) [] = ground arith
  compare_lists-equal (c ∷ s) (d ∷ t) =
      ground (
        arith,
        or_else-equal (f c d) (compare_lists f s t),
        o.equal_iff c d,
        compare_lists-equal s t,
      )

  compare_lists-transitive :
      (s t u : List A)
      → compare_lists f s t ≡ less
      → compare_lists f t u ≡ less
      → compare_lists f s u ≡ less
  compare_lists-transitive [] [] u h k = k
  compare_lists-transitive [] (d ∷ t) [] h k = absurd (cc)
  compare_lists-transitive [] (d ∷ t) (e ∷ u) h k = refl
  compare_lists-transitive (c ∷ s) [] u h k = absurd (cc)
  compare_lists-transitive (c ∷ s) (d ∷ t) [] h k = absurd (cc)
  compare_lists-transitive (c ∷ s) (d ∷ t) (e ∷ u) h k =
      or_else_trans (f c d) (f d e) (f c e) (compare_lists f s t) (compare_lists f t u)
        (compare_lists f s u) (o.transitive c d e) (same_left c d e) (same_right c d e)
        (compare_lists-transitive s t u) h k

  compare_lists-IsOrder : IsOrder (compare_lists f)
  compare_lists-IsOrder = record {
    flipped = compare_lists-flipped;
    equal_iff = compare_lists-equal;
    transitive = compare_lists-transitive;
  }

module _ {A B : Type 0} (f : A → A → Comparison) (g : B → B → Comparison) where
  -- pairs by their first components, then by their second ones
  abbrev lex : A × B → A × B → Comparison
  lex (a, b) (c, d) = or_else (f a c) (g b d)

  lex-IsOrder : IsOrder f → IsOrder g → IsOrder lex
  lex-IsOrder o p = record {
    flipped =
        λ (a, b) (c, d). rw (o.flipped a c, p.flipped b d) (sym (flip-or_else (f a c) (g b d)));
    equal_iff = λ (a, b) (c, d).
        ground (arith, or_else-equal (f a c) (g b d), o.equal_iff a c, p.equal_iff b d);
    transitive = λ (a, b) (c, d) (x, y) h k.
        or_else_trans (f a c) (f c x) (f a x) (g b d) (g d y) (g b y) (o.transitive a c x)
          (same_left f o a c x) (same_right f o a c x) (p.transitive b d y) h k;
  }

-- an order along a function that is injective
along :
    {A B : Type 0} (f : B → B → Comparison) (φ : A → B)
    → IsOrder f
    → ((a b : A) → φ a ≡ φ b → a ≡ b)
    → IsOrder (λ (a b : A). f (φ a) (φ b))
along f φ o injective = record {
  flipped = λ a b. o.flipped (φ a) (φ b);
  equal_iff = λ a b. (
    λ e. injective a b ((o.equal_iff (φ a) (φ b)).0 e),
    λ e. (o.equal_iff (φ a) (φ b)).1 (ap φ e),
  );
  transitive = λ a b c. o.transitive (φ a) (φ b) (φ c);
}

compare_bytes-IsOrder : IsOrder compare_bytes
compare_bytes-IsOrder = compare_lists-IsOrder compare_ℕ compare_ℕ-IsOrder

compare_numeric_identifier-IsOrder : IsOrder compare_numeric_identifier
unfolding compare_numeric_identifier
compare_numeric_identifier-IsOrder =
    along (lex compare_ℕ compare_bytes) (λ (s : Bytes). (length s, s))
      (lex-IsOrder compare_ℕ compare_bytes compare_ℕ-IsOrder compare_bytes-IsOrder)
      (λ a b e. ap (λ p. p.1) e)

compare_identifier-IsOrder : IsOrder compare_identifier
unfolding compare_identifier
compare_identifier-IsOrder = record {
  flipped = λ a b. ground (
    arith,
    compare_numeric_identifier-IsOrder.flipped a b,
    compare_bytes-IsOrder.flipped a b,
    Bool-cases (identifier_numeric a),
    Bool-cases (identifier_numeric b),
  );
  equal_iff = λ a b. ground (
    arith,
    compare_numeric_identifier-IsOrder.equal_iff a b,
    compare_bytes-IsOrder.equal_iff a b,
    Bool-cases (identifier_numeric a),
    Bool-cases (identifier_numeric b),
  );
  transitive = λ a b c. ground (
    arith,
    compare_numeric_identifier-IsOrder.transitive a b c,
    compare_bytes-IsOrder.transitive a b c,
    Bool-cases (identifier_numeric a),
    Bool-cases (identifier_numeric b),
    Bool-cases (identifier_numeric c),
  );
}

compare_identifiers-IsOrder : IsOrder compare_identifiers
unfolding compare_identifiers
compare_identifiers-IsOrder = compare_lists-IsOrder compare_identifier compare_identifier-IsOrder

-- the text that identifiers were cut from
joined : Bytes → List Bytes → Bytes
joined first [] = first
joined first (next ∷ others) = first ++ b'.' ∷ joined next others

joined-split_at :
    (c : ℕ) (first : Bytes) (others : List Bytes)
    → joined (split_at c (first, others)).0 (split_at c (first, others)).1 ≡ c ∷ joined first others
unfolding joined
joined-split_at c first [] = ground (arith, same_iff c b'.')
joined-split_at c first (next ∷ others) = ground (arith, same_iff c b'.')

joined-identifiers : (s : Bytes) → joined (identifiers s).0 (identifiers s).1 ≡ s
unfolding joined identifiers
joined-identifiers [] = refl
joined-identifiers (c ∷ s) =
    joined-split_at c (identifiers s).0 (identifiers s).1
    ∙ ap (λ (t : Bytes). c ∷ t) (joined-identifiers s)

joined_all : List Bytes → Bytes
unfolding joined
joined_all [] = []
joined_all (first ∷ others) = joined first others

all_identifiers-injective : (a b : Bytes) → all_identifiers a ≡ all_identifiers b → a ≡ b
unfolding joined_all
all_identifiers-injective a b e =
    sym (joined-identifiers a) ∙ (ap joined_all e ∙ joined-identifiers b)

prerelease_texts-IsOrder :
    IsOrder (λ (a b : Bytes). compare_identifiers (all_identifiers a) (all_identifiers b))
prerelease_texts-IsOrder =
    along compare_identifiers all_identifiers compare_identifiers-IsOrder all_identifiers-injective

compare_prerelease-flipped : (a b : Bytes) → compare_prerelease b a ≡ flip (compare_prerelease a b)
unfolding compare_prerelease
compare_prerelease-flipped [] [] = refl
compare_prerelease-flipped [] (d ∷ t) = refl
compare_prerelease-flipped (c ∷ s) [] = refl
compare_prerelease-flipped (c ∷ s) (d ∷ t) = prerelease_texts-IsOrder.flipped (c ∷ s) (d ∷ t)

compare_prerelease-equal : (a b : Bytes) → (compare_prerelease a b ≡ equal) ↔ (a ≡ b)
unfolding compare_prerelease
compare_prerelease-equal [] [] = ground arith
compare_prerelease-equal [] (d ∷ t) = ground arith
compare_prerelease-equal (c ∷ s) [] = ground arith
compare_prerelease-equal (c ∷ s) (d ∷ t) = prerelease_texts-IsOrder.equal_iff (c ∷ s) (d ∷ t)

compare_prerelease-transitive :
    (a b c : Bytes)
    → compare_prerelease a b ≡ less
    → compare_prerelease b c ≡ less
    → compare_prerelease a c ≡ less
unfolding compare_prerelease
compare_prerelease-transitive [] [] u h k = absurd (cc)
compare_prerelease-transitive [] (d ∷ t) u h k = absurd (cc)
compare_prerelease-transitive (c ∷ s) [] [] h k = absurd (cc)
compare_prerelease-transitive (c ∷ s) [] (e ∷ u) h k = absurd (cc)
compare_prerelease-transitive (c ∷ s) (d ∷ t) [] h k = refl
compare_prerelease-transitive (c ∷ s) (d ∷ t) (e ∷ u) h k =
    prerelease_texts-IsOrder.transitive (c ∷ s) (d ∷ t) (e ∷ u) h k

compare_prerelease-IsOrder : IsOrder compare_prerelease
compare_prerelease-IsOrder = record {
  flipped = compare_prerelease-flipped;
  equal_iff = compare_prerelease-equal;
  transitive = compare_prerelease-transitive;
}

abbrev fields : Version → Bytes × (Bytes × (Bytes × Bytes))
fields v = (v.major, (v.minor, (v.patch, v.prerelease)))

fields-injective : (a b : Version) → fields a ≡ fields b → a ≡ b
fields-injective a b e = cc

compare-IsOrder : IsOrder compare
unfolding compare
compare-IsOrder =
    let n = compare_numeric_identifier in
    let o = compare_numeric_identifier-IsOrder in
    along (lex n (lex n (lex n compare_prerelease))) fields
      (lex-IsOrder n (lex n (lex n compare_prerelease)) o (
        lex-IsOrder n (lex n compare_prerelease) o
          (lex-IsOrder n compare_prerelease o compare_prerelease-IsOrder)))
      fields-injective

-- A comparison of versions turns around with its arguments, and two versions compare as equal exactly
-- when they agree in all that is kept of a version.
pub compare_total :
    (a b : Version) → (compare b a ≡ flip (compare a b)) × ((compare a b ≡ equal) ↔ (a ≡ b))
compare_total a b = (compare-IsOrder.flipped a b, compare-IsOrder.equal_iff a b)

-- The precedence of versions is transitive.
pub compare_transitive :
    (a b c : Version) → compare a b ≡ less → compare b c ≡ less → compare a c ≡ less
compare_transitive a b c = compare-IsOrder.transitive a b c

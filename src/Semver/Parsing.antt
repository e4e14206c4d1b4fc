-- ===== src/Semver/Parsing.antt =====
-- What a parse reads is the text that was given.
use ocsf_toolkit.Common.{
  ℕ, ◌+◌, ◌≡◌, inl, inr, refl, sym, ap, ◌∙◌, [], ◌∷◌, ◌++◌, Bool, true, false, ◌&&◌, Option, none,
  some, arith, Bytes, bytes_eq, nat_eq, same, same_iff, if◌then◌else◌, Option-cases,
}
use ocsf_toolkit.Semver.{
  Version, is_digit, span_digits, numeric_identifier, identifier_list, behind, expect, parse,
  build_metadata, prerelease_list, finish, ◌>>=◌,
}

span_digits-append : (s : Bytes) → (span_digits s).0 ++ (span_digits s).1 ≡ s
span_digits-append [] = refl
span_digits-append (c ∷ s) = ground (arith, span_digits-append s)

numeric_identifier-append :
    (s digits rest : Bytes) → numeric_identifier s ≡ some (digits, rest) → digits ++ rest ≡ s
unfolding numeric_identifier
numeric_identifier-append s digits rest h = ground (arith, span_digits-append s)

behind-append :
    (c : ℕ) (o : Option (Bytes × Bytes)) (s list rest : Bytes)
    → ((l r : Bytes) → o ≡ some (l, r) → l ++ r ≡ s)
    → behind c o ≡ some (list, rest)
    → list ++ rest ≡ c ∷ s
behind-append c none s list rest t h = absurd (cc)
behind-append c (some (l, r)) s list rest t h = ground (arith, t l r refl)

identifier_list-append :
    (strict : Bool) (count : ℕ) (zero_first numeric : Bool) (s list rest : Bytes)
    → identifier_list strict count zero_first numeric s ≡ some (list, rest)
    → list ++ rest ≡ s
unfolding identifier_list
identifier_list-append strict count z n [] list rest h = ground arith
identifier_list-append strict count z n (c ∷ s) list rest h = ground (
  arith,
  behind-append c (identifier_list strict 0 false true s) s list rest
      (λ l r. identifier_list-append strict 0 false true s l r),
  behind-append c
      (identifier_list strict (count + 1) (if same count 0 then same c b'0' else z)
        (n && is_digit c) s)
      s list rest
      (λ l r.
        identifier_list-append strict (count + 1) (if same count 0 then same c b'0' else z)
          (n && is_digit c) s l r),
)

expect-append : (c : ℕ) (s t : Bytes) → expect c s ≡ some t → s ≡ c ∷ t
expect-append c [] t h = absurd (cc)
expect-append c (d ∷ s) t h = ground (arith, same_iff d c)

bind_elim :
    {A B : Type 0} (P : Type 0) (o : Option A) (f : A → Option B) (b : B)
    → (o >>= f) ≡ some b
    → ((a : A) → o ≡ some a → f a ≡ some b → P)
    → P
bind_elim P none f b h k = absurd (cc)
bind_elim P (some a) f b h k = k a refl h

-- A prerelease as the version's text shows it
abbrev pub prerelease_text : Bytes → Bytes
prerelease_text [] = []
prerelease_text (c ∷ s) = b'-' ∷ c ∷ s

-- Build metadata as the version's text shows it: none, or a text behind a plus
abbrev pub IsBuild : Bytes → Type 0
IsBuild [] = Unit
IsBuild (c ∷ s) = c ≡ b'+'

behind-prerelease_text :
    (c : ℕ) (o : Option (Bytes × Bytes)) (list rest : Bytes)
    → behind c o ≡ some (list, rest)
    → prerelease_text list ≡ b'-' ∷ list
behind-prerelease_text c none list rest h = absurd (cc)
behind-prerelease_text c (some (l, r)) [] rest h = absurd (cc)
behind-prerelease_text c (some (l, r)) (d ∷ list) rest h = refl

list-prerelease_text :
    (s list rest : Bytes)
    → identifier_list true 0 false true s ≡ some (list, rest)
    → prerelease_text list ≡ b'-' ∷ list
unfolding identifier_list
list-prerelease_text [] list rest h = absurd (cc)
list-prerelease_text (c ∷ s) list rest h = ground (
  arith,
  behind-prerelease_text c (identifier_list true 1 (same c b'0') (is_digit c) s) list rest,
)

prerelease_list-append :
    (s list rest : Bytes)
    → prerelease_list s (expect b'-' s) ≡ some (list, rest)
    → s ≡ prerelease_text list ++ rest
prerelease_list-append s list rest h = elim (Option-cases (expect b'-' s)) [
  | inl e ↦ ground arith
  | inr (t, e) ↦
      expect-append b'-' s t e
      ∙ ground (
        arith,
        identifier_list-append true 0 false true t list rest,
        list-prerelease_text t list rest,
      )
]

build_metadata-IsBuild : (s : Bytes) → build_metadata s (expect b'+' s) ≡ some [] → IsBuild s
build_metadata-IsBuild [] h = tt
build_metadata-IsBuild (c ∷ s) h = ground (arith, same_iff c b'+')

finish-some :
    (major minor patch prerelease left : Bytes) (v : Version)
    → finish major minor patch prerelease left ≡ some v
    → (left ≡ [])
      × (v.major ≡ major)
      × (v.minor ≡ minor)
      × (v.patch ≡ patch)
      × (v.prerelease ≡ prerelease)
finish-some major minor patch prerelease [] v h = ground arith
finish-some major minor patch prerelease (c ∷ s) v h = absurd (cc)

-- a version's text up to the build metadata
abbrev pub IsText : Bytes → Version → Type 0
IsText value v =
    (build : Bytes) × IsBuild build
    × (value
        ≡ v.major
          ++ b'.' ∷ (v.minor ++ b'.' ∷ (v.patch ++ (prerelease_text v.prerelease ++ build))))

after_patch :
    (s major minor patch : Bytes) (v : Version)
    → (prerelease_list s (expect b'-' s) >>= (λ (prerelease, build).
        build_metadata build (expect b'+' build)
        >>= (λ left. finish major minor patch prerelease left)))
      ≡ some v
    → (build : Bytes) × IsBuild build
      × (s ≡ prerelease_text v.prerelease ++ build)
      × (v.major ≡ major)
      × (v.minor ≡ minor)
      × (v.patch ≡ patch)
after_patch s major minor patch v h =
    bind_elim _ (prerelease_list s (expect b'-' s)) _ v h (λ (prerelease, build) e0 h0.
      bind_elim _ (build_metadata build (expect b'+' build)) _ v h0 (λ left e1 h1.
        let (is_empty, f0, f1, f2, f3) = finish-some major minor patch prerelease left v h1 in
        (
          build,
          build_metadata-IsBuild build (e1 ∙ ap some is_empty),
          prerelease_list-append s prerelease build e0
              ∙ ap (λ (t : Bytes). prerelease_text t ++ build) (sym f3),
          f0,
          f1,
          f2,
        )))

assemble :
    (value : Bytes) (v : Version) (major minor patch s0 s1 s2 s3 s4 : Bytes)
    → major ++ s0 ≡ value
    → s0 ≡ b'.' ∷ s1
    → minor ++ s2 ≡ s1
    → s2 ≡ b'.' ∷ s3
    → patch ++ s4 ≡ s3
    → (build : Bytes) × IsBuild build
      × (s4 ≡ prerelease_text v.prerelease ++ build)
      × (v.major ≡ major)
      × (v.minor ≡ minor)
      × (v.patch ≡ patch)
    → IsText value v
assemble value v major minor patch s0 s1 s2 s3 s4 e0 e1 e2 e3 e4 (build, is_build, e5, f0, f1, f2) =
    (
      build,
      is_build,
      simp (f0, f1, f2)
          (sym e0
            ∙ ap (λ (t : Bytes). major ++ t)
                (e1
                  ∙ ap (λ (t : Bytes). b'.' ∷ t)
                      (sym e2
                        ∙ ap (λ (t : Bytes). minor ++ t)
                            (e3
                              ∙ ap (λ (t : Bytes). b'.' ∷ t)
                                  (sym e4 ∙ ap (λ (t : Bytes). patch ++ t) e5))))),
    )

-- A text that parses is the three numbers with dots between them, a dash and the prerelease where
-- the version has one, and build metadata or nothing behind them.
pub parse_sound : (value : Bytes) (v : Version) → parse value ≡ some v → IsText value v
unfolding parse
parse_sound value v h =
    bind_elim (IsText value v) (numeric_identifier value) _ v h (λ (major, s0) e0 h0.
      bind_elim (IsText value v) (expect b'.' s0) _ v h0 (λ s1 e1 h1.
        bind_elim (IsText value v) (numeric_identifier s1) _ v h1 (λ (minor, s2) e2 h2.
          bind_elim (IsText value v) (expect b'.' s2) _ v h2 (λ s3 e3 h3.
            bind_elim (IsText value v) (numeric_identifier s3) _ v h3 (λ (patch, s4) e4 h4.
              assemble value v major minor patch s0 s1 s2 s3 s4
                (numeric_identifier-append value major s0 e0) (expect-append b'.' s0 s1 e1)
                (numeric_identifier-append s1 minor s2 e2) (expect-append b'.' s2 s3 e3)
                (numeric_identifier-append s3 patch s4 e4)
                (after_patch s4 major minor patch v h4))))))

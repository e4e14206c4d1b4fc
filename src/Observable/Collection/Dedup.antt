-- ===== src/Observable/Collection/Dedup.antt =====
-- What deduplication accepts: each new identity once.
use ocsf_toolkit.Common.{
  ℕ, ◌+◌, ◌≡◌, ◌≢◌, ◌↔◌, ◌⊎◌, inl, inr, refl, List, [], ◌∷◌, ◌++◌, true, false, not, ◌&&◌, ◌||◌,
  Option, none, some, arith, same_iff, lookup, insert, lookup-insert, contains, length,
  length-append, append-nil, append_assoc, Option-cases, if◌then◌else◌,
}
use ocsf_toolkit.EventValue.{Value, Map}
use ocsf_toolkit.EventValue.Scalar.{NumberLibrary}
use ocsf_toolkit.Observable.Collection.{
  Identity, identity_eq, identify, identify_map, DuplicateSource, existing_source, generated_source,
  Deduplication, Seen, seen_existing, round, record_round, dedup_from, deduplicate_generated,
}

abbrev cons? : Option Identity → List Identity → List Identity
cons? none ks = ks
cons? (some k) ks = k ∷ ks

abbrev cons_unless : Option Identity → Map → List Map → List Map
cons_unless none m ms = m ∷ ms
cons_unless (some k) m ms = ms

abbrev pub Distinct : List Identity → Type 0
Distinct [] = Unit
Distinct (k ∷ ks) = (contains ks k ≡ false) × Distinct ks

module _ (lib : NumberLibrary) where
  -- the identities of a list of observables, and of the entries of an array
  pub keys : List Map → List Identity
  keys [] = []
  keys (m ∷ ms) = cons? (identify_map lib m) (keys ms)

  pub entry_keys : List Value → List Identity
  entry_keys [] = []
  entry_keys (v ∷ vs) = cons? (identify lib v) (entry_keys vs)

  -- the observables with no complete identity
  pub malformed : List Map → List Map
  malformed [] = []
  malformed (m ∷ ms) = cons_unless (identify_map lib m) m (malformed ms)

  lookup-seen_existing :
      (k : Identity) (vs : List Value) (seen : Seen)
      → lookup k (seen_existing lib vs seen)
        ≡ (if contains (entry_keys vs) k then some existing_source else lookup k seen)
  unfolding seen_existing entry_keys
  lookup-seen_existing k [] seen = refl
  lookup-seen_existing k (v ∷ vs) seen = elim (Option-cases (identify lib v)) [
    | inl e ↦ ground (arith, lookup-seen_existing k vs seen)
    | inr (j, e) ↦ ground (
      arith,
      lookup-seen_existing k vs (insert j existing_source seen),
      lookup-insert j k existing_source seen,
    )
  ]

  keys-append :
      (ms : List Map) (m : Map) → keys (ms ++ m ∷ []) ≡ keys ms ++ cons? (identify_map lib m) []
  unfolding keys
  keys-append [] m = refl
  keys-append (n ∷ ms) m = ground (arith, keys-append ms m, Option-cases (identify_map lib n))

  malformed-append :
      (ms : List Map) (m : Map)
      → malformed (ms ++ m ∷ []) ≡ malformed ms ++ cons_unless (identify_map lib m) m []
  unfolding malformed
  malformed-append [] m = refl
  malformed-append (n ∷ ms) m =
      ground (arith, malformed-append ms m, Option-cases (identify_map lib n))

contains-append :
    (ks js : List Identity) (k : Identity) → contains (ks ++ js) k ≡ contains ks k || contains js k
contains-append [] js k = refl
contains-append (i ∷ ks) js k = ground (arith, contains-append ks js k)

Distinct-append :
    (ks : List Identity) (k : Identity)
    → Distinct ks
    → contains ks k ≡ false
    → Distinct (ks ++ k ∷ [])
Distinct-append [] k d h = (refl, tt)
Distinct-append (i ∷ ks) k d h =
    ground
      (arith, Distinct-append ks k d.1, contains-append ks (k ∷ []) i, same_iff k i, same_iff i k)

module _ (lib : NumberLibrary) where
  -- What holds before each round, with what was accepted so far.
  record Inv (start seen : Seen) (done : List Map) (r : Deduplication) : Type 0 where
    distinct : Distinct (keys lib r.accepted)
    marked :
        (k : Identity)
        → (contains (keys lib r.accepted) k ≡ true) ↔ (lookup k seen ≡ some generated_source)
    kept :
        (k : Identity)
        → (lookup k start ≡ some existing_source) ↔ (lookup k seen ≡ some existing_source)
    covered : (k : Identity) → contains (keys lib done) k ≡ true → lookup k seen ≢ none
    from_done :
        (k : Identity) → contains (keys lib r.accepted) k ≡ true → contains (keys lib done) k ≡ true
    counted : length r.accepted + length r.duplicates ≡ length done
    untouched : malformed lib r.accepted ≡ malformed lib done

  Inv-none :
      (start seen : Seen) (done : List Map) (m : Map) (index : ℕ) (r : Deduplication)
      → identify_map lib m ≡ none
      → Inv start seen done r
      → Inv start seen (done ++ m ∷ []) (record_round m index none r)
  Inv-none start seen done m index r e h = record {
    distinct =
        ground (arith, keys-append lib r.accepted m, h.distinct, append-nil (keys lib r.accepted));
    marked = λ k.
        ground (arith, keys-append lib r.accepted m, h.marked k, append-nil (keys lib r.accepted));
    kept = λ k. ground (arith, h.kept k);
    covered = λ k. ground (arith, keys-append lib done m, h.covered k, append-nil (keys lib done));
    from_done = λ k. ground (
      arith,
      keys-append lib r.accepted m,
      keys-append lib done m,
      h.from_done k,
      append-nil (keys lib done),
      append-nil (keys lib r.accepted),
    );
    counted =
        omega (arith, h.counted, length-append r.accepted (m ∷ []), length-append done (m ∷ []));
    untouched =
        ground (arith, h.untouched, malformed-append lib r.accepted m, malformed-append lib done m);
  }

  Inv-duplicate :
      (start seen : Seen) (done : List Map) (m : Map) (index : ℕ) (r : Deduplication)
      (key : Identity) (source : DuplicateSource)
      → identify_map lib m ≡ some key
      → lookup key seen ≡ some source
      → Inv start seen done r
      → Inv start seen (done ++ m ∷ []) (record_round m index (some (key, source)) r)
  Inv-duplicate start seen done m index r key source e f h = record {
    distinct = h.distinct;
    marked = h.marked;
    kept = h.kept;
    covered = λ k. ground (
      arith,
      keys-append lib done m,
      h.covered k,
      contains-append (keys lib done) (key ∷ []) k,
      same_iff key k,
    );
    from_done = λ k. ground (
      arith,
      keys-append lib done m,
      h.from_done k,
      contains-append (keys lib done) (key ∷ []) k,
    );
    counted = omega (
      arith,
      h.counted,
      length-append done (m ∷ []),
      length-append r.duplicates (
          record { observable = m; name = key.name; source = source; generated_index = index }
          ∷ []),
    );
    untouched =
        ground (arith, h.untouched, malformed-append lib done m, append-nil (malformed lib done));
  }

  Inv-new :
      (start seen : Seen) (done : List Map) (m : Map) (index : ℕ) (r : Deduplication)
      (key : Identity)
      → identify_map lib m ≡ some key
      → lookup key seen ≡ none
      → Inv start seen done r
      → Inv start (insert key generated_source seen) (done ++ m ∷ []) (record_round m index none r)
  Inv-new start seen done m index r key e f h = record {
    distinct = ground (
      arith,
      keys-append lib r.accepted m,
      h.distinct,
      h.marked key,
      Distinct-append (keys lib r.accepted) key,
    );
    marked = λ k. ground (
      arith,
      keys-append lib r.accepted m,
      h.marked k,
      contains-append (keys lib r.accepted) (key ∷ []) k,
      lookup-insert key k generated_source seen,
      same_iff key k,
    );
    kept = λ k. ground (arith, h.kept k, lookup-insert key k generated_source seen, same_iff key k);
    covered = λ k. ground (
      arith,
      keys-append lib done m,
      h.covered k,
      contains-append (keys lib done) (key ∷ []) k,
      lookup-insert key k generated_source seen,
      same_iff key k,
    );
    from_done = λ k. ground (
      arith,
      keys-append lib r.accepted m,
      keys-append lib done m,
      h.from_done k,
      contains-append (keys lib done) (key ∷ []) k,
      contains-append (keys lib r.accepted) (key ∷ []) k,
    );
    counted =
        omega (arith, h.counted, length-append r.accepted (m ∷ []), length-append done (m ∷ []));
    untouched = ground (
      arith,
      h.untouched,
      malformed-append lib r.accepted m,
      malformed-append lib done m,
      append-nil (malformed lib done),
      append-nil (malformed lib r.accepted),
    );
  }

  -- one round, by the identity of the observable and what `seen` says of it
  Inv-round :
      (start seen : Seen) (done : List Map) (m : Map) (index : ℕ) (r : Deduplication)
      (o : Option Identity)
      → identify_map lib m ≡ o
      → Inv start seen done r
      → Inv start (round o seen).0 (done ++ m ∷ []) (record_round m index (round o seen).1 r)
  Inv-round start seen done m index r none e h = Inv-none start seen done m index r e h
  Inv-round start seen done m index r (some key) e h = elim (Option-cases (lookup key seen)) [
    | inl f ↦ rw f (Inv-new start seen done m index r key e f h)
    | inr (source, f) ↦ rw f (Inv-duplicate start seen done m index r key source e f h)
  ]

  Inv-dedup_from :
      (start seen : Seen) (done ms : List Map) (index : ℕ) (r : Deduplication)
      → Inv start seen done r
      → (s : Seen) × Inv start s (done ++ ms) (dedup_from lib ms index seen r)
  unfolding dedup_from
  Inv-dedup_from start seen done [] index r h = (seen, rw (append-nil done) h)
  Inv-dedup_from start seen done (m ∷ ms) index r h =
      let (seen', duplicate) = round (identify_map lib m) seen in
      rw (← append_assoc done (m ∷ []) ms) (
        Inv-dedup_from start seen' (done ++ m ∷ []) ms (index + 1)
          (record_round m index duplicate r)
          (Inv-round start seen done m index r (identify_map lib m) refl h))

source_cases :
    (k : Identity) (s : Seen)
    → (lookup k s ≡ none)
      ⊎ ((lookup k s ≡ some existing_source) ⊎ (lookup k s ≡ some generated_source))
source_cases k s = elim (Option-cases (lookup k s)) [
  | inl e ↦ inl e
  | inr (existing_source, e) ↦ inr (inl e)
  | inr (generated_source, e) ↦ inr (inr e)
]

-- What a deduplication of `generated` against `existing` promises.
pub record IsDeduplication (lib : NumberLibrary) (existing : List Value) (generated : List Map)
    (r : Deduplication) : Type 0 where
  -- no identity is accepted twice, and those accepted are the generated ones that no existing entry has
  pub distinct : Distinct (keys lib r.accepted)
  pub exactly :
      (k : Identity)
      → contains (keys lib r.accepted) k
        ≡ contains (keys lib generated) k && not (contains (entry_keys lib existing) k)
  -- nothing is lost, and what has no complete identity is accepted, in its order
  pub counted : length r.accepted + length r.duplicates ≡ length generated
  pub untouched : malformed lib r.accepted ≡ malformed lib generated

-- Deduplicating generated observables accepts each generated identity that no existing entry has
-- exactly once and no other, accounts for every generated observable as accepted or as a duplicate, and
-- accepts all those with no complete identity, in their order.
pub deduplicate_generated-IsDeduplication :
    (lib : NumberLibrary) (existing : List Value) (generated : List Map)
    → IsDeduplication lib existing generated (deduplicate_generated lib existing generated)
unfolding deduplicate_generated keys
deduplicate_generated-IsDeduplication lib existing generated =
    let start = seen_existing lib existing [] in
    let (s, inv) =
      Inv-dedup_from lib start start [] generated 0 (record { accepted = []; duplicates = [] })
        (record {
          distinct = tt;
          marked = λ k. ground (arith, lookup-seen_existing lib k existing []);
          kept = λ k. (λ e. e, λ e. e);
          covered = λ k e. cc;
          from_done = λ k e. cc;
          counted = refl;
          untouched = refl;
        }) in
    record {
      distinct = inv.distinct;
      exactly = λ k. ground (
        arith,
        inv.covered k,
        inv.marked k,
        inv.kept k,
        inv.from_done k,
        source_cases k s,
        lookup-seen_existing lib k existing [],
      );
      counted = inv.counted;
      untouched = inv.untouched;
    }

-- ===== src/Observable/Discovery/Reachability.antt =====
-- The propagation along the edges between definitions marks exactly what is reachable, and ends.
use ocsf_toolkit.Common.{
  ℕ, zero, suc, ◌+◌, ◌≤◌, ◌<◌, ◌≡◌, ◌↔◌, ◌⊎◌, inl, inr, refl, sym, subst, List, [], ◌∷◌, Bool, true,
  false, Option, some, Bytes, bytes_eq, same, same_iff, same_refl, contains, length, arith,
  Bool-cases, if◌then◌else◌,
}
use ocsf_toolkit.Common.Int.{ℤ}
use ocsf_toolkit.Observable.Discovery.{
  Compiled, all_edges, seeds, mark, propagate, compile_object_observability,
}

abbrev pub Edges : Type 0
Edges = List (Bytes × Bytes)

abbrev pub EdgeIn : Edges → Bytes → Bytes → Type 0
EdgeIn [] nested referrer = ⊥
EdgeIn ((n, r) ∷ edges) nested referrer =
    ((n ≡ nested) × (r ≡ referrer)) ⊎ EdgeIn edges nested referrer

-- a definition that is a seed, or that refers to one that generates
pub data Generates (edges : Edges) (seeds : List Bytes) : Bytes → Type 0 where
  seed : (name : Bytes) → contains seeds name ≡ true → Generates edges seeds name
  refers_to :
      (name nested : Bytes)
      → EdgeIn edges nested name
      → Generates edges seeds nested
      → Generates edges seeds name

abbrev Within : List Bytes → List Bytes → Type 0
Within xs ys = (x : Bytes) → contains xs x ≡ true → contains ys x ≡ true

-- the edges whose referrer is not marked yet
abbrev open_edges : Edges → List Bytes → ℕ
open_edges [] result = 0
open_edges ((n, r) ∷ edges) result =
    if contains result r then open_edges edges result else suc (open_edges edges result)

open_edges-length : (edges : Edges) (result : List Bytes) → open_edges edges result ≤ length edges
open_edges-length [] result = omega arith
open_edges-length ((n, r) ∷ edges) result = ground (arith, open_edges-length edges result)

open_edges-cons_le :
    (edges : Edges) (x : Bytes) (result : List Bytes)
    → open_edges edges (x ∷ result) ≤ open_edges edges result
open_edges-cons_le [] x result = omega arith
open_edges-cons_le ((n, r) ∷ edges) x result = ground (arith, open_edges-cons_le edges x result)

open_edges-cons :
    (edges : Edges) (nested x : Bytes) (result : List Bytes)
    → EdgeIn edges nested x
    → contains result x ≡ false
    → open_edges edges (x ∷ result) < open_edges edges result
open_edges-cons [] nested x result h f = absurd h
open_edges-cons ((n, r) ∷ edges) nested x result (inl (e, g)) f =
    ground (arith, open_edges-cons_le edges x result, same_iff x r, g)
open_edges-cons ((n, r) ∷ edges) nested x result (inr h) f =
    ground (arith, open_edges-cons edges nested x result h f)

-- what a loop over some of the edges does, for an object from which they are looked through
record Marks (edges : Edges) (seeds : List Bytes) (object : Bytes) (es : Edges)
    (result pending : List Bytes) (out : List Bytes × List Bytes) : Type 0 where
  grows : Within result out.0
  keeps : Within pending out.1
  fresh :
      (x : Bytes) → contains out.0 x ≡ true → (contains result x ≡ true) ⊎ (contains out.1 x ≡ true)
  queue : Within pending result → Within out.1 out.0
  marked : (r : Bytes) → EdgeIn es object r → contains out.0 r ≡ true
  sound :
      (x : Bytes) → contains out.0 x ≡ true → (contains result x ≡ true) ⊎ Generates edges seeds x
  work : length out.1 + open_edges edges out.0 ≤ length pending + open_edges edges result

contains-later : (x y : Bytes) (xs : List Bytes) → contains xs x ≡ true → contains (y ∷ xs) x ≡ true
contains-later x y xs h = ground arith

contains-first : (x : Bytes) (xs : List Bytes) → contains (x ∷ xs) x ≡ true
contains-first x xs = rw (same_refl x) refl

contains-cons :
    (x y : Bytes) (xs : List Bytes) → contains (y ∷ xs) x ≡ true → (y ≡ x) ⊎ (contains xs x ≡ true)
contains-cons x y xs h = elim (Bool-cases (same y x)) [
  | inl equal ↦ inl ((same_iff y x).0 equal)
  | inr other ↦ inr (rw other at h)
]

module _ (edges : Edges) (seeds : List Bytes) (object : Bytes) where
  passes-Marks :
      (n r : Bytes) (es : Edges) (result pending : List Bytes) (out : List Bytes × List Bytes)
      → ((x : Bytes) → n ≡ object → r ≡ x → contains out.0 x ≡ true)
      → Marks edges seeds object es result pending out
      → Marks edges seeds object ((n, r) ∷ es) result pending out
  passes-Marks n r es result pending out here h = record {
    grows = h.grows;
    keeps = h.keeps;
    fresh = h.fresh;
    queue = h.queue;
    marked = λ x e. elim e [
      | inl (at_object, at_x) ↦ here x at_object at_x
      | inr rest ↦ h.marked x rest
    ];
    sound = h.sound;
    work = h.work;
  }

  adds-Marks :
      (n r : Bytes) (es : Edges) (result pending : List Bytes) (out : List Bytes × List Bytes)
      → EdgeIn edges object r
      → Generates edges seeds object
      → contains result r ≡ false
      → Marks edges seeds object es (r ∷ result) (r ∷ pending) out
      → Marks edges seeds object ((n, r) ∷ es) result pending out
  adds-Marks n r es result pending out edge generates new h = record {
    grows = λ x e. h.grows x (contains-later x r result e);
    keeps = λ x e. h.keeps x (contains-later x r pending e);
    fresh = λ x e. elim (h.fresh x e) [
      | inr queued ↦ inr queued
      | inl before ↦ elim (contains-cons x r result before) [
        | inl equal ↦ inr (
            h.keeps x (
              subst (λ (y : Bytes). contains (r ∷ pending) y ≡ true) equal
                (contains-first r pending)))
        | inr known ↦ inl known
      ]
    ];
    queue = λ w. h.queue (λ x e. elim (contains-cons x r pending e) [
      | inl equal ↦
          subst (λ (y : Bytes). contains (r ∷ result) y ≡ true) equal (contains-first r result)
      | inr before ↦ contains-later x r result (w x before)
    ]);
    marked = λ x e. elim e [
      | inl (at_object, at_x) ↦
          h.grows x
            (subst (λ (y : Bytes). contains (r ∷ result) y ≡ true) at_x (contains-first r result))
      | inr rest ↦ h.marked x rest
    ];
    sound = λ x e. elim (h.sound x e) [
      | inr g ↦ inr g
      | inl before ↦ elim (contains-cons x r result before) [
        | inl equal ↦ inr (subst (Generates edges seeds) equal (refers_to r object edge generates))
        | inr known ↦ inl known
      ]
    ];
    work = omega (arith, h.work, open_edges-cons edges object r result edge new);
  }

module _ (edges : Edges) (seeds : List Bytes) (object : Bytes)
    (generates : Generates edges seeds object) where
  mark-Marks :
      (es : Edges) (result pending : List Bytes)
      → ((n r : Bytes) → EdgeIn es n r → EdgeIn edges n r)
      → Marks edges seeds object es result pending (mark object es result pending)
  unfolding mark
  mark-Marks [] result pending within = record {
    grows = λ x e. e;
    keeps = λ x e. e;
    fresh = λ x e. inl e;
    queue = λ w. w;
    marked = λ r h. absurd h;
    sound = λ x e. inl e;
    work = omega arith;
  }
  mark-Marks ((n, r) ∷ es) result pending within = elim (Bool-cases (same n object)) [
    | inr other ↦ rw other (
        passes-Marks edges seeds object n r es result pending (mark object es result pending)
          (λ x at_object at_x. absurd (cc (other, (same_iff n object).1 at_object)))
          (mark-Marks es result pending (λ a b e. within a b (inr e))))
    | inl equal ↦ elim (Bool-cases (contains result r)) [
      | inl known ↦
          rw (equal, known)
            (let rest = mark-Marks es result pending (λ a b e. within a b (inr e)) in
              passes-Marks edges seeds object n r es result pending (mark object es result pending)
                (λ x at_object at_x.
                  rest.grows x (subst (λ (y : Bytes). contains result y ≡ true) at_x known))
                rest)
      | inr new ↦
          rw (equal, new)
            (adds-Marks edges seeds object n r es result pending
              (mark object es (r ∷ result) (r ∷ pending))
              (within object r (inl ((same_iff n object).0 equal, refl))) generates new
              (mark-Marks es (r ∷ result) (r ∷ pending) (λ a b e. within a b (inr e))))
    ]
  ]

-- the state of the loop over `pending`
record IsMarking (edges : Edges) (seeds result pending : List Bytes) : Type 0 where
  seeded : Within seeds result
  queued : Within pending result
  sound : (x : Bytes) → contains result x ≡ true → Generates edges seeds x
  closed :
      (n r : Bytes)
      → EdgeIn edges n r
      → contains result n ≡ true
      → (contains result r ≡ true) ⊎ (contains pending n ≡ true)

Marks-IsMarking :
    (edges : Edges) (seeds : List Bytes) (object : Bytes) (result pending : List Bytes)
    (out : List Bytes × List Bytes)
    → IsMarking edges seeds result (object ∷ pending)
    → Marks edges seeds object edges result pending out
    → IsMarking edges seeds out.0 out.1
Marks-IsMarking edges seeds object result pending out h m = record {
  seeded = λ x e. m.grows x (h.seeded x e);
  queued = m.queue (λ x e. h.queued x (contains-later x object pending e));
  sound = λ x e. elim (m.sound x e) [ inl before ↦ h.sound x before | inr g ↦ g ];
  closed = λ n r edge e. elim (m.fresh n e) [
    | inr now ↦ inr now
    | inl before ↦ elim (h.closed n r edge before) [
      | inl known ↦ inl (m.grows r known)
      | inr waiting ↦ elim (contains-cons n object pending waiting) [
        | inl equal ↦ inl (m.marked r (subst (λ (y : Bytes). EdgeIn edges y r) (sym equal) edge))
        | inr later ↦ inr (m.keeps n later)
      ]
    ]
  ];
}

propagate-IsMarking :
    (edges : Edges) (seeds : List Bytes) (rounds : ℕ) (result pending : List Bytes)
    → length pending + open_edges edges result ≤ rounds
    → IsMarking edges seeds result pending
    → (out : List Bytes) × (propagate rounds edges result pending ≡ some out)
      × IsMarking edges seeds out []
unfolding propagate
propagate-IsMarking edges seeds rounds result [] le h = (result, refl, h)
propagate-IsMarking edges seeds zero result (object ∷ pending) le h = absurd (omega arith)
propagate-IsMarking edges seeds (suc rounds) result (object ∷ pending) le h =
    let out = mark object edges result pending in
    let generates = h.sound object (h.queued object (contains-first object pending)) in
    let marks = mark-Marks edges seeds object generates edges result pending (λ n r e. e) in
    propagate-IsMarking edges seeds rounds out.0 out.1 (omega (arith, le, marks.work))
      (Marks-IsMarking edges seeds object result pending out h marks)

Generates-closed :
    (edges : Edges) (seeds result : List Bytes) (name : Bytes)
    → IsMarking edges seeds result []
    → Generates edges seeds name
    → contains result name ≡ true
Generates-closed edges seeds result name h (seed n e) = h.seeded name e
Generates-closed edges seeds result name h (refers_to n nested edge g) =
    elim (h.closed nested name edge (Generates-closed edges seeds result nested h g)) [
      | inl known ↦ known
      | inr impossible ↦ absurd (cc impossible)
    ]

start-IsMarking : (edges : Edges) (seeds : List Bytes) → IsMarking edges seeds seeds seeds
start-IsMarking edges seeds = record {
  seeded = λ x e. e;
  queued = λ x e. e;
  sound = λ x e. seed x e;
  closed = λ n r edge e. inr e;
}

-- `CompileObjectObservability` ends, and marks exactly the object definitions that can generate an
-- observable: those that are observable directly, and those from which a chain of object attributes
-- leads to one, also where definitions refer to each other in a circle.
pub observability-Generates :
    (compiled : Compiled) (allowed : Option (ℤ → Bool))
    → (out : List Bytes) × (compile_object_observability compiled allowed ≡ some out)
      × ((name : Bytes)
          → (contains out name ≡ true)
            ↔ Generates
                (all_edges compiled allowed compiled.objects)
                (seeds compiled allowed compiled.objects [])
                name)
unfolding compile_object_observability
observability-Generates compiled allowed =
    let edges = all_edges compiled allowed compiled.objects in
    let roots = seeds compiled allowed compiled.objects [] in
    let (out, result, marking) =
      propagate-IsMarking edges roots (length roots + length edges) roots roots
        (omega (arith, open_edges-length edges roots)) (start-IsMarking edges roots) in
    (out, result, λ name. (marking.sound name, Generates-closed edges roots out name marking))

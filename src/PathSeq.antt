-- ===== src/PathSeq.antt =====
-- internal/pathseq/sequence.go: the sequence that both kinds of path store their elements in. Its
-- first eight elements stand in a fixed array, the others in a slice.
pub mod Lists
pub mod Refinement
use ocsf_toolkit.Common.{
  ℕ, zero, suc, ◌+◌, ◌-◌, List, [], ◌∷◌, ◌++◌, Option, none, some, ltb, if◌then◌else◌, get_elem?,
  set, replicate, length,
}

abbrev pub inline_capacity : ℕ
inline_capacity = 8

-- `inline` has a slot for each index below the capacity; `len` is the Go field `length`.
pub record Sequence (T : Type 0) : Type 0 where
  pub inline : List T
  pub overflow : List T
  pub len : ℕ

-- `zero_value` is Go's zero value of `T`.
module _ {T : Type 0} (zero_value : T) where
  unfoldable pub empty : Sequence T
  empty = record { inline = replicate inline_capacity zero_value; overflow = []; len = 0 }

  unfoldable pub pop : Sequence T → Sequence T
  pop s =
      if ltb 0 s.len
      then (let n = s.len - 1 in
          if ltb n inline_capacity
          then record s { inline = set s.inline n zero_value; len = n }
          else record s { overflow = set s.overflow (n - inline_capacity) zero_value; len = n })
      else s

module _ {T : Type 0} where
  unfoldable pub push : Sequence T → T → Sequence T
  push s value =
      if ltb s.len inline_capacity
      then record s { inline = set s.inline s.len value; len = s.len + 1 }
      else (let i = s.len - inline_capacity in
          if ltb i (length s.overflow)
          then record s { overflow = set s.overflow i value; len = s.len + 1 }
          else record s { overflow = s.overflow ++ value ∷ []; len = s.len + 1 })

  -- `none` is Go's panic on an index out of range.
  unfoldable pub at : Sequence T → ℕ → Option T
  at s index =
      if ltb index inline_capacity
      then get_elem? s.inline index
      else get_elem? s.overflow (index - inline_capacity)

  abbrev cons? : Option T → List T → List T
  cons? none rest = rest
  cons? (some x) rest = x ∷ rest

  -- what a loop `for index := 0; index < s.Len(); index++ { … s.At(index) … }` reads, in order
  items_from : Sequence T → ℕ → ℕ → List T
  unfolding at
  items_from s index zero = []
  items_from s index (suc rounds) = cons? (at s index) (items_from s (index + 1) rounds)

  unfoldable pub items : Sequence T → List T
  unfolding items_from
  items s = items_from s 0 s.len

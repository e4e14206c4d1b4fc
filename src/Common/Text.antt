-- ===== src/Common/Text.antt =====
-- Go strings as lists of bytes, and the functions of package strings that the toolkit calls.
use Prim.Native.Nat.{ℕ}
use Prim.Native.Char.{code}
use Prim.Native.String.{String}
use mathlib.Core.Option.{Option, none, some}
use mathlib.Core.List.{List, [], ◌∷◌}
use ocsf_toolkit.Common.Keys.{Eq, nat_eq, list_eq}
use ocsf_toolkit.Common.Tests.{◌==◌, if◌then◌else◌}

abbrev pub Bytes : Type 0
Bytes = List ℕ

instance abbrev pub bytes_eq : Eq Bytes
bytes_eq = list_eq

-- The bytes of an ASCII literal.
abbrev pub codes : String → Bytes
codes String.[] = []
codes (String.◌∷◌ c s) = code c ∷ codes s

-- `strings.IndexByte`, split there: the text before the first `b` and, if there is a `b`, the text
-- behind it. `strings.Cut` at a one-byte separator gives the same three results.
abbrev pub cut : ℕ → Bytes → Bytes × Option Bytes
cut b [] = ([], none)
cut b (c ∷ s) =
    let (before, after) = cut b s in if c == b then ([], some s) else (c ∷ before, after)

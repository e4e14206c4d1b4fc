-- ===== src/CodeRegistry.antt =====
-- internal/coderegistry/registry.go: the lookup shared by the code enumerations. A code is a uint8,
-- and indexes a table whose first entry is unused.
pub mod RoundTrip
use ocsf_toolkit.Common.{
  ℕ, zero, suc, ◌+◌, ◌%◌, List, [], ◌∷◌, Bool, true, false, not, ◌&&◌, Option, none, some, Bytes,
  bytes_eq, same, ltb, length, get_elem?, if◌then◌else◌,
}

pub record Info : Type 0 where
  pub name : Bytes
  pub description : Bytes
  pub mandatory : Bool

abbrev pub Registry : Type 0
Registry = List Info

unfoldable pub valid : Registry → ℕ → Bool
valid infos code = ltb 0 code && ltb code (length infos)

-- `T(index)`, a conversion to uint8
abbrev pub to_code : ℕ → ℕ
to_code index = index % 256

codes_from : ℕ → List Info → List ℕ
codes_from index [] = []
codes_from index (info ∷ rest) = to_code index ∷ codes_from (index + 1) rest

abbrev rest_of : Registry → List Info
rest_of [] = []
rest_of (unused ∷ rest) = rest

unfoldable pub codes_of : Registry → List ℕ
unfolding codes_from
codes_of infos = codes_from 1 (rest_of infos)

abbrev name_of : Option Info → Bytes
name_of none = []
name_of (some info) = info.name

abbrev description_of : Option Info → Bytes
description_of none = []
description_of (some info) = info.description

abbrev mandatory_of : Option Info → Bool
mandatory_of none = false
mandatory_of (some info) = info.mandatory

unfoldable pub to_string : Registry → ℕ → Bytes
unfolding valid
to_string infos code = if not (valid infos code) then [] else name_of (get_elem? infos code)

unfoldable pub description : Registry → ℕ → Bytes
unfolding valid
description infos code =
    if not (valid infos code) then [] else description_of (get_elem? infos code)

unfoldable pub suppressible : Registry → ℕ → Bool
unfolding valid
suppressible infos code = valid infos code && not (mandatory_of (get_elem? infos code))

parse_from : Bytes → ℕ → List Info → Option ℕ
parse_from value index [] = none
parse_from value index (info ∷ rest) =
    let later = parse_from value (index + 1) rest in
    if same info.name value then some (to_code index) else later

unfoldable pub parse : Registry → Bytes → Option ℕ
unfolding parse_from
parse infos value = parse_from value 1 (rest_of infos)

-- none is the error of an invalid code
unfoldable pub marshal_text : Registry → ℕ → Option Bytes
unfolding valid
marshal_text infos code =
    if not (valid infos code) then none else some (name_of (get_elem? infos code))

-- The result is the code that the pointer holds afterwards; none is the error, which leaves it.
unfoldable pub unmarshal_text : Registry → Bytes → Option ℕ
unfolding parse
unmarshal_text infos text = parse infos text

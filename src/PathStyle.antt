-- ===== src/PathStyle.antt =====
-- pathstyle/style.go: the notation in which a path shows array traversal and the event root.
use ocsf_toolkit.Common.{ℕ, ◌++◌, Bool, true, false, Bytes, codes}
use ocsf_toolkit.Common.Decimal.{decimal}

-- Go's `Style` is a string: the five constants, and any other text, which no branch tells apart.
pub data Style : Type 0 where
  simple array_brackets array_wildcard array_indexed json_path unsupported : Style

unfoldable pub valid : Style → Bool
valid unsupported = false
valid _ = true

-- The builder is the text written so far.
unfoldable pub append_array_notation : Style → Bytes → ℕ → Bytes
append_array_notation array_brackets builder index = builder ++ codes "[]"
append_array_notation array_wildcard builder index = builder ++ codes "[*]"
append_array_notation array_indexed builder index =
    builder ++ codes "[" ++ decimal index ++ codes "]"
append_array_notation json_path builder index = builder ++ codes "[" ++ decimal index ++ codes "]"
append_array_notation _ builder index = builder

-- `style == pathstyle.JSONPath` and `style == pathstyle.Simple`
abbrev pub is_json_path : Style → Bool
is_json_path json_path = true
is_json_path _ = false

abbrev pub is_simple : Style → Bool
is_simple simple = true
is_simple _ = false

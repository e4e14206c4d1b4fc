-- ===== src/EventValue/Object.antt =====
-- internal/eventvalue/object.go: null attributes count as absent.
use ocsf_toolkit.Common.{Option, none, some, Bytes, bytes_eq, lookup}
use ocsf_toolkit.EventValue.{Value, Map, null}

abbrev pub present : Option Value → Option Value
present (some null) = none
present o = o

-- The value with its flag: none where the attribute is absent or null.
unfoldable pub get_attribute : Map → Bytes → Option Value
get_attribute item name = present (lookup name item)

-- ===== src/ObservablePath/Print.antt =====
-- The text that the syntax of observable names has for a path.
use ocsf_toolkit.Common.{List, [], ◌∷◌, ◌++◌, Bytes, codes}
use ocsf_toolkit.Common.Decimal.{decimal}
use ocsf_toolkit.ObservablePath.{Selector, brackets, wildcard, index, Segment}

unfoldable pub selector_text : Selector → Bytes
selector_text brackets = []
selector_text wildcard = codes "*"
selector_text (index i) = decimal i

unfoldable pub selectors_text : List Selector → Bytes
unfolding selector_text
selectors_text [] = []
selectors_text (s ∷ rest) = b'[' ∷ (selector_text s ++ b']' ∷ selectors_text rest)

unfoldable pub segment_text : Segment → Bytes
unfolding selectors_text
segment_text s = s.attribute ++ selectors_text s.selectors

unfoldable pub segments_text : List Segment → Bytes
unfolding segment_text
segments_text [] = []
segments_text (s ∷ []) = segment_text s
segments_text (s ∷ (t ∷ rest)) = segment_text s ++ b'.' ∷ segments_text (t ∷ rest)

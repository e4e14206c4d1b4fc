-- ===== src/Tests/Paths.antt =====
-- Sequences and paths beyond the eight inline slots.
use ocsf_toolkit.Common.{ℕ, ◌≤◌, length, ◌≡◌, refl, arith, [], ◌∷◌, ◌++◌, bytes_eq, codes, contains}
use ocsf_toolkit.PathSeq
use ocsf_toolkit.PathSeq.{Sequence}
use ocsf_toolkit.PathSeq.Lists.{drop_last}
use ocsf_toolkit.PathSeq.Refinement.{IsValid, view, push_lem}
use ocsf_toolkit.PathStyle.{array_indexed, json_path}
use ocsf_toolkit.EventPath.{
  attribute, array_index, EventPath, to_string, child_string, sibling_string, has_prior_attribute,
  estimated_rendered_length,
}
use ocsf_toolkit.EventPath.Reference.{reference, replace_last}
use ocsf_toolkit.EventPath.Rendering.{to_string-view}
use ocsf_toolkit.EventPath.LengthBound.{IndexesFit, estimated_rendered_length_lem}
use ocsf_toolkit.EventPath.LastAttribute.{
  sibling_string-view, has_prior_attribute-view, attribute_names,
}

abbrev full : Sequence ℕ
full = record { inline = 1 ∷ 2 ∷ 3 ∷ 4 ∷ 5 ∷ 6 ∷ 7 ∷ 8 ∷ []; overflow = 9 ∷ 0 ∷ []; len = 9 }

full-IsValid : IsValid full
full-IsValid = record { slots = refl; room = omega arith }

push_lem_example :
    IsValid (PathSeq.push full 7) × (view (PathSeq.push full 7) ≡ view full ++ 7 ∷ [])
push_lem_example = push_lem full 7 full-IsValid

abbrev path : EventPath
path = record {
  elements = record {
    inline =
        attribute (codes "actor")
        ∷ attribute (codes "user")
        ∷ attribute (codes "groups")
        ∷ array_index 12
        ∷ attribute (codes "actor")
        ∷ array_index 0
        ∷ attribute []
        ∷ attribute []
        ∷ [];
    overflow = [];
    len = 6;
  };
}

path-IsValid : IsValid path.elements
path-IsValid = record { slots = refl; room = omega arith }

to_string-view_example : to_string path json_path ≡ reference json_path (view path.elements)
to_string-view_example = to_string-view path json_path path-IsValid

sibling_string-view_example :
    sibling_string path (codes "process") array_indexed
    ≡ reference array_indexed (replace_last (codes "process") (view path.elements))
sibling_string-view_example = sibling_string-view path (codes "process") array_indexed path-IsValid

has_prior_attribute-view_example :
    has_prior_attribute path (codes "actor")
    ≡ contains (drop_last (attribute_names (view path.elements))) (codes "actor")
has_prior_attribute-view_example = has_prior_attribute-view path (codes "actor") path-IsValid

indexes_fit : IndexesFit (view path.elements)
indexes_fit = (omega arith, (omega arith, tt))

estimated_rendered_length_lem_example :
    (length (to_string path json_path) ≤ estimated_rendered_length path [])
    × (length (child_string path (codes "uid") json_path)
        ≤ estimated_rendered_length path (codes "uid"))
    × (length (sibling_string path (codes "uid") json_path)
        ≤ estimated_rendered_length path (codes "uid"))
estimated_rendered_length_lem_example =
    estimated_rendered_length_lem path (codes "uid") json_path path-IsValid indexes_fit

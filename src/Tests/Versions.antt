-- ===== src/Tests/Versions.antt =====
-- Versions, type_uids and profiles.
use ocsf_toolkit.Common.{
  [], ◌∷◌, false, none, some, Bytes, bytes_eq, ◌↔◌, ◌≡◌, refl, ◌&&◌, codes, if◌then◌else◌,
}
use ocsf_toolkit.Common.Int.{pos}
use ocsf_toolkit.Semver.{Version, less, equal, parse, compare}
use ocsf_toolkit.Semver.Parsing.{IsText, parse_sound}
use ocsf_toolkit.Semver.Precedence.{flip, compare_total, compare_transitive}
use ocsf_toolkit.Schema.Event.{times_100, add_ℤ, expected_type_uid}
use ocsf_toolkit.Schema.Event.TypeUid.{in_int64, expected_type_uid_lem}
use ocsf_toolkit.Schema.{AttributeDefinition}

abbrev version : Bytes → Version
version prerelease = record {
  major = codes "1";
  minor = codes "8";
  patch = codes "0";
  prerelease = prerelease;
}

parsed : parse (codes "1.8.0-dev.1+b7") ≡ some (version (codes "dev.1"))
unfolding parse
parsed = refl

parse_sound_example : IsText (codes "1.8.0-dev.1+b7") (version (codes "dev.1"))
parse_sound_example = parse_sound (codes "1.8.0-dev.1+b7") (version (codes "dev.1")) parsed

compare_total_example :
    (compare (version []) (version (codes "dev.1"))
      ≡ flip (compare (version (codes "dev.1")) (version [])))
    × ((compare (version (codes "dev.1")) (version []) ≡ equal)
        ↔ (version (codes "dev.1") ≡ version []))
compare_total_example = compare_total (version (codes "dev.1")) (version [])

dev_2-dev_10 : compare (version (codes "dev.2")) (version (codes "dev.10")) ≡ less
unfolding compare
dev_2-dev_10 = refl

dev_10-release : compare (version (codes "dev.10")) (version []) ≡ less
unfolding compare
dev_10-release = refl

compare_transitive_example : compare (version (codes "dev.2")) (version []) ≡ less
compare_transitive_example =
    compare_transitive (version (codes "dev.2")) (version (codes "dev.10")) (version [])
      dev_2-dev_10 dev_10-release

expected_type_uid_lem_example : expected_type_uid (pos 3002) (pos 1) ≡ (
    if in_int64 (times_100 (pos 3002)) && in_int64 (add_ℤ (times_100 (pos 3002)) (pos 1))
    then some (add_ℤ (times_100 (pos 3002)) (pos 1))
    else none)
expected_type_uid_lem_example = expected_type_uid_lem (pos 3002) (pos 1) refl

abbrev cloud : AttributeDefinition
cloud = record {
  type_name = codes "cloud";
  primitive_type = codes "object_t";
  is_array = false;
  enum = none;
  sibling = none;
  object_type = none;
  profiles = codes "cloud" ∷ codes "host" ∷ [];
  observable = none;
  numeric_enums = none;
}

-- ===== src/Tests/Samples.antt =====
-- Concrete data that the tests share.
use ocsf_toolkit.Common.{ℕ, suc, [], ◌∷◌, true, false, Option, none, some, Bytes, codes}
use ocsf_toolkit.Common.Int.{ℤ, pos, negsuc}
use ocsf_toolkit.Common.Decimal.{decimal, atoi}
use ocsf_toolkit.PathStyle.{unsupported}
use ocsf_toolkit.EventPath.{root}
use ocsf_toolkit.EventValue.Scalar.{NumberLibrary}
use ocsf_toolkit.Processing.Context.{Context, IssueSuppression}

abbrev as_pos : Option ℕ → Option ℤ
as_pos none = none
as_pos (some n) = some (pos n)

-- numbers written in digits only
unfoldable pub parse_int : Bytes → Option ℤ
unfolding atoi
parse_int s = as_pos (atoi s)

unfoldable pub format_int : ℤ → Bytes
unfolding decimal
format_int (pos n) = decimal n
format_int (negsuc n) = b'-' ∷ decimal (suc n)

-- a library whose floats are all unusable
unfoldable pub library : NumberLibrary
unfolding parse_int format_int
library = record {
  number_int64 = parse_int;
  number_float64 = λ s. none;
  rational_int64 = λ s. none;
  widen = λ x. x;
  is_nan = λ x. true;
  is_inf = λ x. false;
  is_fraction = λ x. false;
  below_int64 = λ x. false;
  above_int64 = λ x. false;
  truncate = λ x. pos 0;
  is_zero = λ x. false;
  tiny = λ x. false;
  huge = λ x. false;
  tiny32 = λ x. false;
  huge32 = λ x. false;
  write_float = λ format bits x. codes "NaN";
  format_int = format_int;
}

unfoldable pub context : Context
unfolding root
context = record {
  enum_siblings_added = 0;
  enum_siblings_removed = 0;
  enum_siblings_retained = 0;
  observables_removed = 0;
  observables_retained = 0;
  issues = [];
  suppressed_issues = 0;
  traversal_limit_reported = false;
  class_observable_trie = none;
  observables_added = 0;
  observables = [];
  observable_diagnostic_paths = none;
  generated_observables_start = none;
  generated_observables_path_notation = unsupported;
  json_number_style_known = false;
  json_number_uses_float_syntax = false;
  path = root;
}

unfoldable pub nothing_suppressed : IssueSuppression
nothing_suppressed = record { configured = false; codes = none }

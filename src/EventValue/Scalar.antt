-- ===== src/EventValue/Scalar.antt =====
-- internal/eventvalue/scalar.go. What the Go standard library does with numbers is a parameter.
use ocsf_toolkit.Common.{
  ℕ, Bool, true, false, not, ◌&&◌, ◌||◌, Option, none, some, Bytes, codes, contains, nat_eq, same,
  if◌then◌else◌,
}
use ocsf_toolkit.Common.Int.{ℤ, pos, int_eq}
use ocsf_toolkit.EventValue.{Value, boolean, text, int, number, float32, float64}

-- `json.Number`'s methods, `big.Rat` and package math, over float64 bit patterns.
pub record NumberLibrary : Type 0 where
  -- `Number.Int64` and `Number.Float64`; none is their error
  pub number_int64 : Bytes → Option ℤ
  pub number_float64 : Bytes → Option ℕ
  -- `SetString`, then `IsInt`, `Num().IsInt64` and `Num().Int64`; none where one of them fails
  pub rational_int64 : Bytes → Option ℤ
  -- `float64(x)` of a float32
  pub widen : ℕ → ℕ
  -- NaN, an infinity, a fraction, a value below -1<<63 and one from 1<<63 on
  pub is_nan : ℕ → Bool
  pub is_inf : ℕ → Bool
  pub is_fraction : ℕ → Bool
  pub below_int64 : ℕ → Bool
  pub above_int64 : ℕ → Bool
  -- `int64(x)` of a float64
  pub truncate : ℕ → ℤ
  -- x == 0; |x| < 1e-6 and |x| >= 1e21, compared as float64 and as float32
  pub is_zero : ℕ → Bool
  pub tiny : ℕ → Bool
  pub huge : ℕ → Bool
  pub tiny32 : ℕ → Bool
  pub huge32 : ℕ → Bool
  -- `strconv.FormatFloat(x, format, -1, bits)`, the format first
  pub write_float : ℕ → ℕ → ℕ → Bytes
  -- `strconv.FormatInt` at base 10
  pub format_int : ℤ → Bytes

abbrev pub as_boolean : Value → Option Bool
as_boolean (boolean b) = some b
as_boolean _ = none

abbrev pub as_string : Value → Option Bytes
as_string (text s) = some s
as_string _ = none

-- `AsStringAt` of a view whose elements the accessors read, or not
abbrev pub as_string_at : Bool → Value → Option Bytes
as_string_at direct v = if direct then as_string v else none

-- `strings.ContainsAny(s, ".eE")`
unfoldable pub float_syntax : Bytes → Bool
float_syntax s = contains s b'.' || contains s b'e' || contains s b'E'

abbrev pub is_99 : Option ℤ → Bool
is_99 none = false
is_99 (some i) = same i (pos 99)

module _ (lib : NumberLibrary) where
  unfoldable pub integral_float64 : ℕ → Option ℤ
  integral_float64 x =
      if lib.is_nan x || lib.is_inf x || lib.is_fraction x || lib.below_int64 x || lib.above_int64 x
      then none
      else some (lib.truncate x)

  abbrev exact : Bytes → Option ℕ → Option ℤ
  exact s none = none
  exact s (some x) = lib.rational_int64 s

  abbrev or_exact : Bytes → Option ℤ → Option ℤ
  or_exact s (some i) = some i
  or_exact s none = if not (float_syntax s) then none else exact s (lib.number_float64 s)

  unfoldable pub json_number_int64 : Bytes → Option ℤ
  unfolding float_syntax
  json_number_int64 s = or_exact s (lib.number_int64 s)

  unfoldable pub as_integer : Value → Option ℤ
  unfolding json_number_int64 integral_float64
  as_integer (number s) = json_number_int64 s
  as_integer (int i) = some i
  as_integer (float32 x) = integral_float64 (lib.widen x)
  as_integer (float64 x) = integral_float64 x
  as_integer _ = none

  -- `AsIntegerAt` and `AsLongAt`, which are one function
  abbrev pub as_integer_at : Bool → Value → Option ℤ
  as_integer_at direct v = if direct then as_integer v else none

  unfoldable pub format_float : ℕ → ℕ → Bytes
  format_float x bits =
      if not (lib.is_zero x)
        && (same bits 64 && (lib.tiny x || lib.huge x)
            || same bits 32 && (lib.tiny32 x || lib.huge32 x))
      then lib.write_float b'e' bits x
      else lib.write_float b'f' bits x

  unfoldable pub format_scalar : Value → Option Bytes
  unfolding format_float
  format_scalar (text s) = some s
  format_scalar (number s) = some s
  format_scalar (float64 x) = some (format_float x 64)
  format_scalar (float32 x) = some (format_float (lib.widen x) 32)
  format_scalar (int i) = some (lib.format_int i)
  format_scalar (boolean true) = some (codes "true")
  format_scalar (boolean false) = some (codes "false")
  format_scalar _ = none

  unfoldable pub is_other_enum_value : Value → Bool
  unfolding as_integer
  is_other_enum_value value = is_99 (as_integer value)

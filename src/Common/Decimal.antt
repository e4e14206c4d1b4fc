-- ===== src/Common/Decimal.antt =====
-- Decimal text of a number, as package strconv writes and reads it.
use Prim.Native.Nat.{ℕ, zero, suc, ◌+◌, ◌-◌, ◌*◌, ◌/◌, ◌%◌, ◌^◌, ◌≤◌, ◌<◌}
use mathlib.Core.Path.{◌≡◌, refl}
use mathlib.Core.Bool.{Bool, true, ◌&&◌}
use mathlib.Core.Option.{Option, none, some}
use mathlib.Core.List.{[], ◌∷◌}
use native.Mathlib.Omega.{arith}
use ocsf_toolkit.Common.Tests.{ltb, leb, if◌then◌else◌}
use ocsf_toolkit.Common.Lists.{length}
use ocsf_toolkit.Common.Text.{Bytes}

-- `strconv.AppendInt` at base 10 of a number that is not negative; a number has at most as many
-- digits as its value, so the fuel of `decimal` is enough.
digits : ℕ → ℕ → Bytes → Bytes
digits zero n out = out
digits (suc fuel) n out =
    let rest = digits fuel (n / 10) ((48 + n % 10) ∷ out) in
    if ltb n 10 then (48 + n) ∷ out else rest

unfoldable pub decimal : ℕ → Bytes
unfolding digits
decimal n = digits (suc n) n []

abbrev pub is_digit : ℕ → Bool
is_digit c = leb 48 c && leb c 57

abbrev pub all_digits : Bytes → Bool
all_digits [] = true
all_digits (c ∷ s) = is_digit c && all_digits s

-- the number that digits spell behind `n`
abbrev pub digits_value : ℕ → Bytes → ℕ
digits_value n [] = n
digits_value n (c ∷ s) = digits_value (n * 10 + (c - 48)) s

abbrev pub max_int64 : ℕ
max_int64 = 9223372036854775807

-- `strconv.Atoi` on a text of digits, where `int` has 64 bits: it fails when the value is too large.
unfoldable pub atoi : Bytes → Option ℕ
atoi s = let n = digits_value 0 s in if leb n max_int64 then some n else none

value-digits :
    (fuel n : ℕ) (out : Bytes) → n < fuel → digits_value 0 (digits fuel n out) ≡ digits_value n out
unfolding digits
value-digits zero n out h = absurd (omega arith)
value-digits (suc fuel) n out h = ground (arith, value-digits fuel (n / 10) ((48 + n % 10) ∷ out))

all_digits-digits :
    (fuel n : ℕ) (out : Bytes) → all_digits out ≡ true → all_digits (digits fuel n out) ≡ true
unfolding digits
all_digits-digits zero n out h = h
all_digits-digits (suc fuel) n out h =
    ground (arith, all_digits-digits fuel (n / 10) ((48 + n % 10) ∷ out))

tenth : (k n : ℕ) → n < 10 ^ suc k → n / 10 < 10 ^ k
tenth k n h = omega arith

length-digits :
    (k fuel n : ℕ) (out : Bytes) → n < 10 ^ k → 0 < k → length (digits fuel n out) ≤ k + length out
unfolding digits
length-digits k zero n out h p = omega arith
length-digits zero (suc fuel) n out h p = absurd (omega arith)
length-digits (suc zero) (suc fuel) n out h p = ground arith
length-digits (suc (suc k)) (suc fuel) n out h p =
    ground (arith, length-digits (suc k) fuel (n / 10) ((48 + n % 10) ∷ out), tenth (suc k) n h)

pub decimal-digits : (n : ℕ) → all_digits (decimal n) ≡ true
unfolding decimal
decimal-digits n = all_digits-digits (suc n) n [] refl

pub digits_value-decimal : (n : ℕ) → digits_value 0 (decimal n) ≡ n
unfolding decimal
digits_value-decimal n = value-digits (suc n) n [] (omega arith)

-- What is written is read back, up to the largest `int`.
pub atoi-decimal : (n : ℕ) → n ≤ max_int64 → atoi (decimal n) ≡ some n
unfolding atoi
atoi-decimal n h = rw (digits_value-decimal n) (ground arith)

pub length-decimal : (n : ℕ) → n ≤ max_int64 → length (decimal n) ≤ 19
unfolding decimal
length-decimal n h = omega (arith, length-digits 19 (suc n) n [])

longer-digits : (fuel n : ℕ) (out : Bytes) → length out ≤ length (digits fuel n out)
unfolding digits
longer-digits zero n out = omega arith
longer-digits (suc fuel) n out = ground (arith, longer-digits fuel (n / 10) ((48 + n % 10) ∷ out))

-- A number has a digit.
pub decimal-cons : (n : ℕ) → 0 < length (decimal n)
unfolding decimal digits
decimal-cons n = ground (arith, longer-digits n (n / 10) ((48 + n % 10) ∷ []))

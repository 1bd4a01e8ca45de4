-- ===== src/Prelude/Digits.antt =====
-- `str::parse::<i64>`, and that it reads a decimal print with leading zeros back.
use Prim.Native.Nat.{ℕ, zero, suc, ◌+◌, ◌-◌, ◌*◌, ◌/◌, ◌%◌, ◌^◌, ◌≤◌, ◌<◌}
use mathlib.Core.Path.{◌≡◌, refl, ap}
use mathlib.Core.Bool.{Bool, true, false, ◌&&◌}
use mathlib.Core.Option.{Option, none, some}
use mathlib.Core.Logic.{inl, inr}
use mathlib.Core.List.{[], ◌∷◌}
use native.Mathlib.Omega.{arith}
use forgewire_fabric.Prelude.Tests.{leb, ◌==◌, if◌then◌else◌, Bool-cases}
use forgewire_fabric.Prelude.Lists.{length, all}
use forgewire_fabric.Prelude.Strings.{Text, decimal_onto, decimal}
use forgewire_fabric.Prelude.Int.{ℤ, pos, negsuc}

abbrev pub is_digit : ℕ → Bool
is_digit c = leb b'0' c && leb c b'9'

-- The number that the digits stand for, behind the value of those before.
abbrev pub read_digits : ℕ → Text → ℕ
read_digits n [] = n
read_digits n (c ∷ s) = read_digits (n * 10 + (c - b'0')) s

-- A number without sign, up to a bound.
abbrev pub parse_digits : ℕ → Text → Option ℕ
parse_digits bound [] = none
parse_digits bound (c ∷ s) =
    if all is_digit (c ∷ s) && leb (read_digits 0 (c ∷ s)) bound
    then some (read_digits 0 (c ∷ s))
    else none

abbrev to_negative : Option ℕ → Option ℤ
to_negative none = none
to_negative (some zero) = some (pos 0)
to_negative (some (suc n)) = some (negsuc n)

abbrev to_positive : Option ℕ → Option ℤ
to_positive none = none
to_positive (some n) = some (pos n)

abbrev pub parse_i64 : Text → Option ℤ
parse_i64 [] = none
parse_i64 (c ∷ s) =
    if c == b'-'
    then to_negative (parse_digits (2 ^ 63) s)
    else if c == b'+'
    then to_positive (parse_digits (2 ^ 63 - 1) s)
    else to_positive (parse_digits (2 ^ 63 - 1) (c ∷ s))

-- `{:0w}` of a text that is as long as digits are
abbrev zeros : ℕ → Text → Text
zeros zero s = s
zeros (suc n) s = b'0' ∷ zeros n s

abbrev pub pad : ℕ → Text → Text
pad width s = zeros (width - length s) s

-- A text of digits with a value, as a print leaves it.
pub record Prints (n : ℕ) (s : Text) : Type 0 where
  pub digits : all is_digit s ≡ true
  pub value : read_digits 0 s ≡ n
  pub written : 0 < length s

read-decimal_onto :
    (fuel n : ℕ) (s : Text) → n < fuel → read_digits 0 (decimal_onto fuel n s) ≡ read_digits n s
read-decimal_onto zero n s h = ground arith
read-decimal_onto (suc fuel) n s h = elim (Bool-cases (n / 10 == 0)) [
  | inl e ↦ rw (decimal_onto, e) (ap (λ m. read_digits m s) (ground arith))
  | inr e ↦
      rw (decimal_onto, e, read-decimal_onto fuel (n / 10) ((n % 10 + b'0') ∷ s) (ground arith))
        (ap (λ m. read_digits m s) (ground arith))
]

digits-decimal_onto :
    (fuel n : ℕ) (s : Text) → all is_digit s ≡ true → all is_digit (decimal_onto fuel n s) ≡ true
digits-decimal_onto zero n s h = h
digits-decimal_onto (suc fuel) n s h = elim (Bool-cases (n / 10 == 0)) [
  | inl e ↦ rw (decimal_onto, e) (one n s h)
  | inr e ↦
      rw (decimal_onto, e) (digits-decimal_onto fuel (n / 10) ((n % 10 + b'0') ∷ s) (one n s h))
]
  where
    one : (n : ℕ) (s : Text) → all is_digit s ≡ true → all is_digit ((n % 10 + b'0') ∷ s) ≡ true
    one n s h = ground arith

longer : (fuel n : ℕ) (s : Text) → length s ≤ length (decimal_onto fuel n s)
longer zero n s = ground arith
longer (suc fuel) n s = elim (Bool-cases (n / 10 == 0)) [
  | inl e ↦ rw (decimal_onto, e) (omega arith)
  | inr e ↦
      rw (decimal_onto, e) (let more = longer fuel (n / 10) ((n % 10 + b'0') ∷ s) in omega arith)
]

written-decimal : (n : ℕ) → 0 < length (decimal n)
written-decimal n = elim (Bool-cases (n / 10 == 0)) [
  | inl e ↦ rw (decimal, decimal_onto, e) (omega arith)
  | inr e ↦
      rw (decimal, decimal_onto, e)
        (let more = longer n (n / 10) ((n % 10 + b'0') ∷ []) in omega arith)
]

pub decimal-Prints : (n : ℕ) → Prints n (decimal n)
decimal-Prints n = record {
  digits = digits-decimal_onto (suc n) n [] refl;
  value = read-decimal_onto (suc n) n [] (omega arith);
  written = written-decimal n;
}

pub pad-Prints : (width n : ℕ) (s : Text) → Prints n s → Prints n (pad width s)
pad-Prints width n s p = zeros_print (width - length s) n s p
  where
    zeros_print : (k n : ℕ) (s : Text) → Prints n s → Prints n (zeros k s)
    zeros_print zero n s p = p
    zeros_print (suc k) n s p =
        let q = zeros_print k n s p in
        record { digits = ground (arith, q.digits); value = q.value; written = omega arith }

-- What is printed and not empty is read back as it was.
pub parse_i64-Prints : (n : ℕ) (s : Text) → n < 2 ^ 63 → Prints n s → parse_i64 s ≡ some (pos n)
parse_i64-Prints n [] h p = ground (arith, p.written)
parse_i64-Prints n (c ∷ s) h p =
    let m : (c == b'-') ≡ false = ground (arith, p.digits) in
    let q : (c == b'+') ≡ false = ground (arith, p.digits) in
    let v : leb (read_digits 0 (c ∷ s)) (2 ^ 63 - 1) ≡ true = rw (p.value) (ground arith) in
    rw (m, q, p.digits, v, p.value) refl

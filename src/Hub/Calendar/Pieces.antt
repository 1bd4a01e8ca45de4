-- ===== src/Hub/Calendar/Pieces.antt =====
-- crates/fabric-hub/src/auth.rs: the fields of a printed time stamp are read back one by one.
use forgewire_fabric.Prelude.{
  ℕ, ◌+◌, ◌/◌, ◌%◌, ◌^◌, ◌<◌, ◌≡◌, refl, Bool, true, false, not, some, [], ◌∷◌, ◌++◌, arith, Text,
  split, split-append, decimal, ◌==◌, all,
}
use forgewire_fabric.Prelude.Int.{pos}
use forgewire_fabric.Prelude.Digits.{
  is_digit, parse_i64, pad, Prints, decimal-Prints, pad-Prints, parse_i64-Prints,
}
use forgewire_fabric.Hub.Calendar.{
  two_digits, time_text, date_text, split_once, within, seconds, parse_utc_to_epoch,
}
use forgewire_fabric.Hub.Calendar.Loops.{}

split_digits :
    (sep : ℕ) (s : Text) → is_digit sep ≡ false → all is_digit s ≡ true → split sep s ≡ s ∷ []
split_digits sep [] n h = refl
split_digits sep (c ∷ s) n h =
    rw (split_digits sep s n (ground arith)) (ground (arith, other sep c n (ground arith)))
  where
    other : (sep c : ℕ) → is_digit sep ≡ false → is_digit c ≡ true → (c == sep) ≡ false
    other sep c n h = ground arith

-- Three texts of digits between separators are the three pieces.
split_three :
    (sep : ℕ) (a b c : Text)
    → is_digit sep ≡ false
    → all is_digit a ≡ true
    → all is_digit b ≡ true
    → all is_digit c ≡ true
    → split sep (a ++ sep ∷ (b ++ sep ∷ c)) ≡ a ∷ b ∷ c ∷ []
split_three sep a b c n h k l =
    rw
      (
        split-append sep a (b ++ sep ∷ c),
        split-append sep b c,
        split_digits sep a n h,
        split_digits sep b n k,
        split_digits sep c n l,
      )
      refl

-- The first space is the one between two texts if the first has none.
split_once-append :
    (sep : ℕ) (s t : Text)
    → all (λ c. not (c == sep)) s ≡ true
    → split_once sep (s ++ sep ∷ t) ≡ some (s, t)
split_once-append sep [] t h = ground arith
split_once-append sep (c ∷ s) t h = ground (arith, split_once-append sep s t)

all-append : (p : ℕ → Bool) (s t : Text) → all p s ≡ true → all p t ≡ true → all p (s ++ t) ≡ true
all-append p [] t h k = k
all-append p (c ∷ s) t h k = ground (arith, all-append p s t)

digits_not :
    (sep : ℕ) (s : Text)
    → is_digit sep ≡ false
    → all is_digit s ≡ true
    → all (λ c. not (c == sep)) s ≡ true
digits_not sep [] n h = refl
digits_not sep (c ∷ s) n h = ground (arith, digits_not sep s n)

two-Prints : (n : ℕ) → Prints n (two_digits n)
two-Prints n = pad-Prints 2 n (decimal n) (decimal-Prints n)

year-Prints : (n : ℕ) → Prints n (pad 4 (decimal n))
year-Prints n = pad-Prints 4 n (decimal n) (decimal-Prints n)

date_without_space :
    (year : ℕ) (month : ℕ × ℕ) → all (λ c. not (c == b' ')) (date_text year month) ≡ true
date_without_space year month =
    three (pad 4 (decimal year)) (two_digits (month.0 + 1)) (two_digits (month.1 + 1))
      (year-Prints year).digits (two-Prints (month.0 + 1)).digits (two-Prints (month.1 + 1)).digits
  where
    three :
        (a b c : Text)
        → all is_digit a ≡ true
        → all is_digit b ≡ true
        → all is_digit c ≡ true
        → all (λ d. not (d == b' ')) (a ++ b'-' ∷ (b ++ b'-' ∷ c)) ≡ true
    three a b c h k l =
        all-append (λ d. not (d == b' ')) a (b'-' ∷ (b ++ b'-' ∷ c)) (digits_not b' ' a refl h)
          (all-append (λ d. not (d == b' ')) b (b'-' ∷ c) (digits_not b' ' b refl k)
            (digits_not b' ' c refl l))

date_pieces :
    (year : ℕ) (month : ℕ × ℕ)
    → split b'-' (date_text year month)
      ≡ pad 4 (decimal year) ∷ two_digits (month.0 + 1) ∷ two_digits (month.1 + 1) ∷ []
date_pieces year month =
    split_three b'-' (pad 4 (decimal year)) (two_digits (month.0 + 1)) (two_digits (month.1 + 1))
      refl (year-Prints year).digits (two-Prints (month.0 + 1)).digits
      (two-Prints (month.1 + 1)).digits

time_pieces :
    (t : ℕ)
    → split b':' (time_text t)
      ≡ two_digits (t / 3600 % 24) ∷ two_digits (t / 60 % 60) ∷ two_digits (t % 60) ∷ []
time_pieces t =
    split_three b':' (two_digits (t / 3600 % 24)) (two_digits (t / 60 % 60)) (two_digits (t % 60))
      refl (two-Prints (t / 3600 % 24)).digits (two-Prints (t / 60 % 60)).digits
      (two-Prints (t % 60)).digits

parse_two : (n : ℕ) → n < 2 ^ 63 → parse_i64 (two_digits n) ≡ some (pos n)
parse_two n h = parse_i64-Prints n (two_digits n) h (two-Prints n)

month_in : (m : ℕ) → m < 12 → within 1 12 (pos (m + 1)) ≡ true
month_in m h = ground arith

day_in : (d : ℕ) → d < 31 → within 1 31 (pos (d + 1)) ≡ true
day_in d h = ground arith

pub parse_fields :
    (year : ℕ) (month : ℕ × ℕ) (t : ℕ)
    → year < 2 ^ 63
    → month.0 < 12
    → month.1 < 31
    → parse_utc_to_epoch (date_text year month ++ b' ' ∷ time_text t)
      ≡ some (
          seconds
            (pos year)
            (month.0 + 1)
            (month.1 + 1)
            (pos (t / 3600 % 24))
            (pos (t / 60 % 60))
            (pos (t % 60)))
unfolding parse_utc_to_epoch
parse_fields year month t h k l =
    rw
      (
        split_once-append b' ' (date_text year month) (time_text t) (date_without_space year month),
        date_pieces year month,
        time_pieces t,
        parse_i64-Prints year (pad 4 (decimal year)) h (year-Prints year),
        parse_two (month.0 + 1) (ground arith),
        parse_two (month.1 + 1) (ground arith),
        parse_two (t / 3600 % 24) (ground arith),
        parse_two (t / 60 % 60) (ground arith),
        parse_two (t % 60) (ground arith),
      )
      (rw (month_in month.0 k, day_in month.1 l) refl)

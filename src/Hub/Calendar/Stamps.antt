-- ===== src/Hub/Calendar/Stamps.antt =====
-- crates/fabric-hub/src/utils.rs and auth.rs: a time stamp is read back as the time that it was
-- printed of.
use forgewire_fabric.Prelude.{
  ℕ, zero, suc, ◌+◌, ◌-◌, ◌*◌, ◌/◌, ◌%◌, ◌^◌, ◌≤◌, ◌<◌, ◌≡◌, refl, ap, ◌∙◌, some, List, ◌∷◌, ◌++◌,
  arith, take,
}
use forgewire_fabric.Prelude.Int.{pos, ◌+ℤ◌, times_ℤ, wrap_i64}
use forgewire_fabric.Prelude.Digits.{}
use forgewire_fabric.Hub.Calendar.{
  month_days, year_of, month_loop, time_text, date_text, epoch_secs_to_iso, days_of_years, sum,
  seconds, parse_utc_to_epoch,
}
use forgewire_fabric.Hub.Calendar.Loops.{
  year_nonempty, EndsIn, year_loop-EndsIn, FallsIn, month_loop-FallsIn, sum-month_days,
  months_short,
}
use forgewire_fabric.Hub.Calendar.Pieces.{parse_fields}

pub wrap_small : (n : ℕ) → n < 2 ^ 63 → wrap_i64 (pos n) ≡ pos n
wrap_small n h = ground arith

plus_pos : (a b : ℕ) → pos a +ℤ pos b ≡ pos (a + b)
plus_pos a b = ground arith

times_pos : (k n : ℕ) → times_ℤ k (pos n) ≡ pos (k * n)
times_pos k n = ground arith

add_time :
    (d h m s : ℕ)
    → pos d +ℤ times_ℤ 3600 (pos h) +ℤ times_ℤ 60 (pos m) +ℤ pos s ≡ pos (d + 3600 * h + 60 * m + s)
add_time d h m s =
    ap (λ x. pos d +ℤ x +ℤ times_ℤ 60 (pos m) +ℤ pos s) (times_pos 3600 h)
    ∙ (ap (λ x. x +ℤ times_ℤ 60 (pos m) +ℤ pos s) (plus_pos d (3600 * h))
        ∙ (ap (λ x. pos (d + 3600 * h) +ℤ x +ℤ pos s) (times_pos 60 m)
            ∙ (ap (λ x. x +ℤ pos s) (plus_pos (d + 3600 * h) (60 * m))
                ∙ plus_pos (d + 3600 * h + 60 * m) s)))

time_together :
    (t : ℕ) → t / 86400 * 86400 + 3600 * (t / 3600 % 24) + 60 * (t / 60 % 60) + t % 60 ≡ t
time_together t = omega arith

seconds_back :
    (t year : ℕ) (month : ℕ × ℕ)
    → t < 2 ^ 63
    → days_of_years 1970 (year - 1970) + sum (take month.0 (month_days year)) + month.1 ≡ t / 86400
    → seconds
        (pos year)
        (month.0 + 1)
        (month.1 + 1)
        (pos (t / 3600 % 24))
        (pos (t / 60 % 60))
        (pos (t % 60))
      ≡ pos t
seconds_back t year month h e =
    ap wrap_i64 (
      add_time
        ((days_of_years 1970 (year - 1970)
            + sum (take (month.0 + 1 - 1) (month_days year))
            + (month.1 + 1 - 1))
          * 86400)
        (t / 3600 % 24) (t / 60 % 60) (t % 60)
      ∙ ap pos (counted ∙ time_together t))
    ∙ wrap_small t h
  where
    back : (m : ℕ) → m + 1 - 1 ≡ m
    back m = omega arith

    counted :
        (days_of_years 1970 (year - 1970)
              + sum (take (month.0 + 1 - 1) (month_days year))
              + (month.1 + 1 - 1))
            * 86400
          + 3600 * (t / 3600 % 24)
          + 60 * (t / 60 % 60)
          + t % 60
        ≡ t / 86400 * 86400 + 3600 * (t / 3600 % 24) + 60 * (t / 60 % 60) + t % 60
    counted = rw (back month.0, back month.1, e) refl

years_take_days : (year count : ℕ) → count ≤ days_of_years year count
years_take_days year zero = omega arith
years_take_days year (suc count) =
    let more = years_take_days (year + 1) count in let days = year_nonempty year in omega arith

month_back :
    {months : List ℕ} {day : ℕ} {month : ℕ × ℕ} (f : FallsIn months 0 day month) → month.0 ≡ f.past
month_back f = f.reached ∙ omega arith

from_parts :
    (t year day : ℕ) (month : ℕ × ℕ)
    → t < 2 ^ 63
    → EndsIn 1970 (t / 86400) (year, day)
    → FallsIn (month_days year) 0 day month
    → parse_utc_to_epoch (date_text year month ++ b' ' ∷ time_text t) ≡ some (pos t)
from_parts t year day month h ends falls =
    parse_fields year month t in_range (rw (month_back falls) falls.inside) falls.short
    ∙ ap some (seconds_back t year month h counted)
  where
    in_range : year < 2 ^ 63
    in_range =
        let few = years_take_days 1970 ends.count in
        let all = ends.counted in let end = ends.reached in omega arith

    count_back : year - 1970 ≡ ends.count
    count_back = let end = ends.reached in omega arith

    counted :
        days_of_years 1970 (year - 1970) + sum (take month.0 (month_days year)) + month.1
        ≡ t / 86400
    counted =
        rw (count_back, month_back falls)
          (let a = ends.counted in let b = falls.counted in omega arith)

-- A time stamp printed by the hub is read back as the second since 1970 that it was printed of, for
-- every time from 1970 on that an `i64` holds.
pub parse_utc_to_epoch-epoch_secs_to_iso :
    (t : ℕ) → t < 2 ^ 63 → parse_utc_to_epoch (epoch_secs_to_iso t) ≡ some (pos t)
unfolding epoch_secs_to_iso
parse_utc_to_epoch-epoch_secs_to_iso t h =
    let ends = year_loop-EndsIn (t / 86400 + 1) 1970 (t / 86400) (omega arith) in
    let year = year_of t in
    from_parts t year.0 year.1 (month_loop (month_days year.0) 0 year.1) h ends (
      month_loop-FallsIn (month_days year.0) 0 year.1 (months_short year.0)
        (rw (sum-month_days year.0) ends.inside))

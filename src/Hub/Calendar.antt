-- ===== src/Hub/Calendar.antt =====
-- crates/fabric-hub/src/utils.rs and auth.rs: time stamps, printed by the one and read back by the
-- other, and the window in which a step-up counts. The stamps printed are of times since 1970.
pub mod Loops
pub mod Pieces
pub mod Stamps
pub mod Window
use mathlib.Core.Option.{Option}
use forgewire_fabric.Prelude.{
  ℕ, zero, suc, ◌+◌, ◌-◌, ◌*◌, ◌/◌, ◌%◌, Bool, true, false, ◌&&◌, ◌||◌, not, none, some, List, [],
  ◌∷◌, ◌++◌, Text, text, split, decimal, take, get_elem?, ltb, leb, ◌==◌, if◌then◌else◌,
}
use forgewire_fabric.Prelude.Int.{
  ℤ, pos, negsuc, pos_part, leb_ℤ, ◌+ℤ◌, ◌-ℤ◌, times_ℤ, wrap_i64, saturating_times_i64,
}
use forgewire_fabric.Prelude.Digits.{parse_i64, pad}

abbrev pub is_leap : ℕ → Bool
is_leap year = year % 4 == 0 && (not (year % 100 == 0) || year % 400 == 0)

abbrev pub days_in_year : ℕ → ℕ
days_in_year year = if is_leap year then 366 else 365

abbrev pub month_days : ℕ → List ℕ
month_days year =
    31 ∷ (if is_leap year then 29 else 28) ∷ 31 ∷ 30 ∷ 31 ∷ 30 ∷ 31 ∷ 31 ∷ 30 ∷ 31 ∷ 30 ∷ 31 ∷ []

-- The loop over the years, from a year and the days since it began, with fuel.
unfoldable pub year_loop : ℕ → ℕ → ℕ → ℕ × ℕ
year_loop zero year days = (year, days)
year_loop (suc fuel) year days =
    let later = year_loop fuel (year + 1) (days - days_in_year year) in
    if ltb days (days_in_year year) then (year, days) else later

-- The loop over the months, from an index; without a month for the days it leaves month 0.
unfoldable pub month_loop : List ℕ → ℕ → ℕ → ℕ × ℕ
month_loop [] i days = (0, days)
month_loop (m ∷ months) i days =
    let later = month_loop months (i + 1) (days - m) in if ltb days m then (i, days) else later

abbrev pub year_of : ℕ → ℕ × ℕ
year_of total_secs = year_loop (total_secs / 86400 + 1) 1970 (total_secs / 86400)

abbrev two_digits : ℕ → Text
two_digits n = pad 2 (decimal n)

abbrev pub time_text : ℕ → Text
time_text total_secs =
    two_digits (total_secs / 3600 % 24)
    ++ b':' ∷ (two_digits (total_secs / 60 % 60) ++ b':' ∷ two_digits (total_secs % 60))

abbrev pub date_text : ℕ → ℕ × ℕ → Text
date_text year month =
    pad 4 (decimal year) ++ b'-' ∷ (two_digits (month.0 + 1) ++ b'-' ∷ two_digits (month.1 + 1))

unfoldable pub epoch_secs_to_iso : ℕ → Text
unfolding year_loop month_loop
epoch_secs_to_iso total_secs =
    let year = year_of total_secs in
    date_text year.0 (month_loop (month_days year.0) 0 year.1) ++ b' ' ∷ time_text total_secs

infixl 5 ◌>>=◌
abbrev ◌>>=◌ {ℓ κ} : {A : Type ℓ} {B : Type κ} → Option A → (A → Option B) → Option B
none >>= f = none
some a >>= f = f a

-- `s.split_once(sep)`
abbrev pub split_once : ℕ → Text → Option (Text × Text)
split_once sep [] = none
split_once sep (c ∷ s) = elim (c == sep) [
  | true ↦ some ([], s)
  | false ↦ split_once sep s >>= λ p. some (c ∷ p.0, p.1)
]

-- The next piece of a split text, read as an `i64`: `d.next()?.parse().ok()?`.
abbrev pub field_i64 : ℕ → List Text → Option ℤ
field_i64 i pieces = get_elem? pieces i >>= parse_i64

-- Days of the years from one on, of so many of them.
abbrev pub days_of_years : ℕ → ℕ → ℕ
days_of_years year zero = 0
days_of_years year (suc count) = days_in_year year + days_of_years (year + 1) count

abbrev sum : List ℕ → ℕ
sum [] = 0
sum (m ∷ months) = m + sum months

-- A year as far as leap years go, which recur before the year 0 as after it.
abbrev absolute : ℤ → ℕ
absolute (pos n) = n
absolute (negsuc n) = suc n

-- Seconds since 1970 of a date with a month of 1 to 12 and a day from 1 on, and a time.
abbrev pub seconds : ℤ → ℕ → ℕ → ℤ → ℤ → ℤ → ℤ
seconds year month day hour min sec =
    let days =
      days_of_years 1970 (pos_part year - 1970)
      + sum (take (month - 1) (month_days (absolute year)))
      + (day - 1) in
    wrap_i64 (pos (days * 86400) +ℤ times_ℤ 3600 hour +ℤ times_ℤ 60 min +ℤ sec)

abbrev within : ℕ → ℕ → ℤ → Bool
within low high n = leb_ℤ (pos low) n && leb_ℤ n (pos high)

unfoldable pub parse_utc_to_epoch : Text → Option ℤ
parse_utc_to_epoch s = do
  (date, time) ← split_once b' ' s
  year ← field_i64 0 (split b'-' date)
  month ← field_i64 1 (split b'-' date)
  day ← field_i64 2 (split b'-' date)
  hour ← field_i64 0 (split b':' time)
  min ← field_i64 1 (split b':' time)
  sec ← field_i64 2 (split b':' time)
  if within 1 12 month && within 1 31 day
      then some (seconds year (pos_part month) (pos_part day) hour min sec)
      else none

-- `(0..=freshness_minutes.saturating_mul(60)).contains(&elapsed)`, where both stamps can be read
abbrev pub fresh_between : Option ℤ → Option ℤ → ℤ → Bool
fresh_between (some past) (some current) freshness_minutes =
    let elapsed = wrap_i64 (current -ℤ past) in
    leb_ℤ (pos 0) elapsed && leb_ℤ elapsed (saturating_times_i64 60 freshness_minutes)
fresh_between none current freshness_minutes = false
fresh_between (some past) none freshness_minutes = false

unfoldable pub step_up_is_fresh : Text → Text → ℤ → Bool
step_up_is_fresh step_up_at now freshness_minutes =
    fresh_between (parse_utc_to_epoch step_up_at) (parse_utc_to_epoch now) freshness_minutes

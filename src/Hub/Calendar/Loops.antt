-- ===== src/Hub/Calendar/Loops.antt =====
-- crates/fabric-hub/src/utils.rs: where the loops over years and months end.
use forgewire_fabric.Prelude.{
  ℕ, zero, suc, ◌+◌, ◌-◌, ◌<◌, ◌≡◌, refl, ◌∙◌, true, inl, inr, List, [], ◌∷◌, arith, take, ltb, leb,
  length, all, Bool-cases,
}
use forgewire_fabric.Hub.Calendar.{
  is_leap, days_in_year, month_days, year_loop, month_loop, days_of_years, sum,
}

pub year_nonempty : (year : ℕ) → 0 < days_in_year year
year_nonempty year = ground arith

-- The loop over the years has ended in the year that the day falls in.
pub record EndsIn (year days : ℕ) (r : ℕ × ℕ) : Type 0 where
  pub count : ℕ
  pub reached : r.0 ≡ year + count
  pub counted : days_of_years year count + r.1 ≡ days
  pub inside : r.1 < days_in_year r.0

-- With more fuel than the days to be placed, the loop over the years ends where the loop of the source
-- breaks: in a year that the days left fall into, with the years before it counted off in full.
pub year_loop-EndsIn :
    (fuel year days : ℕ) → days < fuel → EndsIn year days (year_loop fuel year days)
unfolding year_loop
year_loop-EndsIn zero year days h = ground arith
year_loop-EndsIn (suc fuel) year days h = elim (Bool-cases (ltb days (days_in_year year))) [
  | inl e ↦
      rw e
        (record { count = 0; reached = omega arith; counted = omega arith; inside = ground arith })
  | inr e ↦
      let more =
        year_loop-EndsIn fuel (year + 1) (days - days_in_year year)
          (ground (arith, year_nonempty year)) in
      rw e (record {
        count = suc more.count;
        reached = more.reached ∙ omega arith;
        counted = ground (arith, more.counted);
        inside = more.inside;
      })
]

pub record FallsIn (months : List ℕ) (i days : ℕ) (r : ℕ × ℕ) : Type 0 where
  pub past : ℕ
  pub reached : r.0 ≡ i + past
  pub counted : sum (take past months) + r.1 ≡ days
  pub inside : past < length months
  pub short : r.1 < 31

pub month_loop-FallsIn :
    (months : List ℕ) (i days : ℕ)
    → all (λ m. leb m 31) months ≡ true
    → days < sum months
    → FallsIn months i days (month_loop months i days)
unfolding month_loop
month_loop-FallsIn [] i days a h = ground arith
month_loop-FallsIn (m ∷ months) i days a h = elim (Bool-cases (ltb days m)) [
  | inl e ↦ rw e (record {
    past = 0;
    reached = omega arith;
    counted = omega arith;
    inside = ground arith;
    short = ground arith;
  })
  | inr e ↦
      let more = month_loop-FallsIn months (i + 1) (days - m) (ground arith) (ground arith) in
      rw e (record {
        past = suc more.past;
        reached = more.reached ∙ omega arith;
        counted = ground (arith, more.counted);
        inside = let k = more.inside in omega arith;
        short = more.short;
      })
]

pub sum-month_days : (year : ℕ) → sum (month_days year) ≡ days_in_year year
sum-month_days year = elim (Bool-cases (is_leap year)) [ inl e ↦ rw e refl | inr e ↦ rw e refl ]

pub months_short : (year : ℕ) → all (λ m. leb m 31) (month_days year) ≡ true
months_short year = elim (Bool-cases (is_leap year)) [ inl e ↦ rw e refl | inr e ↦ rw e refl ]

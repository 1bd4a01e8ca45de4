-- ===== src/Hub/Calendar/Window.antt =====
-- crates/fabric-hub/src/auth.rs: the window in which a step-up counts is one of seconds.
use forgewire_fabric.Prelude.{
  ℕ, ◌+◌, ◌-◌, ◌*◌, ◌^◌, ◌<◌, ◌≡◌, refl, ap, ◌∙◌, ◌&&◌, true, false, inl, inr, arith, ltb, leb,
  Bool-cases, if◌then◌else◌,
}
use forgewire_fabric.Prelude.Int.{pos, negsuc, leb_ℤ, ◌-ℤ◌, wrap_i64, saturating_times_i64}
use forgewire_fabric.Prelude.Digits.{}
use forgewire_fabric.Hub.Calendar.{epoch_secs_to_iso, step_up_is_fresh}
use forgewire_fabric.Hub.Calendar.Loops.{}
use forgewire_fabric.Hub.Calendar.Stamps.{wrap_small, parse_utc_to_epoch-epoch_secs_to_iso}

elapsed_after :
    (past now : ℕ)
    → now < 2 ^ 63
    → leb past now ≡ true
    → wrap_i64 (pos now -ℤ pos past) ≡ pos (now - past)
elapsed_after past now k e = ap wrap_i64 first ∙ wrap_small (now - past) (ground arith)
  where
    first : pos now -ℤ pos past ≡ pos (now - past)
    first = ground arith

elapsed_before :
    (past now : ℕ)
    → past < 2 ^ 63
    → leb past now ≡ false
    → wrap_i64 (pos now -ℤ pos past) ≡ negsuc (past - now - 1)
elapsed_before past now h e = ap wrap_i64 first ∙ wrap_negative (past - now - 1) (ground arith)
  where
    first : pos now -ℤ pos past ≡ negsuc (past - now - 1)
    first = ground arith

    wrap_negative : (n : ℕ) → n < 2 ^ 63 → wrap_i64 (negsuc n) ≡ negsuc n
    wrap_negative n h = ground arith

ends_at :
    (past now minutes : ℕ)
    → now < 2 ^ 63
    → leb past now ≡ true
    → (leb_ℤ (pos 0) (pos (now - past))
        && leb_ℤ
            (pos (now - past))
            (pos (if ltb (60 * minutes) (2 ^ 63) then 60 * minutes else 2 ^ 63 - 1)))
      ≡ (leb past now && leb now (past + 60 * minutes))
ends_at past now minutes k e = ground arith

window :
    (past now minutes : ℕ)
    → past < 2 ^ 63
    → now < 2 ^ 63
    → (leb_ℤ (pos 0) (wrap_i64 (pos now -ℤ pos past))
        && leb_ℤ (wrap_i64 (pos now -ℤ pos past)) (saturating_times_i64 60 (pos minutes)))
      ≡ (leb past now && leb now (past + 60 * minutes))
window past now minutes h k = elim (Bool-cases (leb past now)) [
  | inl e ↦ rw (elapsed_after past now k e, limit) (ends_at past now minutes k e)
  | inr e ↦ rw (elapsed_before past now h e, e, negative (past - now - 1)) refl
]
  where
    negative : (n : ℕ) → leb_ℤ (pos 0) (negsuc n) ≡ false
    negative n = ground arith

    limit :
        saturating_times_i64 60 (pos minutes)
        ≡ pos (if ltb (60 * minutes) (2 ^ 63) then 60 * minutes else 2 ^ 63 - 1)
    limit = ground arith

-- For stamps of two times before the year that an `i64` of seconds ends in, a step-up counts exactly
-- from its second on to the end of the window, both inclusive; a step-up in the future never does.
pub step_up_is_fresh_iff :
    (past now minutes : ℕ)
    → past < 2 ^ 63
    → now < 2 ^ 63
    → step_up_is_fresh (epoch_secs_to_iso past) (epoch_secs_to_iso now) (pos minutes)
      ≡ (leb past now && leb now (past + 60 * minutes))
unfolding step_up_is_fresh
step_up_is_fresh_iff past now minutes h k =
    rw
      (
        step_up_is_fresh,
        parse_utc_to_epoch-epoch_secs_to_iso past h,
        parse_utc_to_epoch-epoch_secs_to_iso now k,
      )
      (window past now minutes h k)

-- ===== src/Hub/Signed/Skew.antt =====
-- crates/fabric-types/src/lib.rs: which time stamps are accepted.
use mathlib.Core.Path.{subst}
use forgewire_fabric.Prelude.{
  ℕ, ◌+◌, ◌-◌, ◌^◌, ◌≤◌, ◌<◌, ◌≡◌, sym, ◌↔◌, ◌⊎◌, refl, inl, inr, arith, iff_trans, if◌then◌else◌,
}
use forgewire_fabric.Prelude.Int.{ℤ, pos, negsuc, difference, pos_part, neg_part, ltb_ℤ, wrap_i64}
use forgewire_fabric.Prelude.Results.{Result, err, okay}
use forgewire_fabric.Hub.Signed.{abs_i64, max_skew, check_timestamp_skew}

-- The distance of two times, as far as it is small.
abbrev distance : ℕ → ℕ → ℤ
distance x y = abs_i64 (wrap_i64 (difference x y))

distance-later : (x y : ℕ) → y ≤ x → x < y + 2 ^ 63 → distance x y ≡ pos (x - y)
distance-later x y h k = ground arith

distance-earlier : (x y : ℕ) → x < y → y < 2 ^ 63 → distance x y ≡ pos (y - x)
distance-earlier x y h k = ground arith

distance-half : (x y : ℕ) → x ≡ y + 2 ^ 63 → distance x y ≡ negsuc (2 ^ 63 - 1)
distance-half x y h = ground arith

distance-more :
    (x y : ℕ) → y + 2 ^ 63 < x → x < y + 2 ^ 63 + 2 ^ 62 + 1 → distance x y ≡ pos (2 ^ 64 - (x - y))
distance-more x y h k = ground arith

abbrev Accepted : ℤ → Type 0
Accepted delta =
    Path (Result ℤ (Unit {0})) (if ltb_ℤ max_skew delta then err delta else okay tt) (okay tt)

abbrev Near : ℕ → ℕ → Type 0
Near x y = ((y ≤ x + 300) × (x ≤ y + 300)) ⊎ (x ≡ 2 ^ 63 + y)

Accepted-iff : (d : ℕ) → Accepted (pos d) ↔ (d ≤ 300)
Accepted-iff d = ground arith

half-Accepted : Accepted (negsuc (2 ^ 63 - 1))
half-Accepted = refl

far :
    (x y : ℕ)
    → x < 2 ^ 63 + 2 ^ 62 + 1
    → (x < y) ⊎ ((y ≤ x) × (x < y + 2 ^ 63)) ⊎ (x ≡ y + 2 ^ 63) ⊎ (y + 2 ^ 63 < x)
far x y h = ground arith

Near-iff : (x y : ℕ) → x < 2 ^ 63 + 2 ^ 62 + 1 → y < 2 ^ 63 → Accepted (distance x y) ↔ Near x y
Near-iff x y h k = elim (far x y h) [
  | inl e ↦
      subst (λ d. Accepted d ↔ Near x y) (sym (distance-earlier x y e k))
        (iff_trans (Accepted-iff (y - x)) (ground arith, ground arith))
  | inr (inl e) ↦
      subst (λ d. Accepted d ↔ Near x y) (sym (distance-later x y e.0 e.1))
        (iff_trans (Accepted-iff (x - y)) (ground arith, ground arith))
  | inr (inr (inl e)) ↦
      subst (λ d. Accepted d ↔ Near x y) (sym (distance-half x y e))
        (λ g. inr (omega arith), λ g. half-Accepted)
  | inr (inr (inr e)) ↦
      subst (λ d. Accepted d ↔ Near x y) (sym (distance-more x y e (omega arith)))
        (iff_trans (Accepted-iff (2 ^ 64 - (x - y))) (ground arith, ground arith))
]

-- At a time from 1970 on, of fewer than 2^62 seconds, a time stamp is accepted exactly if it is at
-- most 300 seconds away, or exactly 2^63 seconds before, a distance that no `i64` holds.
pub check_timestamp_skew_iff :
    (timestamp : ℤ) (now : ℕ)
    → now < 2 ^ 62
    → pos_part timestamp < 2 ^ 63
    → neg_part timestamp ≤ 2 ^ 63
    → (check_timestamp_skew timestamp (pos now) ≡ okay tt) ↔ (
        ((pos_part timestamp ≤ now + neg_part timestamp + 300)
          × (now + neg_part timestamp ≤ pos_part timestamp + 300))
        ⊎ (now + neg_part timestamp ≡ 2 ^ 63 + pos_part timestamp))
unfolding check_timestamp_skew
check_timestamp_skew_iff timestamp now a b c =
    let x = now + neg_part timestamp in
    let p = pos_part timestamp in
    subst (λ y. Accepted (distance x y) ↔ Near x p) (plus_zero p) (Near-iff x p (omega arith) b)
  where
    plus_zero : (p : ℕ) → p ≡ 0 + p
    plus_zero p = omega arith

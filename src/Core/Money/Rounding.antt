-- ===== src/Core/Money/Rounding.antt =====
-- `round_half_up`: nearest integer, ties away from zero, symmetric, monotone.
use recurring_service_platfo.Base.{
  leb, leb→le, Bool-cases, ℕ, zero, suc, ◌+◌, ◌*◌, ◌≤◌, ◌<◌, ◌≡◌, refl, inl, inr, arith,
}
use recurring_service_platfo.Base.Int.{ℤ, pos, negsuc, pos_part, neg_part, magnitude, neg}
use recurring_service_platfo.Core.Money.{half_up, round_half_up}

pub le_of_mul_lt : (a b c : ℕ) → a * c < (b + 1) * c → a ≤ b
le_of_mul_lt a b c h = elim (Bool-cases (leb a b)) [
  | inl e ↦ leb→le a b e
  | inr e ↦
      let gt : b + 1 ≤ a = ground arith in
      let m : (b + 1) * c ≤ a * c = grind arith in absurd (omega arith)
]

pub half_up_bounds :
    (n d : ℕ)
    → 0 < d
    → (half_up n d * (2 * d) ≤ 2 * n + d) × (2 * n + d < (half_up n d + 1) * (2 * d))
unfolding half_up
half_up_bounds n d h = grind arith

pub half_up_unique :
    (n d k : ℕ) → 0 < d → k * (2 * d) ≤ 2 * n + d → 2 * n + d < (k + 1) * (2 * d) → half_up n d ≡ k
half_up_unique n d k h lo hi =
    let (l, u) = half_up_bounds n d h in
    let a : half_up n d ≤ k = le_of_mul_lt (half_up n d) k (2 * d) (omega arith) in
    let b : k ≤ half_up n d = le_of_mul_lt k (half_up n d) (2 * d) (omega arith) in omega arith

pub half_up_exact : (k d : ℕ) → 0 < d → half_up (k * d) d ≡ k
half_up_exact k d h = half_up_unique (k * d) d k h (grind arith) (grind arith)

pub half_up_mono : (m n d : ℕ) → 0 < d → m ≤ n → half_up m d ≤ half_up n d
half_up_mono m n d h le =
    let (l, _) = half_up_bounds m d h in
    let (_, u) = half_up_bounds n d h in
    le_of_mul_lt (half_up m d) (half_up n d) (2 * d) (omega arith)

half_up_zero : (d : ℕ) → half_up 0 d ≡ 0
unfolding half_up
half_up_zero zero = refl
half_up_zero (suc d) = grind arith

pub round_half_up-magnitude :
    (n : ℤ) (d : ℕ) → magnitude (round_half_up n d) ≡ half_up (magnitude n) d
unfolding round_half_up neg
round_half_up-magnitude n d = ground arith

-- Rounding treats both signs alike: the rounded negative of a fraction is the negative of the
-- rounded fraction
pub round_half_up-neg : (n : ℤ) (d : ℕ) → round_half_up (neg n) d ≡ neg (round_half_up n d)
unfolding round_half_up neg
round_half_up-neg (pos zero) d = rw (half_up_zero d)
round_half_up-neg (pos (suc n)) d = ground arith
round_half_up-neg (negsuc n) d = ground arith

-- The rounded value is within half a unit of n / d, as integers times 2d.
pub round_half_up_near :
    (n : ℤ) (d : ℕ)
    → 0 < d
    → (pos_part (round_half_up n d) * (2 * d) + 2 * neg_part n
        ≤ neg_part (round_half_up n d) * (2 * d) + 2 * pos_part n + d)
      × (neg_part (round_half_up n d) * (2 * d) + 2 * pos_part n
          ≤ pos_part (round_half_up n d) * (2 * d) + 2 * neg_part n + d)
unfolding round_half_up neg
round_half_up_near n d h = let (l, u) = half_up_bounds (magnitude n) d h in ground arith

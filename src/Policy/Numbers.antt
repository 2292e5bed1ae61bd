-- ===== src/Policy/Numbers.antt =====
-- Lemmas on the comparison of the numbers in policies.
use patch_quest.Common.{ℕ, ◌≤◌, ◌≡◌, Bool, true, false, arith}
use patch_quest.Policy.{Number, thousandths, unbounded, not_a_number, below}

unfoldable pub is_number : Number → Bool
is_number (thousandths v) = true
is_number unbounded = true
is_number not_a_number = false

-- The one number is at most the other, neither being NaN.
pub data AtMost : Number → Number → Type 0 where
  by_size : {v w : ℕ} → v ≤ w → AtMost (thousandths v) (thousandths w)
  by_bound : {v : ℕ} → AtMost (thousandths v) unbounded
  both_unbounded : AtMost unbounded unbounded

pub AtMost-refl : (v : Number) → is_number v ≡ true → AtMost v v
unfolding is_number
AtMost-refl (thousandths v) h = by_size (omega arith)
AtMost-refl unbounded h = both_unbounded
AtMost-refl not_a_number h = absurd (cc h)

pub AtMost-above :
    (v w : Number) → is_number v ≡ true → is_number w ≡ true → below v w ≡ false → AtMost w v
unfolding is_number below
AtMost-above (thousandths v) (thousandths w) h k n = by_size (ground arith)
AtMost-above (thousandths v) unbounded h k n = absurd (cc n)
AtMost-above (thousandths v) not_a_number h k n = absurd (cc k)
AtMost-above unbounded (thousandths w) h k n = by_bound
AtMost-above unbounded unbounded h k n = both_unbounded
AtMost-above unbounded not_a_number h k n = absurd (cc k)
AtMost-above not_a_number w h k n = absurd (cc h)

pub AtMost-below : (v w u : Number) → below v w ≡ true → AtMost w u → AtMost v u
unfolding below
AtMost-below (thousandths v) w u y (by_size le) = by_size (ground arith)
AtMost-below (thousandths v) w u y by_bound = by_bound
AtMost-below (thousandths v) w u y both_unbounded = by_bound
AtMost-below unbounded w u y le = absurd (cc y)
AtMost-below not_a_number w u y le = absurd (cc y)

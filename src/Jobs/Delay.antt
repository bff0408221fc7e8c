-- ===== src/Jobs/Delay.antt =====
-- The delay before a job is tried again.
use native.Mathlib.Nat.{pow-le-pow_right, mul-le-mul_left, pow-suc}
use wealth_management.Prelude.{ℕ, ◌-◌, ◌+◌, ◌*◌, ◌^◌, ◌≤◌, ◌<◌, ◌≡◌, arith}
use wealth_management.Prelude.Int.{ℤ, pos, ◌≤ℤ◌}
use wealth_management.GoTime.{second}
use wealth_management.Jobs.Queue.{clamped_attempt, backoff}

clamped_attempt_bounds : (a : ℤ) → (1 ≤ clamped_attempt a) × (clamped_attempt a ≤ 7)
clamped_attempt_bounds a = ground arith

clamped_attempt_mono : (a b : ℤ) → a ≤ℤ b → clamped_attempt a ≤ clamped_attempt b
clamped_attempt_mono a b h = ground arith

delay_mono : (m n : ℕ) → m ≤ n → second * 2 ^ m ≤ second * 2 ^ n
delay_mono m n h = mul-le-mul_left second (pow-le-pow_right {n = 2} (omega arith) h)

doubled :
    (n : ℕ)
    → clamped_attempt (pos (n + 2)) ≡ n + 2
    → clamped_attempt (pos (n + 1)) ≡ n + 1
    → backoff (pos (n + 2)) ≡ 2 * backoff (pos (n + 1))
unfolding backoff
doubled n e f = rw (e, f) (ground (arith, pow-suc 2 n))

-- Every delay is between one second and 64 seconds, a later attempt never waits less, and the delay
-- doubles from each of the first six attempts to the next.
pub backoff_bounds :
    (a b : ℤ)
    → (second ≤ backoff a)
      × (backoff a ≤ 64 * second)
      × (a ≤ℤ b → backoff a ≤ backoff b)
      × ((n : ℕ) → n < 6 → backoff (pos (n + 2)) ≡ 2 * backoff (pos (n + 1)))
unfolding backoff
backoff_bounds a b =
    let (low, high) = clamped_attempt_bounds a in
    (
      delay_mono 0 (clamped_attempt a - 1) (omega arith),
      delay_mono (clamped_attempt a - 1) 6 (omega arith),
      λ h.
          delay_mono (clamped_attempt a - 1) (clamped_attempt b - 1)
            (omega (arith, clamped_attempt_mono a b h)),
      λ n h. doubled n (ground arith) (ground arith),
    )

-- ===== src/TimeMath.antt =====
-- The clock arithmetic that the program takes from embeddedMath (timeMath.h) and radioSoC
-- (clock/clockDuration.h), which are not part of the repository: a parameter of the model.

use sleep_sync_agent.Base.{
  Checked, arith, failed, if◌then◌else◌, leb, ok, refl, ℕ, ◌+◌, ◌-◌, ◌<◌, ◌^◌, ◌≡◌, ◌≤◌,
}

pub record TimeMath : Type 0 where
  -- TimeMath::clampedSubtraction(a, b), on DeltaTime
  pub clamped_subtraction : ℕ → ℕ → ℕ
  -- TimeMath::deltaSubtraction(a, b), which asserts that the difference is not negative
  pub delta_subtraction : ℕ → ℕ → Checked ℕ
  -- TimeMath::clampedTimeDifference(later, earlier), from LongTime to DeltaTime; its two
  -- variants that read the clock are calls of it with the time that was read
  pub clamped_time_difference : ℕ → ℕ → ℕ

-- The documented behaviour: a difference of times is positive or zero, and exact where it fits.
pub record TimeLaws (lib : TimeMath) : Type 0 where
  pub clamped_exact : (a b : ℕ) → b ≤ a → lib.clamped_subtraction a b ≡ a - b
  pub clamped_zero : (a b : ℕ) → a < b → lib.clamped_subtraction a b ≡ 0
  pub delta_exact : (a b : ℕ) → b ≤ a → lib.delta_subtraction a b ≡ ok (a - b)
  pub delta_fails : (a b : ℕ) → a < b → lib.delta_subtraction a b ≡ failed
  pub time_exact : (a b : ℕ) → b ≤ a → a < b + 2 ^ 32 → lib.clamped_time_difference a b ≡ a - b
  pub time_zero : (a b : ℕ) → a < b → lib.clamped_time_difference a b ≡ 0

-- A concrete library that has this behaviour.
abbrev pub reference_time : TimeMath
reference_time = record {
  clamped_subtraction = λ a b. a - b;
  delta_subtraction = λ a b. if leb b a then ok (a - b) else failed;
  clamped_time_difference = λ a b. a - b;
}

pub reference_time-TimeLaws : TimeLaws reference_time
reference_time-TimeLaws = record {
  clamped_exact = λ a b h. refl;
  clamped_zero = λ a b h. omega arith;
  delta_exact = λ a b h. ground arith;
  delta_fails = λ a b h. ground arith;
  time_exact = λ a b h k. refl;
  time_zero = λ a b h. omega arith;
}

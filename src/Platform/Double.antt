-- ===== src/Platform/Double.antt =====
-- `f64` and `Duration` as components/endpoint/throttle.rs uses them.
use jackfield.Common.{
  ℕ, suc, ◌+◌, ◌*◌, ◌<◌, ◌≤◌, ◌^◌, ◌≡◌, Bool, true, false, leb, min, Option, none, some,
}

pub record Double : Type 1 where
  -- `f64`; `of_nat` is `u32 as f64` and the literals, which are exact.
  pub Float : Type 0
  pub of_nat : ℕ → Float
  pub fadd : Float → Float → Float
  pub fsub : Float → Float → Float
  pub fmul : Float → Float → Float
  pub fdiv : Float → Float → Float
  pub fmin : Float → Float → Float
  -- `x <= y`
  pub fle : Float → Float → Bool
  -- `Duration::as_secs_f64` of a number of nanoseconds.
  pub as_secs : ℕ → Float
  -- `Duration::from_secs_f64`, in nanoseconds; `none` where it panics.
  pub from_secs : Float → Option ℕ
  -- Whole numbers below 2^53 are exact, and so is what is done with them here.
  pub fle-of_nat : (m n : ℕ) → m < 2 ^ 53 → n < 2 ^ 53 → fle (of_nat m) (of_nat n) ≡ leb m n
  pub fsub-of_nat : (n : ℕ) → n < 2 ^ 53 → fsub (of_nat (suc n)) (of_nat 1) ≡ of_nat n
  pub fsub_zero : (n : ℕ) → n < 2 ^ 53 → fsub (of_nat n) (of_nat 0) ≡ of_nat n
  pub fmin-of_nat :
      (m n : ℕ) → m < 2 ^ 53 → n < 2 ^ 53 → fmin (of_nat m) (of_nat n) ≡ of_nat (min m n)
  pub fadd_zero : (n : ℕ) → n < 2 ^ 53 → fadd (of_nat n) (of_nat 0) ≡ of_nat n
  pub zero_fmul : (n : ℕ) → n < 2 ^ 53 → fmul (of_nat 0) (of_nat n) ≡ of_nat 0
  pub as_secs_zero : as_secs 0 ≡ of_nat 0
  pub as_secs-of_nat : (s : ℕ) → s < 2 ^ 53 → as_secs (s * 1_000_000_000) ≡ of_nat s
  pub fmul-of_nat : (m n : ℕ) → m * n < 2 ^ 53 → fmul (of_nat m) (of_nat n) ≡ of_nat (m * n)
  pub fadd-of_nat : (m n : ℕ) → m + n < 2 ^ 53 → fadd (of_nat m) (of_nat n) ≡ of_nat (m + n)
  -- `min` with a literal is no larger than it: it drops a NaN.
  pub fmin-fle : (x : Float) (n : ℕ) → n < 2 ^ 53 → fle (fmin x (of_nat n)) (of_nat n) ≡ true
  -- A difference is no larger than what 1.0 is taken from.
  pub fsub-fle :
      (x : Float) (n : ℕ)
      → fle (of_nat 1) x ≡ true
      → fle x (of_nat n) ≡ true
      → fle (fsub x (of_nat 1)) (of_nat n) ≡ true
  -- 1.0 / 0.0 is infinite, and no duration.
  pub from_secs_infinite : from_secs (fdiv (of_nat 1) (of_nat 0)) ≡ none
  -- What is missing to 1.0, over another rate, is one.
  pub from_secs_some :
      (x : Float) (n : ℕ)
      → fle (of_nat 0) x ≡ true
      → fle (of_nat 1) x ≡ false
      → 0 < n
      → n < 2 ^ 32
      → (t : ℕ) × (from_secs (fdiv (fsub (of_nat 1) x) (of_nat n)) ≡ some t)
  -- Two nanoseconds after it, which make up for all that is rounded, it is there.
  pub fadd_refilled :
      (x : Float) (n t e : ℕ)
      → fle (of_nat 0) x ≡ true
      → fle (of_nat 1) x ≡ false
      → 0 < n
      → n < 2 ^ 32
      → from_secs (fdiv (fsub (of_nat 1) x) (of_nat n)) ≡ some t
      → t + 2 ≤ e
      → fle (of_nat 1) (fadd x (fmul (as_secs e) (of_nat n))) ≡ true
  -- What is earned, the cap and the spending of 1.0 leave no less than 0.0.
  pub zero_fle-fadd :
      (x : Float) (e n : ℕ)
      → fle (of_nat 0) x ≡ true
      → n < 2 ^ 32
      → fle (of_nat 0) (fadd x (fmul (as_secs e) (of_nat n))) ≡ true
  pub fle-fmin :
      (x : Float) (m n : ℕ)
      → m ≤ n
      → n < 2 ^ 53
      → fle (of_nat m) x ≡ true
      → fle (of_nat m) (fmin x (of_nat n)) ≡ true
  pub zero_fle-fsub :
      (x : Float) → fle (of_nat 1) x ≡ true → fle (of_nat 0) (fsub x (of_nat 1)) ≡ true

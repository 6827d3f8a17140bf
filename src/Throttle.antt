-- ===== src/Throttle.antt =====
-- components/endpoint/throttle.rs: the token bucket. Times are numbers of nanoseconds.
pub mod Burst
pub mod Rate
pub mod Refill
use jackfield.Common.{ℕ, ◌-◌, Bool, true, false, Option, none, some, if◌then◌else◌}
use jackfield.Platform.Double.{Double}

pub record Throttle : Type 0 where
  pub rate : ℕ
  pub burst : ℕ

module _ ⦃d : Double⦄ where
  pub record TokenBucket : Type 0 where
    pub capacity : d.Float
    pub tokens : d.Float
    pub rate : d.Float
    pub last_refill : ℕ

  -- `TokenBucket::new`, at the time now.
  unfoldable pub new : ℕ → ℕ → ℕ → TokenBucket
  new now rate_per_sec burst = record {
    capacity = d.of_nat burst;
    tokens = d.of_nat burst;
    rate = d.of_nat rate_per_sec;
    last_refill = now;
  }

  -- `duration_since` is zero where the earlier time is later.
  unfoldable pub refill : ℕ → TokenBucket → TokenBucket
  refill now b =
      let elapsed = d.as_secs (now - b.last_refill) in
      record b {
        tokens = d.fmin (d.fadd b.tokens (d.fmul elapsed b.rate)) b.capacity;
        last_refill = now;
      }

  -- What `try_acquire` returns; `from_secs_f64` panics on what is no duration.
  pub data Acquired : Type 0 where
    granted : Acquired
    wait : ℕ → Acquired
    panicked : Acquired

  abbrev pub wait_of : Option ℕ → Acquired
  wait_of none = panicked
  wait_of (some t) = wait t

  unfoldable pub try_acquire : ℕ → TokenBucket → Acquired × TokenBucket
  unfolding refill
  try_acquire now b =
      let b' = refill now b in
      if d.fle (d.of_nat 1) b'.tokens
      then (granted, record b' { tokens = d.fsub b'.tokens (d.of_nat 1) })
      else (wait_of (d.from_secs (d.fdiv (d.fsub (d.of_nat 1) b'.tokens) b'.rate)), b')

-- ===== src/Throttle/Refill.antt =====
-- components/endpoint/throttle.rs: a token bucket at any time, with any number of tokens.
use jackfield.Common.{
  ℕ, ◌+◌, ◌-◌, ◌<◌, ◌≤◌, ◌^◌, ◌≡◌, refl, ap, ◌∙◌, Bool, true, false, Option, some, arith,
}
use jackfield.Platform.Double.{Double}
use jackfield.Throttle.{TokenBucket, refill, try_acquire, granted, wait, wait_of}

module _ ⦃d : Double⦄ where
  abbrev pub has_token : TokenBucket → Bool
  has_token b = d.fle (d.of_nat 1) b.tokens

  abbrev pub spend : TokenBucket → TokenBucket
  spend b = record b { tokens = d.fsub b.tokens (d.of_nat 1) }

  -- The wait for what is missing to a token, at a rate.
  abbrev pub rest_time : ℕ → TokenBucket → Option ℕ
  rest_time rate b = d.from_secs (d.fdiv (d.fsub (d.of_nat 1) b.tokens) (d.of_nat rate))

  -- A bucket made with a rate and a burst, whatever it has given since.
  pub record IsMade (rate burst : ℕ) (b : TokenBucket) : Type 0 where
    pub capped : b.capacity ≡ d.of_nat burst
    pub runs : b.rate ≡ d.of_nat rate
    pub stocked : d.fle (d.of_nat 0) b.tokens ≡ true

  module _ (rate burst : ℕ) (small : burst < 2 ^ 32) (slow : rate < 2 ^ 32) where
    pub refill-IsMade :
        (now : ℕ) (b : TokenBucket) → IsMade rate burst b → IsMade rate burst (refill now b)
    unfolding refill
    refill-IsMade now b h =
        let earned = d.zero_fle-fadd b.tokens (now - b.last_refill) rate h.stocked slow in
        record {
          capped = h.capped;
          runs = h.runs;
          stocked = rw (h.capped, h.runs) (d.fle-fmin _ 0 burst (omega arith) (omega arith) earned);
        }

    pub spend-IsMade :
        (b : TokenBucket) → IsMade rate burst b → has_token b ≡ true → IsMade rate burst (spend b)
    spend-IsMade b h enough = record {
      capped = h.capped;
      runs = h.runs;
      stocked = d.zero_fle-fsub b.tokens enough;
    }

    -- A call at a later time than the wait that a refused call was told is granted.
    pub has_token-refill :
        (t later : ℕ) (b : TokenBucket)
        → 0 < rate
        → 0 < burst
        → IsMade rate burst b
        → has_token b ≡ false
        → rest_time rate b ≡ some t
        → b.last_refill + t + 2 ≤ later
        → has_token (refill later b) ≡ true
    unfolding refill
    has_token-refill t later b moves holds h short told late =
        let earned =
          d.fadd_refilled b.tokens rate t (later - b.last_refill) h.stocked short moves slow told
            (omega arith) in
        rw (h.capped, h.runs) (d.fle-fmin _ 1 burst (omega arith) (omega arith) earned)

    pub rest_time-some :
        (b : TokenBucket)
        → 0 < rate
        → IsMade rate burst b
        → has_token b ≡ false
        → (t : ℕ) × (rest_time rate b ≡ some t)
    rest_time-some b moves h short = d.from_secs_some b.tokens rate h.stocked short moves slow

    pub try_acquire_lacks :
        (now t : ℕ) (b : TokenBucket)
        → IsMade rate burst b
        → has_token (refill now b) ≡ false
        → rest_time rate (refill now b) ≡ some t
        → try_acquire now b ≡ (wait t, refill now b)
    unfolding try_acquire
    try_acquire_lacks now t b h short told =
        let b' = refill now b in
        let missing = d.fsub (d.of_nat 1) b'.tokens in
        let told' = ap (λ r. d.from_secs (d.fdiv missing r)) (refill-IsMade now b h).runs ∙ told in
        rw (try_acquire, short) (ap (λ o. (wait_of o, b')) told')

  pub try_acquire_has :
      (now : ℕ) (b : TokenBucket)
      → has_token (refill now b) ≡ true
      → try_acquire now b ≡ (granted, spend (refill now b))
  unfolding try_acquire
  try_acquire_has now b enough = rw (try_acquire, enough) refl

  pub last_refill-refill : (now : ℕ) (b : TokenBucket) → (refill now b).last_refill ≡ now
  unfolding refill
  last_refill-refill now b = refl

-- ===== src/Producer/Waiting.antt =====
-- components/router/envelope.rs with components/endpoint/throttle.rs: a send that waits for a token.
use jackfield.Common.{
  ℕ, suc, ◌+◌, ◌≤◌, ◌<◌, ◌^◌, ◌≡◌, refl, sym, ap, ◌∙◌, subst, true, false, some, Bool-cases, ◌⊎◌,
  inl, inr, arith,
}
use jackfield.Platform.{Platform}
use jackfield.Platform.Double.{Double}
use jackfield.Message.{Message}
use jackfield.Throttle.{TokenBucket, Acquired, refill, try_acquire, granted, wait, panicked}
use jackfield.Throttle.Burst.{is_granted}
use jackfield.Throttle.Refill.{
  has_token, spend, rest_time, IsMade, refill-IsMade, spend-IsMade, has_token-refill,
  rest_time-some, try_acquire_lacks, try_acquire_has, last_refill-refill,
}
use jackfield.Producer.{
  Bucket, Runtime, ProducerHandle, Waited, done, panic, wait_for_token, make_send, sent_or_closed,
}
use jackfield.Producer.Registered.{wait_for_token_granted}

module _ ⦃p : Platform⦄ ⦃d : Double⦄ {S : Type 0} where
  -- A bucket is a place of its own in the world; a sleep ends two nanoseconds or more after the time
  -- asked for, and no other clone of the handle asks the bucket during it.
  pub record IsTimed (rt : Runtime S) (bucket : Bucket S) : Type 0 where
    pub get-put : (b : TokenBucket) (s : S) → bucket.get (bucket.put b s) ≡ b
    pub now-put : (b : TokenBucket) (s : S) → rt.now (bucket.put b s) ≡ rt.now s
    pub get-sleep : (t : ℕ) (s : S) → bucket.get (rt.sleep t s) ≡ bucket.get s
    pub now-sleep : (t : ℕ) (s : S) → rt.now s + t + 2 ≤ rt.now (rt.sleep t s)

  wait_for_token_wait :
      (rt : Runtime S) (bucket : Bucket S) (fuel t : ℕ) (s : S)
      → let (answer, b) = try_acquire (rt.now s) (bucket.get s) in
        answer ≡ wait t
        → wait_for_token rt (some bucket) (suc fuel) s
          ≡ wait_for_token rt (some bucket) fuel (rt.sleep t (bucket.put b s))
  unfolding wait_for_token
  wait_for_token_wait rt bucket fuel t s h =
      let (answer, b) = try_acquire (rt.now s) (bucket.get s) in
      ap
        (λ a. elim a as (λ x. Waited S S) [
          | granted ↦ done (bucket.put b s)
          | wait t ↦ wait_for_token rt (some bucket) fuel (rt.sleep t (bucket.put b s))
          | panicked ↦ panic (bucket.put b s)
        ])
        h

  make_send_done :
      (rt : Runtime S) (h : ProducerHandle S) (bucket : Bucket S) (fuel : ℕ) (msg : Message)
      (s s' : S)
      → wait_for_token rt (some bucket) fuel s ≡ done s'
      → make_send rt (record h { throttle = some bucket }) fuel msg s
        ≡ done (sent_or_closed (h.sender.send (record { origin = h.origin; message = msg }) s'))
  unfolding make_send wait_for_token
  make_send_done rt h bucket fuel msg s s' got = rw (make_send, got) refl

  module _ (rt : Runtime S) (bucket : Bucket S) (rate : ℕ) where
    -- The bucket, filled up to now.
    abbrev pub filled : S → TokenBucket
    unfolding refill
    filled s = refill (rt.now s) (bucket.get s)

    abbrev pub take_token : S → S
    take_token s = bucket.put (spend (filled s)) s

    -- The sleep that a refused try asks for, from then on.
    abbrev pub slept : ℕ → S → S
    slept t s = rt.sleep t (bucket.put (filled s) s)

    -- Either there is a token, and it is taken at once, or there is one after one sleep, for the time
    -- in which what is missing is earned.
    abbrev pub Served : S → S → Type 0
    Served s s' =
        ((has_token (filled s) ≡ true) × (s' ≡ take_token s))
        ⊎ ((has_token (filled s) ≡ false)
            × (t : ℕ) × (rest_time rate (filled s) ≡ some t)
            × (s' ≡ take_token (slept t s)))

  module _ (rt : Runtime S) (bucket : Bucket S) (timed : IsTimed rt bucket) (rate burst : ℕ)
      (small : burst < 2 ^ 32) (slow : rate < 2 ^ 32) (moves : 0 < rate) (holds : 0 < burst) where
    granted_at :
        (fuel : ℕ) (s : S)
        → has_token (filled rt bucket rate s) ≡ true
        → wait_for_token rt (some bucket) (suc fuel) s ≡ done (take_token rt bucket rate s)
    unfolding filled take_token
    granted_at fuel s enough =
        let answer = try_acquire_has (rt.now s) (bucket.get s) enough in
        wait_for_token_granted rt bucket fuel s
          (ap (λ (x : Acquired × TokenBucket). is_granted x.0) answer)
        ∙ ap (λ (x : Acquired × TokenBucket). done (bucket.put x.1 s)) answer

    take_token-IsMade :
        (s : S)
        → IsMade rate burst (bucket.get s)
        → has_token (filled rt bucket rate s) ≡ true
        → IsMade rate burst (bucket.get (take_token rt bucket rate s))
    unfolding filled take_token
    take_token-IsMade s h enough =
        subst (λ b. IsMade rate burst b) (sym (timed.get-put (spend (filled rt bucket rate s)) s))
          (spend-IsMade rate burst small slow (filled rt bucket rate s)
            (refill-IsMade rate burst small slow (rt.now s) (bucket.get s) h) enough)

    get-slept : (t : ℕ) (s : S) → bucket.get (slept rt bucket rate t s) ≡ filled rt bucket rate s
    unfolding filled slept
    get-slept t s = timed.get-sleep t _ ∙ timed.get-put (filled rt bucket rate s) s

    slept-has_token :
        (t : ℕ) (s : S)
        → IsMade rate burst (bucket.get s)
        → has_token (filled rt bucket rate s) ≡ false
        → rest_time rate (filled rt bucket rate s) ≡ some t
        → has_token (filled rt bucket rate (slept rt bucket rate t s)) ≡ true
    unfolding filled slept
    slept-has_token t s h short told =
        let b = filled rt bucket rate s in
        let late : b.last_refill + t + 2 ≤ rt.now (slept rt bucket rate t s) = omega (
          arith,
          timed.now-sleep t (bucket.put b s),
          timed.now-put b s,
          last_refill-refill (rt.now s) (bucket.get s),
        ) in
        subst (λ x. has_token (refill (rt.now (slept rt bucket rate t s)) x) ≡ true)
          (sym (get-slept t s))
          (has_token-refill rate burst small slow t (rt.now (slept rt bucket rate t s)) b moves
            holds (refill-IsMade rate burst small slow (rt.now s) (bucket.get s) h) short told late)

    wait_for_token-Served :
        (fuel : ℕ) (s : S)
        → IsMade rate burst (bucket.get s)
        → (s' : S) × (wait_for_token rt (some bucket) (suc (suc fuel)) s ≡ done s')
          × Served rt bucket rate s s'
          × IsMade rate burst (bucket.get s')
    unfolding filled take_token slept
    wait_for_token-Served fuel s h = elim (Bool-cases (has_token (filled rt bucket rate s))) [
      | inl enough ↦ (
        take_token rt bucket rate s,
        granted_at (suc fuel) s enough,
        inl (enough, refl),
        take_token-IsMade s h enough,
      )
      | inr short ↦
          let made = refill-IsMade rate burst small slow (rt.now s) (bucket.get s) h in
          let (t, told) =
            rest_time-some rate burst small slow (filled rt bucket rate s) moves made short in
          let answer =
            try_acquire_lacks rate burst small slow (rt.now s) t (bucket.get s) h short told in
          let enough = slept-has_token t s h short told in
          (
            take_token rt bucket rate (slept rt bucket rate t s),
            wait_for_token_wait rt bucket (suc fuel) t s
                  (ap (λ (x : Acquired × TokenBucket). x.0) answer)
                ∙ ap
                    (λ (x : Acquired × TokenBucket).
                      wait_for_token rt (some bucket) (suc fuel) (rt.sleep t (bucket.put x.1 s)))
                    answer
                ∙ granted_at fuel (slept rt bucket rate t s) enough,
            inr (short, t, told, refl),
            take_token-IsMade (slept rt bucket rate t s)
                (subst (λ b. IsMade rate burst b) (sym (get-slept t s)) made) enough,
          )
    ]

    -- Where a sleep ends two nanoseconds or more after the time asked for, and no other clone of the
    -- handle asks the bucket during it, a send through a throttled handle gets its token within two
    -- tries, if the rate and the burst are at least 1, whatever number of tokens the bucket holds (none
    -- negative): at once, if it then has one, or else after one sleep for the time in which the rate
    -- earns what is missing to one. It puts its envelope into the channel, and leaves a bucket of the
    -- same rate and burst, with no negative number of tokens.
    pub make_send_ends :
        (h : ProducerHandle S) (fuel : ℕ) (msg : Message) (s : S)
        → IsMade rate burst (bucket.get s)
        → (s' : S) × (make_send rt (record h { throttle = some bucket }) (suc (suc fuel)) msg s
            ≡ done
                (sent_or_closed (h.sender.send (record { origin = h.origin; message = msg }) s')))
          × Served rt bucket rate s s'
          × IsMade rate burst (bucket.get s')
    make_send_ends h fuel msg s made =
        let (s', ends, served, made') = wait_for_token-Served fuel s made in
        (s', make_send_done rt h bucket (suc (suc fuel)) msg s s' ends, served, made')

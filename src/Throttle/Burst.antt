-- ===== src/Throttle/Burst.antt =====
-- components/endpoint/throttle.rs: what a token bucket grants at once, and what it never exceeds.
use jackfield.Common.{
  ℕ, zero, suc, ◌-◌, ◌<◌, ◌^◌, ◌≡◌, refl, inl, inr, Bool, true, false, Bool-cases, min, leb, arith,
  if◌then◌else◌, List, [], ◌∷◌, Option, none, some, ap, ◌∙◌, subst,
}
use jackfield.Platform.Double.{Double}
use jackfield.Throttle.{
  TokenBucket, new, refill, try_acquire, Acquired, granted, wait, panicked, wait_of,
}

module _ ⦃d : Double⦄ where
  abbrev pub is_granted : Acquired → Bool
  is_granted granted = true
  is_granted (wait t) = false
  is_granted panicked = false

  -- How many of so many calls, all at one time, are granted.
  abbrev pub grants : ℕ → ℕ → TokenBucket → ℕ
  grants zero now b = 0
  grants (suc n) now b =
      let (answer, b') = try_acquire now b in
      let later = grants n now b' in if is_granted answer then suc later else later

  -- A bucket of whole tokens, filled at the time now.
  abbrev pub Holds : ℕ → ℕ → ℕ → ℕ → TokenBucket → Type 0
  Holds now k rate burst b =
      (b.tokens ≡ d.of_nat k)
      × (b.capacity ≡ d.of_nat burst)
      × (b.rate ≡ d.of_nat rate)
      × (b.last_refill ≡ now)

  refill-Holds :
      (now k rate burst : ℕ) (b : TokenBucket)
      → k < suc burst
      → burst < 2 ^ 32
      → rate < 2 ^ 32
      → Holds now k rate burst b
      → Holds now k rate burst (refill now b)
  unfolding refill
  refill-Holds now k rate burst b le small slow (t, c, r, l) =
      let still : now - b.last_refill ≡ 0 = omega (arith, l) in
      let full : min k burst ≡ k = omega arith in
      (
        rw (
          t,
          c,
          r,
          still,
          d.as_secs_zero,
          d.zero_fmul rate (omega arith),
          d.fadd_zero k (omega arith),
          d.fmin-of_nat k burst (omega arith) (omega arith),
          full,
        ),
        c,
        r,
        refl,
      )

  -- A token is granted while there is one,
  acquire_granted :
      (now k rate burst : ℕ) (b : TokenBucket)
      → k < burst
      → burst < 2 ^ 32
      → rate < 2 ^ 32
      → Holds now (suc k) rate burst b
      → (is_granted (try_acquire now b).0 ≡ true) × Holds now k rate burst (try_acquire now b).1
  unfolding try_acquire
  acquire_granted now k rate burst b lt small slow h =
      let (t, c, r, l) = refill-Holds now (suc k) rate burst b (omega arith) small slow h in
      let room : leb 1 (suc k) ≡ true = ground arith in
      let test = d.fle-of_nat 1 (suc k) (omega arith) (omega arith) in
      rw (t, test, room) (refl, (d.fsub-of_nat k (omega arith), c, r, refl))

  -- and else the answer is a time to wait.
  acquire_refused :
      (now rate burst : ℕ) (b : TokenBucket)
      → burst < 2 ^ 32
      → rate < 2 ^ 32
      → Holds now 0 rate burst b
      → ((try_acquire now b).0
          ≡ wait_of (d.from_secs (d.fdiv (d.fsub (d.of_nat 1) (d.of_nat 0)) (d.of_nat rate))))
        × Holds now 0 rate burst (try_acquire now b).1
  unfolding try_acquire
  acquire_refused now rate burst b small slow h =
      let (t, c, r, l) = refill-Holds now 0 rate burst b (omega arith) small slow h in
      let test = d.fle-of_nat 1 0 (omega arith) (omega arith) in
      rw (t, test, r) (refl, (refl, c, refl, refl))

  Holds-at :
      {now j k rate burst : ℕ} {b : TokenBucket}
      → j ≡ k
      → Holds now j rate burst b
      → Holds now k rate burst b
  Holds-at {now} {j} {k} {rate} {burst} {b} e h = subst (λ i. Holds now i rate burst b) e h

  -- The bucket after so many calls at one time.
  abbrev pub drained : ℕ → ℕ → TokenBucket → TokenBucket
  drained zero now b = b
  drained (suc n) now b = drained n now (try_acquire now b).1

  pub refused_wait : (t : Option ℕ) → is_granted (wait_of t) ≡ false
  refused_wait none = refl
  refused_wait (some t) = refl

  grants_lem :
      (n now k rate burst : ℕ) (b : TokenBucket)
      → k < suc burst
      → burst < 2 ^ 32
      → rate < 2 ^ 32
      → Holds now k rate burst b
      → (grants n now b ≡ min n k) × Holds now (k - n) rate burst (drained n now b)
  grants_lem zero now k rate burst b le small slow h = (omega arith, Holds-at (omega arith) h)
  grants_lem (suc n) now zero rate burst b le small slow h =
      let (answer, h') = acquire_refused now rate burst b small slow h in
      let (count, left) = grants_lem n now 0 rate burst (try_acquire now b).1 le small slow h' in
      let refused = ap is_granted answer ∙ refused_wait _ in
      (rw refused (count ∙ omega arith), Holds-at (omega arith) left)
  grants_lem (suc n) now (suc k) rate burst b le small slow h =
      let (answer, h') = acquire_granted now k rate burst b (omega arith) small slow h in
      let (count, left) =
        grants_lem n now k rate burst (try_acquire now b).1 (omega arith) small slow h' in
      (rw answer (ap suc count ∙ omega arith), Holds-at (omega arith) left)

  pub new-Holds : (now rate burst : ℕ) → Holds now burst rate burst (new now rate burst)
  unfolding new
  new-Holds now rate burst = (refl, refl, refl, refl)

  -- While the clock stands still, a new bucket grants as many calls as its burst, and no more.
  pub grants-new :
      (n now rate burst : ℕ)
      → burst < 2 ^ 32
      → rate < 2 ^ 32
      → grants n now (new now rate burst) ≡ min n burst
  grants-new n now rate burst small slow =
      (grants_lem n now burst rate burst (new now rate burst) (omega arith) small slow
        (new-Holds now rate burst)).0

  -- With the rate 0 the call after the burst panics: its waiting time would be infinite.
  pub rate_zero_panics :
      (now burst : ℕ)
      → burst < 2 ^ 32
      → (try_acquire now (drained burst now (new now 0 burst))).0 ≡ panicked
  rate_zero_panics now burst small =
      let start = new now 0 burst in
      let (count, left) =
        grants_lem burst now burst 0 burst start (omega arith) small (omega arith)
          (new-Holds now 0 burst) in
      let empty = Holds-at {k = 0} (omega arith) left in
      let (answer, h) =
        acquire_refused now 0 burst (drained burst now start) small (omega arith) empty in
      answer
      ∙ ap wait_of (
          ap d.from_secs (ap (λ x. d.fdiv x (d.of_nat 0)) (d.fsub_zero 1 (omega arith)))
          ∙ d.from_secs_infinite)

  -- The bucket after calls at the given times.
  abbrev pub acquire_all : List ℕ → TokenBucket → TokenBucket
  acquire_all [] b = b
  acquire_all (now ∷ times) b = acquire_all times (try_acquire now b).1

  abbrev pub IsCapped : ℕ → ℕ → TokenBucket → Type 0
  IsCapped rate burst b =
      (b.capacity ≡ d.of_nat burst)
      × (d.fle b.tokens (d.of_nat burst) ≡ true)
      × (b.rate ≡ d.of_nat rate)

  try_acquire-IsCapped :
      (now rate burst : ℕ) (b : TokenBucket)
      → burst < 2 ^ 32
      → IsCapped rate burst b
      → IsCapped rate burst (try_acquire now b).1
  unfolding try_acquire refill
  try_acquire-IsCapped now rate burst b small (c, t, r) =
      let sum = d.fadd b.tokens (d.fmul (d.as_secs (now - b.last_refill)) b.rate) in
      let capped = d.fmin-fle sum burst (omega arith) in
      elim (Bool-cases (d.fle (d.of_nat 1) (refill now b).tokens)) [
        | inl enough ↦ rw (enough, c) (refl, d.fsub-fle _ burst (rw c at enough) capped, r)
        | inr short ↦ rw (short, c) (refl, capped, r)
      ]

  -- A bucket holds at most its burst of tokens, whenever and however often it was asked, also at
  -- times that run backwards, and its capacity and rate stay those that it was made with.
  pub acquire_all-IsCapped :
      (times : List ℕ) (now rate burst : ℕ)
      → burst < 2 ^ 32
      → IsCapped rate burst (acquire_all times (new now rate burst))
  unfolding new
  acquire_all-IsCapped times now rate burst small =
      let full = d.fle-of_nat burst burst (omega arith) (omega arith) in
      go times (new now rate burst) (refl, full ∙ ground arith, refl)
    where
      go :
          (times : List ℕ) (b : TokenBucket)
          → IsCapped rate burst b
          → IsCapped rate burst (acquire_all times b)
      go [] b h = h
      go (t ∷ ts) b h = go ts (try_acquire t b).1 (try_acquire-IsCapped t rate burst b small h)

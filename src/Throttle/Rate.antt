-- ===== src/Throttle/Rate.antt =====
-- components/endpoint/throttle.rs: a token bucket asked at whole seconds, beside one that counts.
use native.Mathlib.Nat.{mul-le-mul}
use jackfield.Common.{
  ℕ, zero, suc, ◌+◌, ◌-◌, ◌*◌, ◌<◌, ◌≤◌, ◌^◌, ◌≡◌, refl, Bool, true, false, min, leb, arith, List,
  [], ◌∷◌, ◌∙◌,
}
use jackfield.Platform.Double.{Double}
use jackfield.Throttle.{TokenBucket, new, refill, try_acquire}
use jackfield.Throttle.Burst.{is_granted, Holds, new-Holds, refused_wait}

abbrev pub total : List ℕ → ℕ
total [] = 0
total (gap ∷ gaps) = gap + total gaps

-- The bucket that counts, in whole numbers: what it answers to calls so many seconds apart.
abbrev pub counting : (rate burst : ℕ) → List ℕ → ℕ → List Bool
counting rate burst [] k = []
counting rate burst (gap ∷ gaps) k =
    let filled = min (k + gap * rate) burst in leb 1 filled ∷ counting rate burst gaps (filled - 1)

abbrev pub number_granted : List Bool → ℕ
number_granted [] = 0
number_granted (true ∷ answers) = suc (number_granted answers)
number_granted (false ∷ answers) = number_granted answers

granted-bound :
    (n bound : ℕ) (later : ℕ → List Bool)
    → ((k : ℕ) → number_granted (later k) ≤ k + bound)
    → number_granted (leb 1 n ∷ later (n - 1)) ≤ n + bound
granted-bound zero bound later h = h 0
granted-bound (suc n) bound later h =
    let enough : leb 1 (suc n) ≡ true = ground arith in
    let less : suc n - 1 ≡ n = omega arith in let rest = h n in rw (enough, less) (omega arith)

counting-bound :
    (rate burst : ℕ) (gaps : List ℕ) (k : ℕ)
    → number_granted (counting rate burst gaps k) ≤ k + total gaps * rate
counting-bound rate burst [] k = omega arith
counting-bound rate burst (gap ∷ gaps) k =
    let bound =
      granted-bound (min (k + gap * rate) burst) (total gaps * rate) (counting rate burst gaps)
        (counting-bound rate burst gaps) in
    omega arith

module _ ⦃d : Double⦄ where
  -- What the bucket answers to calls, each so many seconds after the one before.
  abbrev pub answers : List ℕ → ℕ → TokenBucket → List Bool
  answers [] now b = []
  answers (gap ∷ gaps) now b =
      let time = now + gap * 1_000_000_000 in
      let (answer, b') = try_acquire time b in is_granted answer ∷ answers gaps time b'

  -- The bucket after them, and the time.
  abbrev pub after : List ℕ → ℕ → TokenBucket → ℕ × TokenBucket
  after [] now b = (now, b)
  after (gap ∷ gaps) now b =
      let time = now + gap * 1_000_000_000 in after gaps time (try_acquire time b).1

  module _ (rate burst : ℕ) (small : burst < 2 ^ 32) (slow : rate < 2 ^ 32) where
    earned : (gap : ℕ) → gap < 2 ^ 20 → gap * rate < 2 ^ 52
    earned gap short =
        let bound : gap * rate ≤ 1_048_575 * 4_294_967_295 =
          mul-le-mul {n₂ = 1_048_575} {m₂ = 4_294_967_295} (omega arith) (omega arith) in
        omega arith

    refill-later :
        (gap now k : ℕ) (b : TokenBucket)
        → k ≤ burst
        → gap < 2 ^ 20
        → Holds now k rate burst b
        → Holds
            (now + gap * 1_000_000_000)
            (min (k + gap * rate) burst)
            rate
            burst
            (refill (now + gap * 1_000_000_000) b)
    unfolding refill
    refill-later gap now k b le short (t, c, r, l) =
        let room = earned gap short in
        let elapsed : now + gap * 1_000_000_000 - b.last_refill ≡ gap * 1_000_000_000 =
          omega (arith, l) in
        (
          rw (
            t,
            c,
            r,
            elapsed,
            d.as_secs-of_nat gap (omega arith),
            d.fmul-of_nat gap rate (omega arith),
            d.fadd-of_nat k (gap * rate) (omega arith),
            d.fmin-of_nat (k + gap * rate) burst (omega arith) (omega arith),
          ),
          c,
          r,
          refl,
        )

    acquire-refilled :
        (now k : ℕ) (b : TokenBucket)
        → k ≤ burst
        → Holds now k rate burst (refill now b)
        → (is_granted (try_acquire now b).0 ≡ leb 1 k)
          × Holds now (k - 1) rate burst (try_acquire now b).1
    unfolding try_acquire
    acquire-refilled now zero b le (t, c, r, l) =
        let test = d.fle-of_nat 1 0 (omega arith) (omega arith) in
        rw (t, test) (refused_wait _, (refl, c, r, l))
    acquire-refilled now (suc k) b le (t, c, r, l) =
        let test = d.fle-of_nat 1 (suc k) (omega arith) (omega arith) in
        let enough : leb 1 (suc k) ≡ true = ground arith in
        let less : suc k - 1 ≡ k = omega arith in
        rw (t, test, enough, less) (refl, (d.fsub-of_nat k (omega arith), c, r, l))

    acquire-later :
        (gap now k : ℕ) (b : TokenBucket)
        → k ≤ burst
        → gap < 2 ^ 20
        → Holds now k rate burst b
        → (is_granted (try_acquire (now + gap * 1_000_000_000) b).0
            ≡ leb 1 (min (k + gap * rate) burst))
          × Holds
              (now + gap * 1_000_000_000)
              (min (k + gap * rate) burst - 1)
              rate
              burst
              (try_acquire (now + gap * 1_000_000_000) b).1
    acquire-later gap now k b le short h =
        acquire-refilled _ _ b (omega arith) (refill-later gap now k b le short h)

    answers-counting :
        (gaps : List ℕ) (now k : ℕ) (b : TokenBucket)
        → k ≤ burst
        → total gaps < 2 ^ 20
        → Holds now k rate burst b
        → answers gaps now b ≡ counting rate burst gaps k
    answers-counting [] now k b le short h = refl
    answers-counting (gap ∷ gaps) now k b le short h =
        let (answer, left) = acquire-later gap now k b le (omega arith) h in
        let rest = answers-counting gaps _ _ _ (omega arith) (omega arith) left in
        rw (answer, rest) refl

    after-Holds :
        (gaps : List ℕ) (now k : ℕ) (b : TokenBucket)
        → k ≤ burst
        → total gaps < 2 ^ 20
        → Holds now k rate burst b
        → (j : ℕ) × (j ≤ burst) × Holds (after gaps now b).0 j rate burst (after gaps now b).1
    after-Holds [] now k b le short h = (k, le, h)
    after-Holds (gap ∷ gaps) now k b le short h =
        let left = (acquire-later gap now k b le (omega arith) h).1 in
        after-Holds gaps _ _ _ (omega arith) (omega arith) left

    served_later :
        (gap now k : ℕ) (b : TokenBucket)
        → 0 < rate
        → 0 < burst
        → 0 < gap
        → k ≤ burst
        → gap < 2 ^ 20
        → Holds now k rate burst b
        → is_granted (try_acquire (now + gap * 1_000_000_000) b).0 ≡ true
    served_later gap now k b runs some_burst waits le short h =
        let earns : 1 * 1 ≤ gap * rate = mul-le-mul waits runs in
        let enough : leb 1 (min (k + gap * rate) burst) ≡ true = ground arith in
        (acquire-later gap now k b le short h).0 ∙ enough

  -- A bucket asked at whole seconds, over less than 2^20 of them, answers as one that counts: it
  -- starts full, earns the rate in tokens each second up to the burst, and gives one per call while
  -- it has one. So it never lets more calls pass than the burst and the rate for each second.
  pub answers-new :
      (gaps : List ℕ) (now rate burst : ℕ)
      → burst < 2 ^ 32
      → rate < 2 ^ 32
      → total gaps < 2 ^ 20
      → (answers gaps now (new now rate burst) ≡ counting rate burst gaps burst)
        × (number_granted (answers gaps now (new now rate burst)) ≤ burst + total gaps * rate)
  answers-new gaps now rate burst small slow short =
      let same =
        answers-counting rate burst small slow gaps now burst _ (omega arith) short
          (new-Holds now rate burst) in
      (same, rw same (counting-bound rate burst gaps burst))

  -- Where the rate and the burst are at least 1, the bucket never shuts for good: whatever calls
  -- have come at whole seconds, one that comes a second or more after the last of them is granted
  -- (up to 2^20 seconds).
  pub granted_again :
      (gaps : List ℕ) (gap now rate burst : ℕ)
      → burst < 2 ^ 32
      → rate < 2 ^ 32
      → 0 < rate
      → 0 < burst
      → 0 < gap
      → total gaps + gap < 2 ^ 20
      → let (time, b) = after gaps now (new now rate burst) in
        is_granted (try_acquire (time + gap * 1_000_000_000) b).0 ≡ true
  granted_again gaps gap now rate burst small slow runs some_burst waits short =
      let (k, le, h) =
        after-Holds rate burst small slow gaps now burst (new now rate burst) (omega arith)
          (omega arith) (new-Holds now rate burst) in
      served_later rate burst small slow gap _ k _ runs some_burst waits le (omega arith) h

-- ===== src/Platform/SampleDouble.antt =====
-- Doubles on which the token bucket runs: billionths, or a value that is no number. They meet the
-- laws.
use jackfield.Common.{
  ◌<◌, ℕ, zero, suc, ◌+◌, ◌-◌, ◌*◌, ◌/◌, ◌≤◌, min, ◌≡◌, refl, sym, ap, ◌∙◌, Bool, true, false, leb,
  Option, none, some, arith,
}
use native.Mathlib.Nat.{mul-div_cancel, mul-div-mul_right, lt-mul-div-succ, mul-le-mul, zero-lt-suc}
use jackfield.Platform.Double.{Double}

pub data Nano : Type 0 where
  invalid : Nano
  units : ℕ → Nano

abbrev pub whole : ℕ → Nano
whole n = units (n * 1_000_000_000)

abbrev pub plus : Nano → Nano → Nano
plus (units a) (units b) = units (a + b)
plus _ _ = invalid

abbrev pub minus : Nano → Nano → Nano
minus (units a) (units b) = units (a - b)
minus _ _ = invalid

abbrev pub times : Nano → Nano → Nano
times (units a) (units b) = units (a * b / 1_000_000_000)
times _ _ = invalid

abbrev pub over : Nano → Nano → Nano
over (units a) (units zero) = invalid
over (units a) (units (suc b)) = units (a * 1_000_000_000 / suc b)
over _ _ = invalid

abbrev pub lesser : Nano → Nano → Nano
lesser (units a) (units b) = units (min a b)
lesser (units a) invalid = units a
lesser invalid y = y

abbrev pub at_most : Nano → Nano → Bool
at_most (units a) (units b) = leb a b
at_most _ _ = false

abbrev pub duration : Nano → Option ℕ
duration (units a) = some a
duration invalid = none

pub at_most-whole : (m n : ℕ) → leb (m * 1_000_000_000) (n * 1_000_000_000) ≡ leb m n
at_most-whole m n = ground arith

pub minus-whole : (n : ℕ) → minus (whole (suc n)) (whole 1) ≡ whole n
minus-whole n = ap units (omega arith)

pub whole-minus_zero : (n : ℕ) → minus (whole n) (whole 0) ≡ whole n
whole-minus_zero n = ap units (omega arith)

pub lesser-whole : (m n : ℕ) → lesser (whole m) (whole n) ≡ whole (min m n)
lesser-whole m n = ap units (omega arith)

pub whole-plus_zero : (n : ℕ) → plus (whole n) (whole 0) ≡ whole n
whole-plus_zero n = ap units (omega arith)

pub times-whole : (n : ℕ) → times (whole 0) (whole n) ≡ whole 0
times-whole n =
    let nothing : 0 * (n * 1_000_000_000) ≡ 0 = omega arith in
    ap (λ x. units (x / 1_000_000_000)) nothing

pub lesser-at_most : (x : Nano) (n : ℕ) → at_most (lesser x (whole n)) (whole n) ≡ true
lesser-at_most invalid n = ground arith
lesser-at_most (units a) n = ground arith

pub minus-at_most :
    (x : Nano) (n : ℕ)
    → at_most (whole 1) x ≡ true
    → at_most x (whole n) ≡ true
    → at_most (minus x (whole 1)) (whole n) ≡ true
minus-at_most invalid n h k = cc
minus-at_most (units a) n h k = ground arith

pub times_exact : (m n : ℕ) → times (whole m) (whole n) ≡ whole (m * n)
times_exact m n =
    let spread : m * 1_000_000_000 * (n * 1_000_000_000) ≡ m * n * 1_000_000_000 * 1_000_000_000 =
      omega arith in
    ap units (rw spread (mul-div_cancel (m * n * 1_000_000_000) (zero-lt-suc 999_999_999)))

over_units : (a n : ℕ) → 0 < n → over (units a) (units n) ≡ units (a * 1_000_000_000 / n)
over_units a zero h = absurd (omega arith)
over_units a (suc n) h = refl

-- What is missing to one, at so many a second.
abbrev pub rest : Nano → ℕ → Option ℕ
rest x n = duration (over (minus (whole 1) x) (whole n))

pub rest_defined :
    (x : Nano) (n : ℕ) → at_most (whole 0) x ≡ true → 0 < n → (t : ℕ) × (rest x n ≡ some t)
rest_defined invalid n h pos = absurd (cc h)
rest_defined (units a) n h pos = (_, ap duration (over_units _ (n * 1_000_000_000) (omega arith)))

times_units : (e n : ℕ) → times (units e) (whole n) ≡ units (e * n)
times_units e n =
    let spread : e * (n * 1_000_000_000) ≡ e * n * 1_000_000_000 = omega arith in
    ap units (rw spread (mul-div_cancel (e * n) (zero-lt-suc 999_999_999)))

some_injective : {m n : ℕ} → some m ≡ some n → m ≡ n
some_injective h = cc h

earned_enough : (m n e : ℕ) → 0 < n → m * 1_000_000_000 / (n * 1_000_000_000) + 2 ≤ e → m ≤ e * n
earned_enough m n e pos h =
    let same : m * 1_000_000_000 / (n * 1_000_000_000) ≡ m / n =
      mul-div-mul_right m n (zero-lt-suc 999_999_999) in
    let below : m < n * (m / n + 1) = lt-mul-div-succ m pos in
    let longer : n * (m / n + 1) ≤ n * e =
      mul-le-mul {n₁ = n} {n₂ = n} (omega arith) (omega (arith, same)) in
    omega arith

pub plus_refilled :
    (x : Nano) (n t e : ℕ)
    → at_most (whole 0) x ≡ true
    → at_most (whole 1) x ≡ false
    → 0 < n
    → rest x n ≡ some t
    → t + 2 ≤ e
    → at_most (whole 1) (plus x (times (units e) (whole n))) ≡ true
plus_refilled invalid n t e h k pos r l = absurd (cc h)
plus_refilled (units a) n t e h k pos r l =
    let q = (1_000_000_000 - a) * 1_000_000_000 / (n * 1_000_000_000) in
    let short : q ≡ t =
      some_injective (
        sym (ap duration (over_units (1_000_000_000 - a) (n * 1_000_000_000) (omega arith))) ∙ r) in
    let enough : 1_000_000_000 - a ≤ e * n =
      earned_enough (1_000_000_000 - a) n e pos (omega (arith, short)) in
    ap (λ y. at_most (whole 1) (plus (units a) y)) (times_units e n) ∙ ground arith

pub plus-at_most :
    (x : Nano) (e n : ℕ)
    → at_most (whole 0) x ≡ true
    → at_most (whole 0) (plus x (times (units e) (whole n))) ≡ true
plus-at_most invalid e n h = absurd (cc h)
plus-at_most (units a) e n h = ground arith

pub at_most-lesser :
    (x : Nano) (m n : ℕ)
    → m ≤ n
    → at_most (whole m) x ≡ true
    → at_most (whole m) (lesser x (whole n)) ≡ true
at_most-lesser invalid m n l h = absurd (cc h)
at_most-lesser (units a) m n l h = ground arith

pub at_most-minus :
    (x : Nano) → at_most (whole 1) x ≡ true → at_most (whole 0) (minus x (whole 1)) ≡ true
at_most-minus invalid h = absurd (cc h)
at_most-minus (units a) h = ground arith

instance abbrev pub sample_double : Double
sample_double = record {
  Float = Nano;
  of_nat = whole;
  fadd = plus;
  fsub = minus;
  fmul = times;
  fdiv = over;
  fmin = lesser;
  fle = at_most;
  as_secs = units;
  from_secs = duration;
  fle-of_nat = λ m n h k. at_most-whole m n;
  fsub-of_nat = λ n h. minus-whole n;
  fsub_zero = λ n h. whole-minus_zero n;
  fmin-of_nat = λ m n h k. lesser-whole m n;
  fadd_zero = λ n h. whole-plus_zero n;
  zero_fmul = λ n h. times-whole n;
  as_secs_zero = refl;
  as_secs-of_nat = λ s h. refl;
  fmul-of_nat = λ m n h. times_exact m n;
  fadd-of_nat = λ m n h. ap units (omega arith);
  fmin-fle = λ x n h. lesser-at_most x n;
  fsub-fle = minus-at_most;
  from_secs_infinite = refl;
  from_secs_some = λ x n h k pos slow. rest_defined x n h pos;
  fadd_refilled = λ x n t e h k pos slow. plus_refilled x n t e h k pos;
  zero_fle-fadd = λ x e n h slow. plus-at_most x e n h;
  fle-fmin = λ x m n l small. at_most-lesser x m n l;
  zero_fle-fsub = at_most-minus;
}

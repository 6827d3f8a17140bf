-- ===== src/Platform/Sample.antt =====
-- A platform on which the definitions run: uuids of one byte, and floats that are thousandths or
-- a NaN. It meets the laws.
use jackfield.Common.{
  ℕ, suc, ◌+◌, ◌*◌, ◌/◌, ◌≤◌, ◌<◌, min, max, ◌≡◌, refl, Bool, true, false, List, [], ◌∷◌, Option,
  none, some, arith,
}
use jackfield.Platform.{Platform}

pub data Milli : Type 0 where
  nan : Milli
  fin : ℕ → Milli

abbrev pub read_byte : List ℕ → Option ℕ
read_byte [] = none
read_byte (b ∷ []) = some b
read_byte (b ∷ c ∷ bs) = none

abbrev pub times : Milli → Milli → Milli
times (fin a) (fin b) = fin (a * b / 1000)
times _ _ = nan

abbrev pub plus : Milli → Milli → Milli
plus (fin a) (fin b) = fin (a + b)
plus _ _ = nan

abbrev pub lesser : Milli → Milli → Milli
lesser nan y = y
lesser (fin a) nan = fin a
lesser (fin a) (fin b) = fin (min a b)

abbrev pub greater : Milli → Milli → Milli
greater nan y = y
greater (fin a) nan = fin a
greater (fin a) (fin b) = fin (max a b)

abbrev pub finite : Milli → Bool
finite nan = false
finite (fin a) = true

abbrev pub place : Milli → ℕ
place nan = 0
place (fin a) = suc a

pub read_byte_inv : (bs : List ℕ) (u : ℕ) → read_byte bs ≡ some u → u ∷ [] ≡ bs
read_byte_inv [] u h = cc
read_byte_inv (b ∷ []) u h = cc
read_byte_inv (b ∷ c ∷ bs) u h = cc

pub place_injective : (x y : Milli) → place x ≡ place y → x ≡ y
place_injective nan nan h = refl
place_injective nan (fin b) h = absurd (omega arith)
place_injective (fin a) nan h = absurd (omega arith)
place_injective (fin a) (fin b) h = ground arith

pub lesser_bound : (x : Milli) (n : ℕ) → 0 < n → place (lesser x (fin n)) ≤ place (fin n)
lesser_bound nan n h = omega arith
lesser_bound (fin a) n h = omega arith

pub lesser_keeps :
    (x : Milli) (m n : ℕ)
    → m ≤ n
    → place (fin m) ≤ place x
    → place (fin m) ≤ place (lesser x (fin n))
lesser_keeps nan m n h k = omega arith
lesser_keeps (fin a) m n h k = omega arith

pub greater_bound : (x : Milli) (n : ℕ) → 0 < n → place (fin n) ≤ place (greater x (fin n))
greater_bound nan n h = omega arith
greater_bound (fin a) n h = omega arith

pub greater_keeps :
    (x : Milli) (m n : ℕ)
    → m ≤ n
    → place x ≤ place (fin n)
    → place (greater x (fin m)) ≤ place (fin n)
greater_keeps nan m n h k = omega arith
greater_keeps (fin a) m n h k = omega arith

scale_grows : (a k : ℕ) → 1000 ≤ k → a ≤ a * k / 1000
scale_grows a k h = grind arith

scale_shrinks : (a k : ℕ) → k ≤ 1000 → a * k / 1000 ≤ a
scale_shrinks a k h = grind arith

pub times_grows :
    (x : Milli) (m n k : ℕ)
    → place (fin m) ≤ place x
    → place x ≤ place (fin n)
    → 1000 ≤ k
    → place x ≤ place (times x (fin k))
times_grows nan m n k h j f = omega arith
times_grows (fin a) m n k h j f = omega (arith, scale_grows a k f)

pub times_shrinks :
    (x : Milli) (m n k : ℕ)
    → place (fin m) ≤ place x
    → place x ≤ place (fin n)
    → k ≤ 1000
    → place (times x (fin k)) ≤ place x
times_shrinks nan m n k h j f = omega arith
times_shrinks (fin a) m n k h j f = omega (arith, scale_shrinks a k f)

instance abbrev pub sample : Platform
sample = record {
  Uuid = ℕ;
  nil_uuid = 0;
  as_bytes = λ u. u ∷ [];
  from_slice = read_byte;
  from_slice-as_bytes = λ u. refl;
  as_bytes-from_slice = read_byte_inv;
  Any = Unit;
  any_unit = tt;
  Float = Milli;
  milli = fin;
  fadd = plus;
  fmul = times;
  fmin = lesser;
  fmax = greater;
  is_finite = finite;
  rank = place;
  rank_injective = place_injective;
  milli_finite = λ n. refl;
  fmin-le = lesser_bound;
  le-fmin = lesser_keeps;
  le-fmax = greater_bound;
  fmax-le = greater_keeps;
  fmul_grows = times_grows;
  fmul_shrinks = times_shrinks;
}

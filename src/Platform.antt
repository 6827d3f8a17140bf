-- ===== src/Platform.antt =====
-- What the crate takes from elsewhere and does not define: the `uuid` crate's `Uuid`, the values
-- behind `dyn Any`, and the machine's `f32`. Each is a type with the operations that the source
-- calls, and the documented laws of these that the proofs rely on.
pub mod Sample
pub mod Double
pub mod SampleDouble
use jackfield.Common.{ℕ, ◌≤◌, ◌<◌, ◌≡◌, Bool, true, List, Option, some}

pub record Platform : Type 1 where
  -- `uuid::Uuid`
  pub Uuid : Type 0
  pub nil_uuid : Uuid
  pub as_bytes : Uuid → List ℕ
  pub from_slice : List ℕ → Option Uuid
  -- The slice of a uuid is read back as that uuid, and nothing else is read as it.
  pub from_slice-as_bytes : (u : Uuid) → from_slice (as_bytes u) ≡ some u
  pub as_bytes-from_slice : (bs : List ℕ) (u : Uuid) → from_slice bs ≡ some u → as_bytes u ≡ bs
  -- `Box<dyn Any>`, and the unit value in it
  pub Any : Type 0
  pub any_unit : Any
  -- `f32`; `milli n` is the literal for n thousandths.
  pub Float : Type 0
  pub milli : ℕ → Float
  pub fadd : Float → Float → Float
  pub fmul : Float → Float → Float
  pub fmin : Float → Float → Float
  pub fmax : Float → Float → Float
  pub is_finite : Float → Bool
  -- `total_cmp` compares the bit patterns, mapped to integers in order: equal ranks are equal
  -- bits.
  pub rank : Float → ℕ
  pub rank_injective : (x y : Float) → rank x ≡ rank y → x ≡ y
  -- Literals are finite.
  pub milli_finite : (n : ℕ) → is_finite (milli n) ≡ true
  -- `min` and `max` with a positive literal bound every value, a NaN too, which they drop; they
  -- pass no bound from the other side.
  pub fmin-le : (x : Float) (n : ℕ) → 0 < n → rank (fmin x (milli n)) ≤ rank (milli n)
  pub le-fmin :
      (x : Float) (m n : ℕ)
      → m ≤ n
      → rank (milli m) ≤ rank x
      → rank (milli m) ≤ rank (fmin x (milli n))
  pub le-fmax : (x : Float) (n : ℕ) → 0 < n → rank (milli n) ≤ rank (fmax x (milli n))
  pub fmax-le :
      (x : Float) (m n : ℕ)
      → m ≤ n
      → rank x ≤ rank (milli n)
      → rank (fmax x (milli m)) ≤ rank (milli n)
  -- Rounding is monotone: a product of a value between literals by a factor of 1.0 or more is no
  -- smaller, and by a factor of 1.0 or less no larger.
  pub fmul_grows :
      (x : Float) (m n k : ℕ)
      → rank (milli m) ≤ rank x
      → rank x ≤ rank (milli n)
      → 1000 ≤ k
      → rank x ≤ rank (fmul x (milli k))
  pub fmul_shrinks :
      (x : Float) (m n k : ℕ)
      → rank (milli m) ≤ rank x
      → rank x ≤ rank (milli n)
      → k ≤ 1000
      → rank (fmul x (milli k)) ≤ rank x

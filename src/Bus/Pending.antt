-- ===== src/Bus/Pending.antt =====
-- components/bus/bus.rs: the pending buffer and its cap.
use jackfield.Common.{
  ℕ, zero, suc, ◌+◌, ◌-◌, ◌≤◌, max, ◌≡◌, refl, ap, ◌∙◌, sym, List, [], ◌∷◌, ◌++◌, length,
  length-append, drop, leb, leb→le, inl, inr, if◌then◌else◌, Bool-cases, arith,
}
use jackfield.Platform.{Platform}
use jackfield.Message.{Envelope}
use jackfield.Bus.{Bus, push_pending}

-- The last n entries of a list.
abbrev pub last {ℓ} : {A : Type ℓ} → ℕ → List A → List A
last n xs = drop (length xs - n) xs

module _ {ℓ} {A : Type ℓ} where
  drop-append : (k : ℕ) (xs ys : List A) → k ≤ length xs → drop k (xs ++ ys) ≡ drop k xs ++ ys
  drop-append zero xs ys h = refl
  drop-append (suc k) [] ys h = elim h [ ]
  drop-append (suc k) (x ∷ xs) ys h = drop-append k xs ys (omega arith)

  drop_at : (xs : List A) (k j : ℕ) → k ≡ j → drop k xs ≡ drop j xs
  drop_at xs k j e = rw e

  length-drop : (k : ℕ) (xs : List A) → length (drop k xs) ≡ length xs - k
  length-drop zero xs = omega arith
  length-drop (suc k) [] = omega arith
  length-drop (suc k) (x ∷ xs) = omega (arith, length-drop k xs)

  drop-drop : (j k : ℕ) (xs : List A) → drop j (drop k xs) ≡ drop (k + j) xs
  drop-drop j zero xs = drop_at xs j (0 + j) (omega arith)
  drop-drop zero (suc k) [] = drop_at [] (suc k) (suc k + 0) (omega arith)
  drop-drop (suc j) (suc k) [] = drop_at [] (suc (k + suc j)) (suc k + suc j) (omega arith)
  drop-drop j (suc k) (x ∷ xs) =
      drop-drop j k xs ∙ drop_at (x ∷ xs) (suc (k + j)) (suc k + j) (omega arith)

  pub length-last-le : (n : ℕ) (xs : List A) → length (last n xs) ≤ n
  length-last-le n xs = omega (arith, length-drop (length xs - n) xs)

  -- What is dropped early would be dropped anyway.
  pub last-append : (n : ℕ) (xs ys : List A) → last n (last n xs ++ ys) ≡ last n (xs ++ ys)
  last-append n xs ys =
      let k = length xs - n in
      let joined = sym (drop-append k xs ys (omega arith)) in
      ap (last n) joined
      ∙ drop-drop (length (drop k (xs ++ ys)) - n) k (xs ++ ys)
      ∙ drop_at (xs ++ ys) (k + (length (drop k (xs ++ ys)) - n)) (length (xs ++ ys) - n)
          (omega (arith, length-drop k (xs ++ ys), length-append xs ys))

  pub last_short : (n : ℕ) (xs : List A) → length xs ≤ n → last n xs ≡ xs
  last_short n xs h = drop_at xs (length xs - n) 0 (omega arith)

  -- The list of `push_pending`, for a cap.
  abbrev pushed : ℕ → List A → A → List A
  pushed cap xs x = (if leb cap (length xs) then drop 1 xs else xs) ++ x ∷ []

  pushed-last :
      (cap : ℕ) (xs : List A) (x : A)
      → length xs ≤ max 1 cap
      → pushed cap xs x ≡ last (max 1 cap) (xs ++ x ∷ [])
  pushed-last cap xs x h = elim (Bool-cases (leb cap (length xs))) [
    | inl full ↦ rw full (at_cap xs h (leb→le _ _ full))
    | inr free ↦ rw free (
        drop_at (xs ++ x ∷ []) 0 (length (xs ++ x ∷ []) - max 1 cap)
          (ground (arith, length-append xs (x ∷ []))))
  ]
    where
      at_cap :
          (ys : List A)
          → length ys ≤ max 1 cap
          → cap ≤ length ys
          → drop 1 ys ++ x ∷ [] ≡ last (max 1 cap) (ys ++ x ∷ [])
      at_cap [] h k = drop_at (x ∷ []) 0 (1 - max 1 cap) (omega arith)
      at_cap (y ∷ ys) h k =
          drop_at (y ∷ ys ++ x ∷ []) 1 (length (y ∷ ys ++ x ∷ []) - max 1 cap)
            (omega (arith, length-append ys (x ∷ [])))

  pushed_zero : (xs : List A) (x : A) → length xs ≤ 1 → pushed 0 xs x ≡ x ∷ []
  pushed_zero [] x h = refl
  pushed_zero (y ∷ []) x h = refl
  pushed_zero (y ∷ z ∷ ys) x h = absurd (omega arith)

module _ ⦃p : Platform⦄ {R S : Type 0} where
  -- The room of the buffer: the cap, but never less than one.
  abbrev pub room : Bus R S → ℕ
  room b = max 1 b.max_pending

  abbrev pub IsBounded : Bus R S → Type 0
  IsBounded b = length b.pending ≤ room b

  pub room-push_pending : (b : Bus R S) (e : Envelope) → room (push_pending b e) ≡ room b
  unfolding push_pending
  room-push_pending b e = refl

  -- A full buffer gives up its oldest envelope: what is kept are the latest ones, in order.
  pub push_pending_lem :
      (b : Bus R S) (e : Envelope)
      → IsBounded b
      → (push_pending b e).pending ≡ last (room b) (b.pending ++ e ∷ [])
  unfolding push_pending
  push_pending_lem b e h = pushed-last b.max_pending b.pending e h

  pub push_pending-IsBounded :
      (b : Bus R S) (e : Envelope) → IsBounded b → IsBounded (push_pending b e)
  push_pending-IsBounded b e h =
      let bound = length-last-le (room b) (b.pending ++ e ∷ []) in
      omega (arith, bound, ap length (push_pending_lem b e h), room-push_pending b e)

  -- With the cap 0 the buffer still holds the envelope that was pushed last.
  pub push_pending_zero :
      (b : Bus R S) (e : Envelope)
      → b.max_pending ≡ 0
      → length b.pending ≤ 1
      → (push_pending b e).pending ≡ e ∷ []
  unfolding push_pending
  push_pending_zero b e z h = rw z (pushed_zero b.pending e h)

-- ===== src/Bus/Accounts.antt =====
-- components/bus/bus.rs: what commands do to a directory, and what they answer.
use jackfield.Common.{
  ℕ, suc, ◌<◌, ◌≤◌, ◌≡◌, ◌≢◌, ap, inl, inr, ◌⊎◌, List, [], ◌∷◌, map, Memᴰ, mem-append,
  of_mem-append, false, Bool-cases, ◌==◌, arith,
}
use jackfield.Platform.{Platform}
use jackfield.Consumer.{Consumer}
use jackfield.Registry.Ids.{Ascending}
use jackfield.Bus.{BusCmd, register, deregister}
use jackfield.Bus.Directory.{Directory, without, enter, enter_all}

module _ ⦃p : Platform⦄ {S : Type 0} where
  -- What commands answer from the id n on, and the ids that they end.
  abbrev pub answers : List (BusCmd S) → ℕ → List (ℕ × Consumer S)
  answers [] n = []
  answers (register consumer dims reply ∷ cmds) n = (n, consumer) ∷ answers cmds (suc n)
  answers (deregister id ∷ cmds) n = answers cmds n

  abbrev pub ended : List (BusCmd S) → List ℕ
  ended [] = []
  ended (register consumer dims reply ∷ cmds) = ended cmds
  ended (deregister id ∷ cmds) = id ∷ ended cmds

  answers-Ascending :
      (cmds : List (BusCmd S)) (d : Directory S)
      → Ascending d.next (map (λ x. x.0) (answers cmds d.next)) (enter_all cmds d).next
  answers-Ascending [] d = omega arith
  answers-Ascending (register consumer dims reply ∷ cmds) d =
      (omega arith, answers-Ascending cmds (enter (register consumer dims reply) d))
  answers-Ascending (deregister id ∷ cmds) d = answers-Ascending cmds (enter (deregister id) d)

  answers-above :
      (cmds : List (BusCmd S)) (n : ℕ) (x : ℕ × Consumer S) → Memᴰ x (answers cmds n) → n ≤ x.0
  answers-above [] n x m = elim m [ ]
  answers-above (register consumer dims reply ∷ cmds) n x (Memᴰ.head e) =
      omega (arith, ap (λ (y : ℕ × Consumer S). y.0) e)
  answers-above (register consumer dims reply ∷ cmds) n x (Memᴰ.tail m) =
      omega (arith, answers-above cmds (suc n) x m)
  answers-above (deregister id ∷ cmds) n x m = answers-above cmds n x m

  of_without :
      (id : ℕ) (xs : List (ℕ × Consumer S)) (x : ℕ × Consumer S)
      → Memᴰ x (without id xs)
      → Memᴰ x xs × (x.0 ≢ id)
  of_without id [] x m = elim m [ ]
  of_without id (y ∷ ys) x m = elim (Bool-cases (y.0 == id)) [
    | inl same ↦ let (n, ne) = of_without id ys x (rw (without, same) at m) in (Memᴰ.tail n, ne)
    | inr other ↦ kept other (rw (without, other) at m) (of_without id ys x)
  ]
    where
      kept :
          (y.0 == id) ≡ false
          → Memᴰ x (y ∷ without id ys)
          → (Memᴰ x (without id ys) → Memᴰ x ys × (x.0 ≢ id))
          → Memᴰ x (y ∷ ys) × (x.0 ≢ id)
      kept other (Memᴰ.head h) ih =
          (Memᴰ.head h, λ k. ground (arith, ap (λ (z : ℕ × Consumer S). z.0) h))
      kept other (Memᴰ.tail n) ih = let (k, ne) = ih n in (Memᴰ.tail k, ne)

  mem-without :
      (id : ℕ) (xs : List (ℕ × Consumer S)) (x : ℕ × Consumer S)
      → Memᴰ x xs
      → x.0 ≢ id
      → Memᴰ x (without id xs)
  mem-without id [] x m ne = elim m [ ]
  mem-without id (y ∷ ys) x (Memᴰ.head h) ne = elim (Bool-cases (y.0 == id)) [
    | inl same ↦ absurd (ne (ground (arith, ap (λ (z : ℕ × Consumer S). z.0) h)))
    | inr other ↦ rw (without, other) (Memᴰ.head h)
  ]
  mem-without id (y ∷ ys) x (Memᴰ.tail m) ne = elim (Bool-cases (y.0 == id)) [
    | inl same ↦ rw (without, same) (mem-without id ys x m ne)
    | inr other ↦ rw (without, other) (Memᴰ.tail (mem-without id ys x m ne))
  ]

  -- Who is registered in the end was before, or was answered; and who was, and is not ended, is.
  of_members :
      (cmds : List (BusCmd S)) (d : Directory S) (x : ℕ × Consumer S)
      → Memᴰ x (enter_all cmds d).members
      → Memᴰ x d.members ⊎ Memᴰ x (answers cmds d.next)
  of_members [] d x m = inl m
  of_members (register consumer dims reply ∷ cmds) d x m =
      elim (of_members cmds (enter (register consumer dims reply) d) x m) [
        | inl before ↦ elim (of_mem-append x d.members _ before) [
          | inl old ↦ inl old
          | inr (Memᴰ.head e) ↦ inr (Memᴰ.head e)
          | inr (Memᴰ.tail n) ↦ elim n [ ]
        ]
        | inr later ↦ inr (Memᴰ.tail later)
      ]
  of_members (deregister id ∷ cmds) d x m = elim (of_members cmds (enter (deregister id) d) x m) [
    | inl before ↦ inl (of_without id d.members x before).0
    | inr later ↦ inr later
  ]

  mem-members :
      (cmds : List (BusCmd S)) (d : Directory S) (x : ℕ × Consumer S)
      → Memᴰ x d.members ⊎ Memᴰ x (answers cmds d.next)
      → (Memᴰ x.0 (ended cmds) → ⊥)
      → Memᴰ x (enter_all cmds d).members
  mem-members [] d x (inl m) ne = m
  mem-members [] d x (inr m) ne = elim m [ ]
  mem-members (register consumer dims reply ∷ cmds) d x (inl m) ne =
      mem-members cmds _ x (inl (mem-append x d.members _ (inl m))) ne
  mem-members (register consumer dims reply ∷ cmds) d x (inr (Memᴰ.head e)) ne =
      mem-members cmds _ x (inl (mem-append x d.members _ (inr (Memᴰ.head e)))) ne
  mem-members (register consumer dims reply ∷ cmds) d x (inr (Memᴰ.tail m)) ne =
      mem-members cmds (enter (register consumer dims reply) d) x (inr m) ne
  mem-members (deregister id ∷ cmds) d x (inl m) ne =
      mem-members cmds _ x (inl (mem-without id d.members x m (λ e. ne (Memᴰ.head e))))
        (λ n. ne (Memᴰ.tail n))
  mem-members (deregister id ∷ cmds) d x (inr m) ne =
      mem-members cmds (enter (deregister id) d) x (inr m) (λ n. ne (Memᴰ.tail n))

  -- An id from before that is ended is gone for good.
  members-ended :
      (cmds : List (BusCmd S)) (d : Directory S) (x : ℕ × Consumer S)
      → Memᴰ x (enter_all cmds d).members
      → x.0 < d.next
      → Memᴰ x.0 (ended cmds)
      → ⊥
  members-ended [] d x m lt n = elim n [ ]
  members-ended (register consumer dims reply ∷ cmds) d x m lt n =
      members-ended cmds (enter (register consumer dims reply) d) x m (omega arith) n
  members-ended (deregister id ∷ cmds) d x m lt (Memᴰ.head e) =
      elim (of_members cmds (enter (deregister id) d) x m) [
        | inl before ↦ (of_without id d.members x before).1 e
        | inr later ↦ absurd (omega (arith, answers-above cmds d.next x later))
      ]
  members-ended (deregister id ∷ cmds) d x m lt (Memᴰ.tail n) =
      members-ended cmds (enter (deregister id) d) x m lt n

  -- Directories before and after some commands, and the answers to them.
  pub record IsAccounted (d : Directory S) (cmds : List (BusCmd S)) (told : List (ℕ × Consumer S))
      (d' : Directory S) : Type 0 where
    pub fresh : Ascending d.next (map (λ x. x.0) told) d'.next
    pub known : (x : ℕ × Consumer S) → Memᴰ x d'.members → Memᴰ x d.members ⊎ Memᴰ x told
    pub stays :
        (x : ℕ × Consumer S)
        → Memᴰ x d.members ⊎ Memᴰ x told
        → (Memᴰ x.0 (ended cmds) → ⊥)
        → Memᴰ x d'.members
    pub gone : (x : ℕ × Consumer S) → x.0 < d.next → Memᴰ x.0 (ended cmds) → Memᴰ x d'.members → ⊥

  pub enter_all-IsAccounted :
      (cmds : List (BusCmd S)) (d : Directory S)
      → IsAccounted d cmds (answers cmds d.next) (enter_all cmds d)
  enter_all-IsAccounted cmds d = record {
    fresh = answers-Ascending cmds d;
    known = of_members cmds d;
    stays = mem-members cmds d;
    gone = λ x lt n m. members-ended cmds d x m lt n;
  }

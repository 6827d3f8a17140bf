-- ===== src/Network/Forwarding.antt =====
-- components/endpoint/network: the spawned tasks that move items from one channel to the next, in
-- grpc.rs and ws.rs.
use jackfield.Common.{
  ℕ, ◌≡◌, refl, sym, ap, ◌∙◌, List, [], ◌∷◌, ◌++◌, Bool, true, false, Bool-cases, inl, inr,
  if◌then◌else◌,
}
use mathlib.Core.List.{append_assoc, append-nil}
use jackfield.Message.{BusableItem}
use jackfield.Platform.{Platform}

-- `while let Some(x) = rx.recv().await { if tx.send(x).await.is_err() { break; } }`, over what the
-- receiver gives out until it is closed; send tells whether it succeeded.
unfoldable pub relay : {A S : Type 0} → (A → S → Bool × S) → List A → S → S
relay send [] s = s
relay send (x ∷ xs) s =
    let (sent, s') = send x s in let later = relay send xs s' in if sent then later else s'

module _ ⦃p : Platform⦄ {S : Type 0} where
  -- Those of a WebSocket connection: the one that encodes, and the one that fills the sink.
  unfoldable pub encode_task :
      (BusableItem → List ℕ) → (List ℕ → S → Bool × S) → List BusableItem → S → S
  unfolding relay
  encode_task encode_to_vec send items s = relay (λ item. send (encode_to_vec item)) items s

  unfoldable pub sink_task : (List ℕ → S → Bool × S) → List (List ℕ) → S → S
  unfolding relay
  sink_task send frames s = relay send frames s

-- What a channel delivers: an item whose send succeeds is put last, and no other is.
pub record Delivers {A S : Type 0} (send : A → S → Bool × S) (log : S → List A) : Type 0 where
  pub sent : (x : A) (s : S) → (send x s).0 ≡ true → log (send x s).1 ≡ log s ++ x ∷ []
  pub lost : (x : A) (s : S) → (send x s).0 ≡ false → log (send x s).1 ≡ log s

-- Where a relay stopped: at the end, or at an item whose send failed.
pub data IsStopped {A S : Type 0} (send : A → S → Bool × S) : List A → Type 0 where
  at_end : IsStopped send []
  at_failure : {x : A} {xs : List A} (s : S) → (send x s).0 ≡ false → IsStopped send (x ∷ xs)

-- A task that forwards delivers the items that its receiver gives out in order, up to the end or
-- to the first whose send fails, and none after it.
pub relay_prefix :
    {A S : Type 0} (send : A → S → Bool × S) (log : S → List A)
    → Delivers send log
    → (xs : List A) (s : S)
    → (first rest : List A) × (xs ≡ first ++ rest)
      × (log (relay send xs s) ≡ log s ++ first)
      × IsStopped send rest
unfolding relay
relay_prefix send log d [] s = ([], [], refl, sym (append-nil (log s)), at_end)
relay_prefix send log d (x ∷ xs) s = elim (Bool-cases (send x s).0) [
  | inl good ↦
      let (first, rest, split, h, stop) = relay_prefix send log d xs (send x s).1 in
      (
        x ∷ first,
        rest,
        ap (λ l. x ∷ l) split,
        rw (good, h, d.sent x s good) (append_assoc (log s) (x ∷ []) first),
        stop,
      )
  | inr bad ↦
      ([], x ∷ xs, refl, rw bad (d.lost x s bad ∙ sym (append-nil (log s))), at_failure s bad)
]

-- ===== src/Router/Outcome.antt =====
-- components/router/router.rs: the two outcomes of a routing, for any router.
use jackfield.Common.{ℕ, ◌≡◌, Bool, true, false, not, ◌&&◌, none, some, get_elem?, arith}
use jackfield.Platform.{Platform}
use jackfield.Message.{Envelope}
use jackfield.Registry.{RegistrationEntry, Registry, hard_rejected}
use jackfield.Router.{Routed}

module _ ⦃p : Platform⦄ {S : Type 0} where
  -- The consumer takes a call now.
  abbrev pub ready : Envelope → S → RegistrationEntry S → Bool
  ready env s entry = entry.consumer.available s && entry.consumer.validate env s

  -- and no required dimension of it rejects the envelope.
  abbrev pub eligible : Envelope → S → RegistrationEntry S → Bool
  eligible env s entry = not (hard_rejected env entry.dims) && ready env s entry

  -- One consumer has consumed the message.
  pub record Taken {R : Type 0} (r : Registry S) (env : Envelope) (s : S) (out : Routed R S)
      : Type 0 where
    pub idx : ℕ
    pub entry : RegistrationEntry S
    pub found : get_elem? r.entries idx ≡ some entry
    pub can : eligible env s entry ≡ true
    pub gone : out.unhandled ≡ none
    pub consumed : out.world ≡ entry.consumer.consume env.message s

  -- Nobody could, the envelope comes back, and the world is as it was.
  pub record Refused {R : Type 0} (r : Registry S) (env : Envelope) (s : S) (out : Routed R S)
      : Type 0 where
    pub nobody :
        (j : ℕ) (other : RegistrationEntry S)
        → get_elem? r.entries j ≡ some other
        → eligible env s other ≡ false
    pub back : out.unhandled ≡ some env
    pub same : out.world ≡ s

  pub eligible_soft :
      (env : Envelope) (s : S) (entry : RegistrationEntry S)
      → eligible env s entry ≡ true
      → (hard_rejected env entry.dims ≡ false) × (ready env s entry ≡ true)
  eligible_soft env s entry h = ground arith

  pub eligible_of :
      (env : Envelope) (s : S) (entry : RegistrationEntry S) {v : Bool}
      → hard_rejected env entry.dims ≡ false
      → ready env s entry ≡ v
      → eligible env s entry ≡ v
  eligible_of env s entry h k = rw (h, k)

-- ===== src/Bus/Handle.antt =====
-- components/bus/bus.rs: `BusCmdHandle`, by which others register with a running bus.
use jackfield.Common.{ℕ, List, Bool, true, false, String, Option, none}
use jackfield.Platform.{Platform}
use jackfield.Platform.Double.{Double}
use jackfield.Dimension.{Dimension}
use jackfield.Consumer.{Consumer}
use jackfield.Producer.{Sender, ProducerHandle}
use jackfield.Bus.{BusCmd}

module _ ⦃p : Platform⦄ ⦃d : Double⦄ where
  -- The two ends of a oneshot channel: tx sends the id, and rx waits for it, or for tx to be
  -- dropped.
  pub record Reply (S : Type 0) : Type 0 where
    pub tx : ℕ → S → S
    pub rx : S → Option ℕ × S

  -- `cmd_tx` is the `send` of the sender of commands: it tells whether the bus is still there.
  pub record BusCmdHandle (S : Type 0) : Type 0 where
    pub cmd_tx : BusCmd S → S → Bool × S
    pub envelope_tx : Sender S
    pub oneshot : S → Reply S × S

module _ ⦃p : Platform⦄ ⦃d : Double⦄ {S : Type 0} where
  -- `BusCmdHandle::register`; `none` is its one error, `ChannelClosed`.
  unfoldable pub register :
      BusCmdHandle S → Consumer S → List (Dimension × Bool × p.Float) → S → Option ℕ × S
  register h consumer dims s =
      let (reply, s₁) = h.oneshot s in
      let (sent, s₂) = h.cmd_tx (BusCmd.register consumer dims reply.tx) s₁ in
      elim sent [ false ↦ (none, s₂) | true ↦ reply.rx s₂ ]

  unfoldable pub deregister : BusCmdHandle S → ℕ → S → S
  deregister h id s = (h.cmd_tx (BusCmd.deregister id) s).1

  unfoldable pub make_producer_handle : BusCmdHandle S → String → ProducerHandle S
  make_producer_handle h name = record {
    origin = record { as_str = name };
    sender = h.envelope_tx;
    throttle = none;
  }

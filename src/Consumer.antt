-- ===== src/Consumer.antt =====
-- components/endpoint/endpoint.rs: the trait `Consumer`. What consumers share and change (their
-- own fields, channels, the clock) is the world, of a type S that the model leaves open.
use jackfield.Common.{Bool}
use jackfield.Platform.{Platform}
use jackfield.Message.{Message, Envelope}

module _ ⦃p : Platform⦄ where
  -- A `Box<dyn Consumer>`: `available` and `validate` take `&self` and read the world; `consume`
  -- changes it, until its future is done.
  pub record Consumer (S : Type 0) : Type 0 where
    pub available : S → Bool
    pub validate : Envelope → S → Bool
    pub consume : Message → S → S

-- ===== src/Tests/Desk.antt =====
-- A small world for the tests: what waits for the bus, what consumers got, and a clock.
use jackfield.Common.{
  ℕ, ◌+◌, ◌≡◌, refl, ap, arith, List, [], ◌∷◌, ◌++◌, map, Bool, true, false, String, Option, none,
  some,
}
use jackfield.Platform.Sample.{sample}
use jackfield.Message.{Message, Envelope}
use jackfield.Consumer.{Consumer}
use jackfield.Bus.{BusCmd, register, deregister, Channels}

-- A command of the test's world, which has no functions in it.
pub data Order : Type 0 where
  join : ℕ → Order
  leave : ℕ → Order

pub record Desk : Type 0 where
  pub inbox : List Envelope
  pub orders : List Order
  pub delivered : List (ℕ × Message)
  pub replies : List ℕ
  pub clock : ℕ

abbrev pub empty_desk : Desk
empty_desk = record { inbox = []; orders = []; delivered = []; replies = []; clock = 0 }

-- A consumer that records what it gets, and takes a tick over it.
abbrev pub recorder : ℕ → Consumer Desk
recorder tag = record {
  available = λ s. true;
  validate = λ e s. true;
  consume = λ m s. record s { delivered = s.delivered ++ (tag, m) ∷ []; clock = s.clock + 1 };
}

-- and one that is never free.
abbrev pub closed : Consumer Desk
closed = record { available = λ s. false; validate = λ e s. true; consume = λ m s. s }

abbrev pub command : Order → BusCmd Desk
command (join tag) =
    register (recorder tag) [] (λ id s. record s { replies = s.replies ++ id ∷ [] })
command (leave id) = deregister id

abbrev pub next_envelope : Desk → List Envelope → Option (Envelope × Desk)
next_envelope s [] = none
next_envelope s (e ∷ es) = some (e, record s { inbox = es })

abbrev pub next_command : Desk → List Order → Option (BusCmd Desk × Desk)
next_command s [] = none
next_command s (o ∷ os) = some (command o, record s { orders = os })

abbrev pub is_nil {ℓ} : {A : Type ℓ} → List A → Bool
is_nil [] = true
is_nil (x ∷ xs) = false

pub no_envelope : (s : Desk) (w : List Envelope) → w ≡ [] → next_envelope s w ≡ none
no_envelope s [] h = refl
no_envelope s (x ∷ xs) h = cc

pub an_envelope :
    (s : Desk) (w : List Envelope) (e : Envelope) (es : List Envelope)
    → w ≡ e ∷ es
    → (s' : Desk) × (next_envelope s w ≡ some (e, s'))
      × (s'.inbox ≡ es)
      × (map command s'.orders ≡ map command s.orders)
an_envelope s [] e es h = absurd (cc)
an_envelope s (x ∷ xs) e es h = (record s { inbox = xs }, ground arith, ground arith, refl)

pub no_command : (s : Desk) (w : List Order) → map command w ≡ [] → next_command s w ≡ none
no_command s [] h = refl
no_command s (x ∷ xs) h = cc

pub a_command :
    (s : Desk) (w : List Order) (c : BusCmd Desk) (cs : List (BusCmd Desk))
    → map command w ≡ c ∷ cs
    → (s' : Desk) × (next_command s w ≡ some (c, s'))
      × (map command s'.orders ≡ cs)
      × (s'.inbox ≡ s.inbox)
a_command s [] c cs h = absurd (cc)
a_command s (x ∷ xs) c cs h =
    let same : command x ≡ c = ap (head_or c) h in
    (record s { orders = xs }, rw same, ap rest h, refl)
  where
    head_or : BusCmd Desk → List (BusCmd Desk) → BusCmd Desk
    head_or d [] = d
    head_or d (y ∷ ys) = y

    rest : List (BusCmd Desk) → List (BusCmd Desk)
    rest [] = []
    rest (y ∷ ys) = ys

abbrev pub desk_channels : Channels Desk
desk_channels = record {
  envelopes = λ s. s.inbox;
  commands = λ s. map command s.orders;
  recv_envelope = λ s. next_envelope s s.inbox;
  recv_command = λ s. next_command s s.orders;
  envelopes_empty = λ s. is_nil s.inbox;
  recv_envelope_none = λ s h. no_envelope s s.inbox h;
  recv_envelope_some = λ s e es h. an_envelope s s.inbox e es h;
  recv_command_none = λ s h. no_command s s.orders h;
  recv_command_some = λ s c cs h. a_command s s.orders c cs h;
}

abbrev pub message : List String → Message
message labels = record { get_uuid = 0; get_labels = labels; get_bytes = [] }

abbrev pub from : String → List String → Envelope
from origin labels = record { origin = record { as_str = origin }; message = message labels }

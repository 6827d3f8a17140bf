-- ===== src/Network/Grpc/Orphans.antt =====
-- components/endpoint/network/grpc.rs: a registration at an address that has one already.
use jackfield.Common.{
  ℕ, ◌≤◌, ◌≡◌, ◌≢◌, refl, sym, ap, ◌∙◌, List, String, Option, none, some, Bool-cases, inl, inr,
  ◌==◌, arith,
}
use jackfield.Platform.{Platform}
use jackfield.Platform.Double.{Double}
use jackfield.Bus.Handle.{BusCmdHandle}
use jackfield.Network.{Json}
use jackfield.Network.Socket.{RegisterData}
use jackfield.Network.Grpc.{response, lookup, insert, EndpointEntry, Grpc, Service, register}
use jackfield.Network.Grpc.Sessions.{register-Entered, lookup-insert}
use jackfield.Network.Grpc.Calls.{opened, Server, Runs}
use jackfield.Network.Grpc.Weights.{weigh, weigh-lookup, live-held, named, held, live}
use jackfield.Network.Grpc.Once.{given_in, told_by_calls, told_by_tasks, Runs-weighs}

named_other : (i : ℕ) (id : Option ℕ) → id ≢ some i → named i id ≡ 0
named_other i none ne = refl
named_other i (some id) ne = elim (Bool-cases (id == i)) [
  | inl same ↦ absurd (ne (ap some (ground arith)))
  | inr other ↦ ground arith
]

some_injective : {A : Type 0} {x y : A} → some x ≡ some y → x ≡ y
some_injective h = cc

module _ ⦃p : Platform⦄ ⦃d : Double⦄ {Rx S : Type 0} (i : ℕ) where
  held_own : (e : EndpointEntry Rx S) → e.consumer_reg_id ≡ some i → held i e ≡ 1
  held_own e h = rw h (ground arith)

  live_own :
      (e : EndpointEntry Rx S) (rx : Rx)
      → e.consumer_rx ≡ some rx
      → e.consumer_reg_id ≡ some i
      → live i e ≡ 1
  live_own e rx unread h = rw unread (held_own e h)

  live_other : (e : EndpointEntry Rx S) → e.consumer_reg_id ≢ some i → live i e ≡ 0
  live_other e h = omega (arith, live-held i e, named_other i e.consumer_reg_id h)

module _ ⦃p : Platform⦄ ⦃d : Double⦄ ⦃j : Json⦄ {Rx S : Type 0} {env : Grpc Rx S}
    {cmd : BusCmdHandle S} {name : String} where
  -- In a service that began with an empty table, after a registration at an address whose entry had
  -- a consumer of the bus, nothing that the service does tells the bus to deregister that consumer:
  -- no call and no end of a task. This is for an entry on which no stream had begun, with an id that
  -- the bus gave the service once, and gives it neither for the new entry nor later.
  pub register_again :
      (i : ℕ) (s₀ : S) (addr : String) (reg : RegisterData) (bytes : List ℕ)
      (entry entry' : EndpointEntry Rx S) (rx : Rx) (w : Service Rx S) (s s' : Server Rx S)
      → (r : Runs env cmd name (opened s₀) s) → given_in i r ≤ 1
      → lookup addr s.service.endpoints ≡ some entry
      → entry.consumer_reg_id ≡ some i
      → entry.consumer_rx ≡ some rx
      → register env cmd name (some addr) reg s.service ≡ (response bytes, w)
      → lookup addr w.endpoints ≡ some entry'
      → entry'.consumer_reg_id ≢ some i
      → (r' : Runs env cmd name (record { service = w; jobs = s.jobs }) s') → given_in i r' ≡ 0
      → (told_by_calls i r' ≡ 0) × (told_by_tasks i r' ≡ 0)
  register_again i s₀ addr reg bytes entry entry' rx w s s' r once found id unread h new other r'
        never =
      let e = register-Entered env cmd name addr reg s.service w bytes h in
      let same =
        sym (ap (lookup addr) e.there ∙ lookup-insert addr e.entry s.service.endpoints) ∙ new in
      let replaced = e.there ∙ ap (λ x. insert addr x s.service.endpoints) (some_injective same) in
      let (calls, tasks) = Runs-weighs i r in
      let (calls', tasks') = Runs-weighs i r' in
      (
        omega (
          arith,
          calls,
          calls',
          ap (weigh (held i)) replaced,
          weigh-lookup (held i) addr s.service.endpoints entry found,
          held_own i entry id,
          named_other i entry'.consumer_reg_id other,
        ),
        omega (
          arith,
          tasks,
          tasks',
          ap (weigh (live i)) replaced,
          weigh-lookup (live i) addr s.service.endpoints entry found,
          live_own i entry rx unread id,
          live_other i entry' other,
        ),
      )

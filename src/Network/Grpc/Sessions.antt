-- ===== src/Network/Grpc/Sessions.antt =====
-- components/endpoint/network/grpc.rs: the life of a registration.
use jackfield.Common.{
  ℕ, ◌≡◌, ◌≢◌, refl, sym, ap, ◌∙◌, List, [], ◌∷◌, Bool, true, false, String, Option, none, some,
  Bool-cases, inl, inr, ◌⊎◌, str_eq, eq_iff, is_some, if◌then◌else◌,
}
use jackfield.Platform.{Platform}
use jackfield.Platform.Double.{Double}
use jackfield.Dimension.{Dimension}
use jackfield.Bus.Handle.{BusCmdHandle}
use jackfield.Network.{Json, Parsed, parse_dimensions}
use jackfield.Network.Socket.{RegisterData, is_consumer, is_producer}
use jackfield.Network.Grpc.{
  not_found, Answer, response, status, lookup, remove, insert, EndpointEntry, Grpc, Service,
  with_producer, finish, with_consumer, drop_entry, deregister, admit, register,
}

str_eq_refl : (s : String) → str_eq s s ≡ true
str_eq_refl s = (eq_iff s s).1 refl

pub lookup-insert :
    {E : Type 0} (addr : String) (e : E) (table : List (String × E))
    → lookup addr (insert addr e table) ≡ some e
lookup-insert addr e table = rw (str_eq_refl addr)

pub remove_absent :
    {E : Type 0} (addr : String) (table : List (String × E))
    → lookup addr table ≡ none
    → remove addr table ≡ table
remove_absent addr [] h = refl
remove_absent addr ((key, e) ∷ rest) h = elim (Bool-cases (str_eq key addr)) [
  | inl same ↦ absurd (cc (rw (lookup, same) at h))
  | inr apart ↦
      rw (remove, apart)
        (ap (λ l. (key, e) ∷ l) (remove_absent addr rest (rw (lookup, apart) at h)))
]

pub remove-insert :
    {E : Type 0} (addr : String) (e : E) (table : List (String × E))
    → lookup addr table ≡ none
    → remove addr (insert addr e table) ≡ table
remove-insert addr e table h =
    rw (str_eq_refl addr, remove_absent addr table h) (remove_absent addr table h)

is_some-if : {A : Type 0} (b : Bool) (a : A) → is_some (if b then some a else none) ≡ b
is_some-if true a = refl
is_some-if false a = refl

abbrev bytes_of : Answer (List ℕ) → List ℕ
bytes_of (response bytes) = bytes
bytes_of (status e) = []

pub Parsed-cases :
    {A : Type 0} (x : Parsed A)
    → ((e : String) × (x ≡ Parsed.invalid_argument e)) ⊎ ((a : A) × (x ≡ Parsed.parsed a))
Parsed-cases (Parsed.parsed a) = inr (a, refl)
Parsed-cases (Parsed.invalid_argument e) = inl (e, refl)

module _ ⦃p : Platform⦄ ⦃d : Double⦄ {Rx S : Type 0} where
  -- What a successful registration leaves in the table.
  pub record Entered (reg : RegisterData) (addr : String) (v v' : Service Rx S) (bytes : List ℕ)
      : Type 0 where
    pub entry : EndpointEntry Rx S
    pub receives : is_some entry.consumer_rx ≡ is_consumer reg
    pub sends : is_some entry.producer_handle ≡ is_producer reg
    pub told : bytes ≡ p.as_bytes entry.uuid
    pub there : v'.endpoints ≡ insert addr entry v.endpoints

  finish-Entered :
      (env : Grpc Rx S) (cmd : BusCmdHandle S) (name : String) (reg : RegisterData) (addr : String)
      (entry : EndpointEntry Rx S) (v₀ v v' : Service Rx S) (bytes : List ℕ)
      → is_some entry.consumer_rx ≡ is_consumer reg
      → v.endpoints ≡ v₀.endpoints
      → finish env cmd name reg addr entry v ≡ (response bytes, v')
      → Entered reg addr v₀ v' bytes
  unfolding finish with_producer
  finish-Entered env cmd name reg addr entry v₀ v v' bytes rx same h = record {
    entry = with_producer env cmd name reg entry;
    receives = rx;
    sends = is_some-if (is_producer reg) _;
    told = sym (ap (λ (x : Answer (List ℕ) × Service Rx S). bytes_of x.0) h);
    there =
        sym (ap (λ (x : Answer (List ℕ) × Service Rx S). x.1.endpoints) h)
        ∙ ap (insert addr (with_producer env cmd name reg entry)) same;
  }

  with_consumer-Entered :
      (env : Grpc Rx S) (cmd : BusCmdHandle S) (name : String) (reg : RegisterData) (addr : String)
      (uuid : p.Uuid) (rx : Rx) (v₀ v v' : Service Rx S) (bytes : List ℕ) (answer : Option ℕ × S)
      → true ≡ is_consumer reg
      → v.endpoints ≡ v₀.endpoints
      → with_consumer env cmd name reg addr uuid rx v answer ≡ (response bytes, v')
      → Entered reg addr v₀ v' bytes
  unfolding with_consumer
  with_consumer-Entered env cmd name reg addr uuid rx v₀ v v' bytes (none, s) consumes same h =
      absurd (cc (ap (λ (x : Answer (List ℕ) × Service Rx S). x.0) h))
  with_consumer-Entered env cmd name reg addr uuid rx v₀ v v' bytes (some id, s) consumes same h =
      finish-Entered env cmd name reg addr
        (record {
          uuid = uuid;
          consumer_reg_id = some id;
          consumer_rx = some rx;
          producer_handle = none;
        })
        v₀ (record v { world = s }) v' bytes consumes same h

  -- An entry is found by its address and its uuid.
  pub deregister-found :
      (env : Grpc Rx S) (cmd : BusCmdHandle S) (addr : String) (entry : EndpointEntry Rx S)
      (v : Service Rx S)
      → lookup addr v.endpoints ≡ some entry
      → (deregister env cmd (some addr) (p.as_bytes entry.uuid) v
          ≡ (response tt, drop_entry cmd addr entry.consumer_reg_id v))
        × ((other : p.Uuid)
            → entry.uuid ≢ other
            → deregister env cmd (some addr) (p.as_bytes other) v
              ≡ (status (not_found "uuid mismatch"), v))
  unfolding deregister
  deregister-found env cmd addr entry v h =
      let own = (env.same_iff entry.uuid entry.uuid).1 refl in
      (
        rw (deregister, p.from_slice-as_bytes entry.uuid, h, own),
        λ other ne. elim (Bool-cases (env.same entry.uuid other)) [
          | inl same ↦ absurd (ne ((env.same_iff entry.uuid other).0 same))
          | inr apart ↦ rw (deregister, p.from_slice-as_bytes other, h, apart)
        ],
      )

  pub endpoints-drop_entry :
      (cmd : BusCmdHandle S) (addr : String) (id : Option ℕ) (v : Service Rx S)
      → (drop_entry cmd addr id v).endpoints ≡ remove addr v.endpoints
  unfolding drop_entry
  endpoints-drop_entry cmd addr none v = refl
  endpoints-drop_entry cmd addr (some id) v = refl

module _ ⦃p : Platform⦄ ⦃d : Double⦄ ⦃j : Json⦄ {Rx S : Type 0} where
  admit-Entered :
      (env : Grpc Rx S) (cmd : BusCmdHandle S) (name : String) (reg : RegisterData) (addr : String)
      (dims : List (Dimension × Bool × p.Float)) (uuid : p.Uuid) (v₀ v v' : Service Rx S)
      (bytes : List ℕ)
      → v.endpoints ≡ v₀.endpoints
      → admit env cmd name reg addr dims uuid v ≡ (response bytes, v')
      → Entered reg addr v₀ v' bytes
  unfolding admit
  admit-Entered env cmd name reg addr dims uuid v₀ v v' bytes same h =
      elim (Bool-cases (is_consumer reg)) [
        | inl consumes ↦
            with_consumer-Entered env cmd name reg addr uuid _ v₀ v v' bytes _ (sym consumes) same
              (rw (admit, consumes) at h)
        | inr quiet ↦
            finish-Entered env cmd name reg addr
              (record {
                uuid = uuid;
                consumer_reg_id = none;
                consumer_rx = none;
                producer_handle = none;
              })
              v₀ v v' bytes (sym quiet) same (rw (admit, quiet) at h)
      ]

  pub register-Entered :
      (env : Grpc Rx S) (cmd : BusCmdHandle S) (name addr : String) (reg : RegisterData)
      (v v' : Service Rx S) (bytes : List ℕ)
      → register env cmd name (some addr) reg v ≡ (response bytes, v')
      → Entered reg addr v v' bytes
  unfolding register
  register-Entered env cmd name addr reg v v' bytes h =
      let (uuid, s) = env.new_uuid v.world in
      elim (Parsed-cases (parse_dimensions reg.dimensions_json)) [
        | inl (e, bad) ↦
            absurd (cc (ap (λ (x : Answer (List ℕ) × Service Rx S). x.0) (rw (register, bad) at h)))
        | inr (dims, good) ↦
            admit-Entered env cmd name reg addr dims uuid v (record v { world = s }) v' bytes refl
              (rw (register, good) at h)
      ]

  -- A registration at a free address that succeeds returns the uuid by which the same address can
  -- deregister, once: this succeeds, and leaves the table as it was before; under any other uuid
  -- it fails with `NotFound`, and changes nothing.
  pub register-deregister :
      (env : Grpc Rx S) (cmd : BusCmdHandle S) (name addr : String) (reg : RegisterData)
      (v v' : Service Rx S) (bytes : List ℕ)
      → lookup addr v.endpoints ≡ none
      → register env cmd name (some addr) reg v ≡ (response bytes, v')
      → ((deregister env cmd (some addr) bytes v').0 ≡ response tt)
        × ((deregister env cmd (some addr) bytes v').1.endpoints ≡ v.endpoints)
        × ((other : p.Uuid)
            → p.as_bytes other ≢ bytes
            → deregister env cmd (some addr) (p.as_bytes other) v'
              ≡ (status (not_found "uuid mismatch"), v'))
  register-deregister env cmd name addr reg v v' bytes free h =
      let e = register-Entered env cmd name addr reg v v' bytes h in
      let found = ap (lookup addr) e.there ∙ lookup-insert addr e.entry v.endpoints in
      let (own, others) = deregister-found env cmd addr e.entry v' found in
      let ended = ap (λ b. deregister env cmd (some addr) b v') e.told ∙ own in
      (
        ap (λ (x : Answer Unit × Service Rx S). x.0) ended,
        ap (λ (x : Answer Unit × Service Rx S). x.1.endpoints) ended
            ∙ endpoints-drop_entry cmd addr e.entry.consumer_reg_id v'
            ∙ ap (remove addr) e.there
            ∙ remove-insert addr e.entry v.endpoints free,
        λ other ne. others other (λ same. ne (sym (e.told ∙ ap p.as_bytes same))),
      )

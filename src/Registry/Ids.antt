-- ===== src/Registry/Ids.antt =====
-- components/registry/registry.rs: registrations, their ids and their order.
use mathlib.Core.List.{map-append}
use mathlib.Core.Path.{subst₂}
use jackfield.Common.{
  ℕ, zero, suc, ◌+◌, ◌%◌, ◌^◌, ◌≤◌, ◌<◌, ◌≡◌, refl, sym, ap, ◌∙◌, ◌≢◌, ◌↔◌, inl, inr, List, [], ◌∷◌,
  ◌++◌, map, Memᴰ, Bool, true, false, Option, some, Bool-cases, get_elem?, length, get_elem?-last,
  modify, ltb→lt, ◌==◌, arith,
}
use jackfield.Platform.{Platform}
use jackfield.Dimension.{DispatchEvent, EventMeta}
use jackfield.Consumer.{Consumer}
use jackfield.Registry.{
  DimEntry, RegistrationEntry, Registry, RegistrationBuilder, RoutePlan, push_dim, register, retain,
  deregister, observe_entry, observe_all, observe, observe_events, observe_consumed, new,
}

-- The ids ascend from lo on and stay below hi.
abbrev pub Ascending : ℕ → List ℕ → ℕ → Type 0
Ascending lo [] hi = lo ≤ hi
Ascending lo (i ∷ is) hi = (lo ≤ i) × Ascending (suc i) is hi

Ascending-snoc :
    (lo hi : ℕ) (is : List ℕ) → Ascending lo is hi → Ascending lo (is ++ hi ∷ []) (suc hi)
Ascending-snoc lo hi [] h = omega arith
Ascending-snoc lo hi (i ∷ is) h = (h.0, Ascending-snoc (suc i) hi is h.1)

Ascending-weaken :
    (lo lo' hi : ℕ) (is : List ℕ) → lo ≤ lo' → Ascending lo' is hi → Ascending lo is hi
Ascending-weaken lo lo' hi [] le h = omega arith
Ascending-weaken lo lo' hi (i ∷ is) le h = (omega (arith, h.0), h.1)

module _ ⦃p : Platform⦄ {S : Type 0} where
  abbrev pub ids : List (RegistrationEntry S) → List ℕ
  ids = map λ e. e.id

  -- Who is registered, under which id, in order: all of an entry but its dimensions.
  abbrev pub roster : List (RegistrationEntry S) → List (ℕ × Consumer S)
  roster = map λ e. (e.id, e.consumer)

  -- Every id is in use once, and below the next one.
  pub record IsValid (r : Registry S) : Type 0 where
    pub ascending : Ascending 0 (ids r.entries) r.next_id
    pub fits : r.next_id < 2 ^ 64

  ids-roster :
      (entries : List (RegistrationEntry S)) → map (λ x. x.0) (roster entries) ≡ ids entries
  ids-roster [] = refl
  ids-roster (e ∷ es) = ap (◌∷◌ e.id) (ids-roster es)

  -- A registry with the same roster and counter is valid too.
  pub roster-IsValid :
      (r r' : Registry S)
      → roster r'.entries ≡ roster r.entries
      → r'.next_id ≡ r.next_id
      → IsValid r
      → IsValid r'
  roster-IsValid r r' e n v =
      let same : ids r.entries ≡ ids r'.entries =
        sym (ids-roster r.entries) ∙ ap (map (λ x. x.0)) (sym e) ∙ ids-roster r'.entries in
      record {
        ascending = subst₂ (Ascending 0) same (sym n) v.ascending;
        fits = omega (arith, v.fits);
      }

  roster-modify :
      (entries : List (RegistrationEntry S)) (i : ℕ) (f : RegistrationEntry S → RegistrationEntry S)
      → ((e : RegistrationEntry S) → ((f e).id ≡ e.id) × ((f e).consumer ≡ e.consumer))
      → roster (modify entries i f) ≡ roster entries
  roster-modify [] i f k = refl
  roster-modify (e ∷ es) zero f k = ground (arith, k e)
  roster-modify (e ∷ es) (suc i) f k = ap (◌∷◌ (e.id, e.consumer)) (roster-modify es i f k)

  roster-observe_entry :
      (entries : List (RegistrationEntry S)) (i : ℕ) (event : DispatchEvent)
      → roster (modify entries i (observe_entry event)) ≡ roster entries
  unfolding observe_entry
  roster-observe_entry entries i event = roster-modify entries i _ (λ e. (refl, refl))

  roster-observe_all :
      (events : List (ℕ × DispatchEvent)) (entries : List (RegistrationEntry S))
      → roster (observe_all events entries) ≡ roster entries
  unfolding observe_all
  roster-observe_all [] entries = refl
  roster-observe_all ((i, event) ∷ events) entries =
      roster-observe_all events (modify entries i (observe_entry event))
      ∙ roster-observe_entry entries i event

  -- What the dimensions observe changes no registration.
  pub roster-observe :
      (r : Registry S) (plan : RoutePlan) (winner : Option ℕ) (pre : List (ℕ × Bool))
      → roster (observe r plan winner pre).entries ≡ roster r.entries
  unfolding observe
  roster-observe r plan winner pre = roster-observe_all (observe_events plan winner pre) r.entries

  pub roster-observe_consumed :
      (r : Registry S) (idx : ℕ) (meta : EventMeta) (latency : ℕ)
      → roster (observe_consumed r idx meta latency).entries ≡ roster r.entries
  unfolding observe_consumed
  roster-observe_consumed r idx meta latency = roster-observe_entry r.entries idx _

  pub roster-push_dim :
      (b : RegistrationBuilder) (de : DimEntry) (r : Registry S)
      → roster (push_dim b de r).entries ≡ roster r.entries
  unfolding push_dim
  roster-push_dim b de r = roster-modify r.entries b.idx _ (λ e. (refl, refl))

  pub new-IsValid : IsValid (new {S = S})
  new-IsValid = omega arith

  -- A registration takes a fresh id, comes last, and its builder points at it; the other entries
  -- stay, and the ids remain distinct as long as the counter does not wrap.
  pub register_lem :
      (r : Registry S) (consumer : Consumer S)
      → IsValid r
      → r.next_id + 1 < 2 ^ 64
      → let (r', b) = register r consumer in
        IsValid r'
        × (roster r'.entries ≡ roster r.entries ++ (r.next_id, consumer) ∷ [])
        × (b.id ≡ r.next_id)
        × (get_elem? r'.entries b.idx
            ≡ some (record { id = r.next_id; consumer = consumer; dims = [] }))
  unfolding register
  register_lem r consumer v h =
      let e : RegistrationEntry S = record { id = r.next_id; consumer = consumer; dims = [] } in
      let next : suc r.next_id ≡ (r.next_id + 1) % 2 ^ 64 = omega arith in
      (
        record {
          ascending =
              subst₂ (Ascending 0)
                (sym (map-append (λ (x : RegistrationEntry S). x.id) r.entries (e ∷ []))) next
                (Ascending-snoc 0 r.next_id (ids r.entries) v.ascending);
          fits = omega arith;
        },
        map-append (λ x. (x.id, x.consumer)) r.entries (e ∷ []),
        refl,
        get_elem?-last r.entries e,
      )

  length-retain : (id : ℕ) (es : List (RegistrationEntry S)) → length (retain id es) ≤ length es
  unfolding retain
  length-retain id [] = omega arith
  length-retain id (e ∷ es) = ground (arith, length-retain id es)

  retain_shorter :
      (id : ℕ) (es : List (RegistrationEntry S))
      → Memᴰ id (ids es)
      → length (retain id es) < length es
  unfolding retain
  retain_shorter id [] m = elim m [ ]
  retain_shorter id (e ∷ es) (Memᴰ.head h) = ground (arith, length-retain id es)
  retain_shorter id (e ∷ es) (Memᴰ.tail m) = ground (arith, retain_shorter id es m)

  retain_found :
      (id : ℕ) (es : List (RegistrationEntry S))
      → length (retain id es) < length es
      → Memᴰ id (ids es)
  unfolding retain
  retain_found id [] h = elim h [ ]
  retain_found id (e ∷ es) h = elim (Bool-cases (e.id == id)) [
    | inl same ↦ Memᴰ.head (ground arith)
    | inr other ↦ Memᴰ.tail (retain_found id es (ground arith))
  ]

  of_retain :
      (id : ℕ) (es : List (RegistrationEntry S)) (x : RegistrationEntry S)
      → Memᴰ x (retain id es)
      → Memᴰ x es × (x.id ≢ id)
  unfolding retain
  of_retain id [] x m = elim m [ ]
  of_retain id (e ∷ es) x m = elim (Bool-cases (e.id == id)) [
    | inl same ↦ let (n, ne) = of_retain id es x (rw (retain, same) at m) in (Memᴰ.tail n, ne)
    | inr other ↦ split other (rw (retain, other) at m) (of_retain id es x)
  ]
    where
      split :
          (e.id == id) ≡ false
          → Memᴰ x (e ∷ retain id es)
          → (Memᴰ x (retain id es) → Memᴰ x es × (x.id ≢ id))
          → Memᴰ x (e ∷ es) × (x.id ≢ id)
      split other (Memᴰ.head h) ih =
          (Memᴰ.head h, λ k. ground (arith, ap (λ (y : RegistrationEntry S). y.id) h))
      split other (Memᴰ.tail n) ih = let (k, ne) = ih n in (Memᴰ.tail k, ne)

  mem-retain :
      (id : ℕ) (es : List (RegistrationEntry S)) (x : RegistrationEntry S)
      → Memᴰ x es
      → x.id ≢ id
      → Memᴰ x (retain id es)
  unfolding retain
  mem-retain id [] x m ne = elim m [ ]
  mem-retain id (e ∷ es) x (Memᴰ.head h) ne = elim (Bool-cases (e.id == id)) [
    | inl same ↦ absurd (ne (ground (arith, ap (λ (y : RegistrationEntry S). y.id) h)))
    | inr other ↦ rw (retain, other) (Memᴰ.head h)
  ]
  mem-retain id (e ∷ es) x (Memᴰ.tail m) ne = elim (Bool-cases (e.id == id)) [
    | inl same ↦ rw (retain, same) (mem-retain id es x m ne)
    | inr other ↦ rw (retain, other) (Memᴰ.tail (mem-retain id es x m ne))
  ]

  retain-Ascending :
      (id lo hi : ℕ) (es : List (RegistrationEntry S))
      → Ascending lo (ids es) hi
      → Ascending lo (ids (retain id es)) hi
  unfolding retain
  retain-Ascending id lo hi [] h = h
  retain-Ascending id lo hi (e ∷ es) h = elim (Bool-cases (e.id == id)) [
    | inl same ↦
        rw (retain, same)
          (Ascending-weaken lo (suc e.id) hi (ids (retain id es)) (omega (arith, h.0))
            (retain-Ascending id (suc e.id) hi es h.1))
    | inr other ↦ rw (retain, other) (h.0, retain-Ascending id (suc e.id) hi es h.1)
  ]

  -- `deregister` returns true exactly if the id was registered; it removes the entries with that
  -- id and no other, and the ids stay valid.
  pub deregister_lem :
      (r : Registry S) (id : ℕ)
      → IsValid r
      → let (r', removed) = deregister r id in
        IsValid r'
        × ((removed ≡ true) ↔ Memᴰ id (ids r.entries))
        × ((x : RegistrationEntry S) → Memᴰ x r'.entries ↔ (Memᴰ x r.entries × (x.id ≢ id)))
  unfolding deregister
  deregister_lem r id v = (
    record { ascending = retain-Ascending id 0 r.next_id r.entries v.ascending; fits = v.fits },
    (
      λ h. retain_found id r.entries (ltb→lt _ _ h),
      λ m. ground (arith, retain_shorter id r.entries m),
    ),
    λ x. (of_retain id r.entries x, λ (m, ne). mem-retain id r.entries x m ne),
  )

-- ===== src/Python/Delivery.antt =====
-- integrations/python/integration.rs: what becomes of the messages that wait for a callback.
use jackfield.Common.{
  ◌≡◌, refl, sym, ap, ◌∙◌, subst, ◌⊎◌, inl, inr, List, [], ◌∷◌, ◌++◌, String, Option, none, some,
  Option-cases, Bool-cases, str_eq, arith, eq_iff,
}
use jackfield.Platform.{Platform}
use jackfield.Platform.Double.{Double}
use jackfield.Message.{Message, boxed}
use jackfield.Message
use jackfield.Producer.{Sender, ProducerHandle, try_make_send, make_handle}
use jackfield.Python.{
  Held, rebuild, Queue, call_all, drain_queue, drain_queues, first_of, find_handle, py_send,
}

module _ ⦃p : Platform⦄ {Error S : Type 0} where
  -- The callback is called with each message in turn and raises nothing.
  abbrev pub call_each : Queue Error S → List Held → S → Option S
  call_each q [] s = some s
  call_each q (m ∷ ms) s =
      let (error, s') = q.callback (rebuild m) s in
      elim error [ none ↦ call_each q ms s' | some e ↦ none ]

  -- How a queue is worked off: of its messages those of done are delivered, in order, and those of
  -- left are not.
  pub record Worked (q : Queue Error S) (ms : List Held) (s : S) (result : Option Error × S)
      : Type 0 where
    pub done : List Held
    pub left : List Held
    pub parts : done ++ left ≡ ms
    pub mid : S
    pub delivered : call_each q done s ≡ some mid
    pub end :
        ((left ≡ []) × (result ≡ (none, mid)))
        ⊎ ((m : Held) × (rest : List Held) × (e : Error) × (s' : S) × (left ≡ m ∷ rest)
            × (q.callback (rebuild m) mid ≡ (some e, s'))
            × (result ≡ (some e, q.pending.put (q.pending.get s' ++ left) s')))

  pub answer-cases :
      (answer : Option Error × S)
      → ((s' : S) × (answer ≡ (none, s'))) ⊎ ((e : Error) × (s' : S) × (answer ≡ (some e, s')))
  answer-cases (none, s') = inl (s', refl)
  answer-cases (some e, s') = inr (e, s', refl)

  pub call_all_pass :
      (q : Queue Error S) (m : Held) (ms : List Held) (s s' : S)
      → q.callback (rebuild m) s ≡ (none, s')
      → (call_all q (m ∷ ms) s ≡ call_all q ms s')
        × ((l : List Held) → call_each q (m ∷ l) s ≡ call_each q l s')
  unfolding call_all
  call_all_pass q m ms s s' h = (
    ap
        (λ (x : Option Error × S). elim x.0 as (λ o. Option Error × S) [
          | none ↦ call_all q ms x.1
          | some e ↦ (some e, q.pending.put (q.pending.get x.1 ++ m ∷ ms) x.1)
        ])
        h,
    λ l.
        ap
          (λ (x : Option Error × S). elim x.0 as (λ o. Option S) [
            | none ↦ call_each q l x.1
            | some e ↦ none
          ])
          h,
  )

  pub call_all_fail :
      (q : Queue Error S) (m : Held) (ms : List Held) (s s' : S) (e : Error)
      → q.callback (rebuild m) s ≡ (some e, s')
      → call_all q (m ∷ ms) s ≡ (some e, q.pending.put (q.pending.get s' ++ m ∷ ms) s')
  unfolding call_all
  call_all_fail q m ms s s' e h =
      ap
        (λ (x : Option Error × S). elim x.0 as (λ o. Option Error × S) [
          | none ↦ call_all q ms x.1
          | some e ↦ (some e, q.pending.put (q.pending.get x.1 ++ m ∷ ms) x.1)
        ])
        h

  call_all-Worked : (q : Queue Error S) (ms : List Held) (s : S) → Worked q ms s (call_all q ms s)
  unfolding call_all
  call_all-Worked q [] s = record {
    done = [];
    left = [];
    parts = refl;
    mid = s;
    delivered = refl;
    end = inl (refl, refl);
  }
  call_all-Worked q (m ∷ ms) s = elim (answer-cases (q.callback (rebuild m) s)) [
    | inl (s', h) ↦
        let (next, calls) = call_all_pass q m ms s s' h in
        let w = call_all-Worked q ms s' in
        subst (Worked q (m ∷ ms) s) (sym next) (record {
          done = m ∷ w.done;
          left = w.left;
          parts = ap (λ l. m ∷ l) w.parts;
          mid = w.mid;
          delivered = calls w.done ∙ w.delivered;
          end = w.end;
        })
    | inr (e, s', h) ↦ subst (Worked q (m ∷ ms) s) (sym (call_all_fail q m ms s s' e h)) (record {
      done = [];
      left = m ∷ ms;
      parts = refl;
      mid = s;
      delivered = refl;
      end = inr (m, ms, e, s', refl, h, refl);
    })
  ]

  -- A drained queue gives its messages to the callback in order. Either all are delivered, or the
  -- callback raises at one: then this one and all behind it are put back, in order, behind
  -- whatever has come in meanwhile, and the exception is the result. No message is lost.
  pub drain_queue-Worked :
      (q : Queue Error S) (s : S)
      → Worked q (q.pending.get s) (q.pending.put [] s) (drain_queue q s)
  unfolding drain_queue
  drain_queue-Worked q s = call_all-Worked q (q.pending.get s) (q.pending.put [] s)

abbrev pub head? : {A : Type 0} → List A → Option A
head? [] = none
head? (a ∷ rest) = some a

abbrev cons_some : {A : Type 0} → Option A → List A → List A
cons_some none rest = rest
cons_some (some a) rest = a ∷ rest

first_of-head? :
    {A : Type 0} (a b : Option A) (rest : List A)
    → first_of (first_of a b) (head? rest) ≡ first_of a (head? (cons_some b rest))
first_of-head? none none rest = refl
first_of-head? none (some b) rest = refl
first_of-head? (some a) b rest = refl

first_of-none : {A : Type 0} (a : Option A) → first_of a none ≡ a
first_of-none none = refl
first_of-none (some a) = refl

module _ ⦃p : Platform⦄ {Error S : Type 0} where
  -- All queues drained in turn: every exception, in order, and the world afterwards.
  abbrev pub exceptions : List (Queue Error S) → S → List Error
  exceptions [] s = []
  exceptions (q ∷ qs) s = cons_some (drain_queue q s).0 (exceptions qs (drain_queue q s).1)

  abbrev pub all_drained : List (Queue Error S) → S → S
  all_drained [] s = s
  all_drained (q ∷ qs) s = all_drained qs (drain_queue q s).1

  pub drain_queues-first :
      (first : Option Error) (qs : List (Queue Error S)) (s : S)
      → drain_queues first qs s ≡ (first_of first (head? (exceptions qs s)), all_drained qs s)
  unfolding drain_queues
  drain_queues-first first [] s = ap (λ e. (e, s)) (sym (first_of-none first))
  drain_queues-first first (q ∷ qs) s =
      drain_queues-first (first_of first (drain_queue q s).0) qs (drain_queue q s).1
      ∙ ap (λ e. (e, all_drained qs (drain_queue q s).1))
          (first_of-head? first (drain_queue q s).0 (exceptions qs (drain_queue q s).1))

  -- An exception in one queue does not keep the others from being drained, and of several
  -- exceptions the first is the result.
  pub drain_queues-head? :
      (qs : List (Queue Error S)) (s : S)
      → drain_queues none qs s ≡ (head? (exceptions qs s), all_drained qs s)
  drain_queues-head? qs s = drain_queues-first none qs s

module _ ⦃p : Platform⦄ ⦃d : Double⦄ {S : Type 0} where
  -- Each handle is the one that the bus makes for its name.
  abbrev pub AllMade : Sender S → List (String × ProducerHandle S) → Type 0
  AllMade tx [] = Unit
  AllMade tx ((name, h) ∷ handles) = (h ≡ make_handle tx name) × AllMade tx handles

  find_handle-made :
      (tx : Sender S) (name : String) (handles : List (String × ProducerHandle S))
      (h : ProducerHandle S)
      → AllMade tx handles
      → find_handle name handles ≡ some h
      → h ≡ make_handle tx name
  find_handle-made tx name [] h made f = cc
  find_handle-made tx name ((key, k) ∷ handles) h made f = elim (Bool-cases (str_eq key name)) [
    | inl same ↦
        let chosen : k ≡ h = ground (arith, rw (find_handle, same) at f) in
        sym chosen ∙ made.0 ∙ ap (make_handle tx) ((eq_iff key name).0 same)
    | inr apart ↦ find_handle-made tx name handles h made.1 (rw (find_handle, apart) at f)
  ]

  -- `send` is `try_make_send` of the same uuid, labels and bytes through a handle of the bus under
  -- the producer's name, whatever was sent before, and keeps its table of handles so.
  pub py_send_lem :
      (tx : Sender S) (handles : List (String × ProducerHandle S)) (name : String) (msg : Message)
      (s : S)
      → AllMade tx handles
      → let (result, handles') = py_send tx handles name msg s in
        (result ≡ try_make_send (make_handle tx name) msg s) × AllMade tx handles'
  unfolding py_send rebuild Message.new boxed
  py_send_lem tx handles name msg s made = elim (Option-cases (find_handle name handles)) [
    | inl missing ↦ rw (py_send, missing) (refl, (refl, made))
    | inr (h, f) ↦
        rw (py_send, f)
          (ap (λ k. try_make_send k msg s) (find_handle-made tx name handles h made f), made)
  ]

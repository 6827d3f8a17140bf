-- ===== src/Python/Callbacks.antt =====
-- integrations/python/integration.rs: what the callbacks get of the messages in the queues, and what
-- stays there.
use mathlib.Mathlib.Data.Multiset.Defs.{Multiset, of_list}
use mathlib.Mathlib.Data.Multiset.AddSub.{add, add_assoc, zero-add}
use mathlib.Core.Path.{ap₂}
use jackfield.Common.{
  ◌≡◌, refl, sym, ap, ◌∙◌, inl, inr, List, [], ◌∷◌, ◌++◌, Memᴰ, Option, none, some,
}
use jackfield.Platform.{Platform}
use jackfield.Message.{Message}
use jackfield.Python.{Held, rebuild, Queue, call_all, drain_queue}
use jackfield.Python.Delivery.{answer-cases, call_all_pass, call_all_fail, all_drained}
use jackfield.Python.Stock.{queued, Separate, queued-Unseen, queued-put, queued-behind}

module _ ⦃p : Platform⦄ {Error S : Type 0} where
  -- The messages at which the callback raises nothing, up to the first at which it does.
  abbrev pub passed : Queue Error S → List Held → S → List Held
  passed q [] s = []
  passed q (m ∷ ms) s =
      let (error, s') = q.callback (rebuild m) s in
      let later = passed q ms s' in elim error [ none ↦ m ∷ later | some e ↦ [] ]

  abbrev pub passed_all : List (Queue Error S) → S → List Held
  passed_all [] s = []
  passed_all (q ∷ qs) s =
      passed q (q.pending.get s) (q.pending.put [] s) ++ passed_all qs (drain_queue q s).1

  -- The callback does not reach into the queues; it may send to the bus.
  abbrev pub Outside : List (Queue Error S) → Queue Error S → Type 0
  Outside qs q =
      (m : Message) (s : S) (q' : Queue Error S)
      → Memᴰ q' qs
      → q'.pending.get (q.callback m s).1 ≡ q'.pending.get s

  passed_pass :
      (q : Queue Error S) (m : Held) (ms : List Held) (s s' : S)
      → q.callback (rebuild m) s ≡ (none, s')
      → passed q (m ∷ ms) s ≡ m ∷ passed q ms s'
  passed_pass q m ms s s' h =
      ap
        (λ (x : Option Error × S). elim x.0 as (λ o. List Held) [
          | none ↦ m ∷ passed q ms x.1
          | some e ↦ []
        ])
        h

  passed_fail :
      (q : Queue Error S) (m : Held) (ms : List Held) (s s' : S) (e : Error)
      → q.callback (rebuild m) s ≡ (some e, s')
      → passed q (m ∷ ms) s ≡ []
  passed_fail q m ms s s' e h =
      ap
        (λ (x : Option Error × S). elim x.0 as (λ o. List Held) [
          | none ↦ m ∷ passed q ms x.1
          | some e ↦ []
        ])
        h

  queued-callback :
      (qs : List (Queue Error S)) (q : Queue Error S) (m : Held) (s : S) (result : Option Error × S)
      → Outside qs q
      → q.callback (rebuild m) s ≡ result
      → queued qs result.1 ≡ queued qs s
  queued-callback qs q m s result out h =
      queued-Unseen qs s result.1
        (λ q' n. ap (λ (x : Option Error × S). q'.pending.get x.1) (sym h) ∙ out (rebuild m) s q' n)

  call_all-queued :
      (qs : List (Queue Error S)) (q : Queue Error S) (ms : List Held) (s : S)
      → Separate qs
      → Memᴰ q qs
      → Outside qs q
      → add (of_list (passed q ms s)) (queued qs (call_all q ms s).1)
        ≡ add (of_list ms) (queued qs s)
  unfolding call_all
  call_all-queued qs q [] s sep m out = refl
  call_all-queued qs q (x ∷ ms) s sep m out = elim (answer-cases (q.callback (rebuild x) s)) [
    | inl (s', h) ↦
        let head : Multiset Held = of_list (x ∷ []) in
        let (next, _) = call_all_pass q x ms s s' h in
        ap₂ (λ d w. add (of_list d) (queued qs w)) (passed_pass q x ms s s' h)
          (ap (λ (r : Option Error × S). r.1) next)
        ∙ add_assoc head (of_list (passed q ms s')) (queued qs (call_all q ms s').1)
        ∙ ap (add head) (call_all-queued qs q ms s' sep m out)
        ∙ sym (add_assoc head (of_list ms) (queued qs s'))
        ∙ ap (add (of_list (x ∷ ms))) (queued-callback qs q x s (none, s') out h)
    | inr (e, s', h) ↦
        let back = q.pending.put (q.pending.get s' ++ x ∷ ms) s' in
        ap₂ (λ d w. add (of_list d) (queued qs w)) (passed_fail q x ms s s' e h)
          (ap (λ (r : Option Error × S). r.1) (call_all_fail q x ms s s' e h))
        ∙ zero-add (queued qs back)
        ∙ queued-behind qs q (x ∷ ms) s' sep m
        ∙ ap (add (of_list (x ∷ ms))) (queued-callback qs q x s (some e, s') out h)
  ]

  drain_queue-queued :
      (qs : List (Queue Error S)) (q : Queue Error S) (s : S)
      → Separate qs
      → Memᴰ q qs
      → Outside qs q
      → add
          (of_list (passed q (q.pending.get s) (q.pending.put [] s)))
          (queued qs (drain_queue q s).1)
        ≡ queued qs s
  unfolding drain_queue
  drain_queue-queued qs q s sep m out =
      call_all-queued qs q (q.pending.get s) (q.pending.put [] s) sep m out
      ∙ queued-put qs q [] s sep m
      ∙ zero-add (queued qs s)

  -- Of what waits in the queues, the callbacks get some, and the rest stays.
  pub all_drained-queued :
      (qs drained : List (Queue Error S)) (s : S)
      → Separate qs
      → ((q : Queue Error S) → Memᴰ q drained → Memᴰ q qs × Outside qs q)
      → add (of_list (passed_all drained s)) (queued qs (all_drained drained s)) ≡ queued qs s
  all_drained-queued qs [] s sep each = zero-add (queued qs s)
  all_drained-queued qs (q ∷ rest) s sep each =
      let (m, out) = each q (Memᴰ.head refl) in
      let first = of_list (passed q (q.pending.get s) (q.pending.put [] s)) in
      let s' = (drain_queue q s).1 in
      add_assoc first (of_list (passed_all rest s')) (queued qs (all_drained rest s'))
      ∙ ap (add first) (all_drained-queued qs rest s' sep (λ q' n. each q' (Memᴰ.tail n)))
      ∙ drain_queue-queued qs q s sep m out

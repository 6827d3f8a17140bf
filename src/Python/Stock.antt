-- ===== src/Python/Stock.antt =====
-- integrations/python/integration.rs: the messages that wait in the queues of a Python bus, as a
-- multiset: in which queue and in which order they wait is forgotten.
use mathlib.Mathlib.Data.Multiset.Defs.{Multiset, of_list}
use mathlib.Mathlib.Data.Multiset.ZeroCons.{zero}
use mathlib.Mathlib.Data.Multiset.AddSub.{add, add_comm, add_assoc, add_right_inj}
use mathlib.Core.Path.{ap₂}
use jackfield.Common.{◌≡◌, refl, sym, ap, ◌∙◌, subst, List, [], ◌∷◌, ◌++◌, Memᴰ}
use jackfield.Platform.{Platform}
use jackfield.Python.{Held, Queue}

pub swap_left {ℓ} : {A : Type ℓ} (s t u : Multiset A) → add s (add t u) ≡ add t (add s u)
swap_left s t u = sym (add_assoc s t u) ∙ ap (λ x. add x u) (add_comm s t) ∙ add_assoc t s u

-- Two loops, one after the other.
pub add-chain {ℓ} :
    {A : Type ℓ} (l l' es es' : List A) (s t u : Multiset A)
    → add (of_list l) t ≡ add (of_list es) s
    → add (of_list l') u ≡ add (of_list es') t
    → add (of_list (l ++ l')) u ≡ add (of_list (es ++ es')) s
add-chain l l' es es' s t u h h' =
    add_assoc (of_list l) (of_list l') u
    ∙ ap (add (of_list l)) h'
    ∙ swap_left (of_list l) (of_list es') t
    ∙ ap (add (of_list es')) h
    ∙ swap_left (of_list es') (of_list es) s
    ∙ sym (add_assoc (of_list es) (of_list es') s)

module _ ⦃p : Platform⦄ {Error S : Type 0} where
  abbrev pub queued : List (Queue Error S) → S → Multiset Held
  queued [] s = zero
  queued (q ∷ qs) s = add (of_list (q.pending.get s)) (queued qs s)

  -- What is put into a queue leaves another as it is.
  pub record IsOther (q q' : Queue Error S) : Type 0 where
    pub left : (l : List Held) (s : S) → q.pending.get (q'.pending.put l s) ≡ q.pending.get s
    pub right : (l : List Held) (s : S) → q'.pending.get (q.pending.put l s) ≡ q'.pending.get s

  -- Each queue is a place of its own in the world.
  abbrev pub Separate : List (Queue Error S) → Type 0
  Separate [] = Unit
  Separate (q ∷ qs) =
      ((l : List Held) (s : S) → q.pending.get (q.pending.put l s) ≡ l)
      × ((q' : Queue Error S) → Memᴰ q' qs → IsOther q q')
      × Separate qs

  -- Nothing that f does is seen in the queues.
  abbrev pub Unseen : List (Queue Error S) → (S → S) → Type 0
  Unseen qs f = (q : Queue Error S) → Memᴰ q qs → (s : S) → q.pending.get (f s) ≡ q.pending.get s

  pub queued-Unseen :
      (qs : List (Queue Error S)) (s s' : S)
      → ((q : Queue Error S) → Memᴰ q qs → q.pending.get s' ≡ q.pending.get s)
      → queued qs s' ≡ queued qs s
  queued-Unseen [] s s' h = refl
  queued-Unseen (q ∷ qs) s s' h =
      ap₂ (λ l m. add (of_list l) m) (h q (Memᴰ.head refl))
        (queued-Unseen qs s s' (λ q' m. h q' (Memᴰ.tail m)))

  -- To put l into a queue is to exchange its messages for those of l.
  pub queued-put :
      (qs : List (Queue Error S)) (q : Queue Error S) (l : List Held) (s : S)
      → Separate qs
      → Memᴰ q qs
      → add (of_list (q.pending.get s)) (queued qs (q.pending.put l s))
        ≡ add (of_list l) (queued qs s)
  queued-put [] q l s sep m = elim m [ ]
  queued-put (q₀ ∷ qs) q l s sep (Memᴰ.head e) =
      let own = of_list (q₀.pending.get s) in
      subst
        (λ x.
          add (of_list (x.pending.get s)) (queued (q₀ ∷ qs) (x.pending.put l s))
          ≡ add (of_list l) (queued (q₀ ∷ qs) s))
        (sym e)
        (ap₂ (λ x y. add own (add (of_list x) y)) (sep.0 l s)
            (queued-Unseen qs s (q₀.pending.put l s) (λ q' m. (sep.1 q' m).right l s))
          ∙ swap_left own (of_list l) (queued qs s))
  queued-put (q₀ ∷ qs) q l s sep (Memᴰ.tail m) =
      let own = of_list (q.pending.get s) in
      let first = of_list (q₀.pending.get s) in
      ap (λ x. add own (add (of_list x) (queued qs (q.pending.put l s)))) ((sep.1 q m).left l s)
      ∙ swap_left own first (queued qs (q.pending.put l s))
      ∙ ap (add first) (queued-put qs q l s sep.2 m)
      ∙ swap_left first (of_list l) (queued qs s)

  -- What is put behind the messages of a queue is all that is new.
  pub queued-behind :
      (qs : List (Queue Error S)) (q : Queue Error S) (ms : List Held) (s : S)
      → Separate qs
      → Memᴰ q qs
      → queued qs (q.pending.put (q.pending.get s ++ ms) s) ≡ add (of_list ms) (queued qs s)
  queued-behind qs q ms s sep m =
      let own = of_list (q.pending.get s) in
      let l = q.pending.get s ++ ms in
      (add_right_inj own (queued qs (q.pending.put l s)) (add (of_list ms) (queued qs s))).0
        (queued-put qs q l s sep m ∙ add_assoc own (of_list ms) (queued qs s))

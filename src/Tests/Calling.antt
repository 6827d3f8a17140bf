-- ===== src/Tests/Calling.antt =====
-- integrations/python/integration.rs: two queues at the desk.
use jackfield.Common.{
  ℕ, ◌+◌, ◌≡◌, refl, List, [], ◌∷◌, Option, none, some, String, ◌==◌, if◌then◌else◌,
}
use jackfield.Platform.Sample.{sample}
use jackfield.Platform.SampleDouble.{sample_double}
use jackfield.Python.{Held, Queue, drain_queues}

-- What waits for the two callbacks, and how many calls there were.
record Shelf : Type 0 where
  left : List Held
  right : List Held
  calls : ℕ

-- The left callback raises on the second call.
abbrev second_fails : ℕ → Option String
second_fails calls = if calls == 1 then some "raised" else none

abbrev left_queue : Queue String Shelf
left_queue = record {
  callback = λ m s. (second_fails s.calls, record s { calls = s.calls + 1 });
  pending = record { get = λ s. s.left; put = λ l s. record s { left = l } };
}

abbrev right_queue : Queue String Shelf
right_queue = record {
  callback = λ m s. (none, record s { calls = s.calls + 1 });
  pending = record { get = λ s. s.right; put = λ l s. record s { right = l } };
}

abbrev held : ℕ → Held
held n = record { uuid = n; labels = []; bytes = [] }

abbrev shelf : Shelf
shelf = record { left = held 1 ∷ held 2 ∷ held 3 ∷ []; right = held 4 ∷ []; calls = 0 }

-- The message that failed and the one behind it are put back; the other queue is emptied.
requeued_test :
    drain_queues none (left_queue ∷ right_queue ∷ []) shelf
    ≡ (some "raised", record { left = held 2 ∷ held 3 ∷ []; right = []; calls = 3 })
unfolding drain_queues
requeued_test = refl

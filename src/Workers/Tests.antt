-- ===== src/Workers/Tests.antt =====
-- A pool of two workers that is started, given a task, and stopped.
use magpie_db.Common.{ℕ, ◌≡◌, refl, true, false, List, [], ◌∷◌, arith, ℕ-Eq, GoString-Eq, All}
use magpie_db.Workers.{
  Worker, Stopper, Pool, new_worker_pool, start, begin_stop, begin_submit, receive, cancels, closes,
  sends, starts, begins_stop, begins_submit, works, stops, submits, Steps, none_more, and_then,
}
use magpie_db.Workers.Stopping.{stop_returns, submit_panics}

abbrev started : Pool ℕ
started = (start (new_worker_pool 2)).1

started-Steps : Steps (new_worker_pool 2) started
unfolding new_worker_pool
started-Steps = and_then none_more (starts refl)

-- Task 7 is accepted, and the first worker receives it.
abbrev received_one : Pool ℕ
received_one = record {
  num_workers = 2;
  running = true;
  cancelled = false;
  closed = false;
  panicked = false;
  tasks = [];
  workers = Worker.executing 7 ∷ Worker.selecting ∷ [];
  stops = [];
  sends = [];
  accepted = 7 ∷ [];
  received = 7 ∷ [];
}

received_one-Steps : Steps (new_worker_pool 2) received_one
unfolding new_worker_pool start begin_submit
received_one-Steps =
    and_then
      (and_then (and_then started-Steps (begins_submit 7 refl))
        (submits [] [] refl refl (sends refl (omega arith))))
      (works [] (Worker.selecting ∷ []) refl refl (receive 7 [] refl))

-- The pool in which a call of Stop waits, with a worker that is executing the task.
abbrev stop_waits : Pool ℕ
stop_waits = record received_one {
  running = false;
  cancelled = true;
  closed = true;
  stops = Stopper.waiting ∷ [];
}

stop_waits-Steps : Steps (new_worker_pool 2) stop_waits
unfolding begin_stop
stop_waits-Steps =
    and_then
      (and_then (and_then received_one-Steps (begins_stop refl)) (stops [] [] refl refl cancels))
      (stops [] [] refl refl (closes refl))

stop_returns_example :
    (ws : List (Worker ℕ)) × All (λ w. w ≡ Worker.exited) ws
    × Steps stop_waits (record stop_waits { workers = ws; stops = Stopper.returned ∷ [] })
stop_returns_example = stop_returns 2 [] [] stop_waits-Steps refl refl

submit_panics_example : (p' : Pool ℕ) × Steps received_one p' × (p'.panicked ≡ true)
submit_panics_example = submit_panics 8 received_one refl refl refl

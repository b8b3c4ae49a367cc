-- ===== src/Workers.antt =====
-- The worker pool of workers.go: `Start`, `Stop`, `SubmitTask` and the goroutines of `worker`,
-- interleaved in any order, one critical section or channel operation at a time. A `select` with
-- several ready cases may take any of them; a send on a closed channel is ready, and panics.
pub mod Order
pub mod Stopping
mod Tests
use magpie_db.Common.{
  ℕ, zero, suc, ◌+◌, ◌-◌, ◌*◌, ◌/◌, ◌%◌, ◌^◌, ◌≤◌, ◌<◌, ◌≡◌, refl, sym, ap, ◌∙◌, fun_ext, ◌≢◌, ◌↔◌,
  ◌⊎◌, inl, inr, Bool, true, false, not, ◌&&◌, ◌||◌, Option, none, some, List, [], ◌∷◌, ◌++◌, map,
  arith, ltb, leb, if◌then◌else◌, ltb→lt, lt→ltb, leb→le, le→leb, nat_eq, nat_eq_iff, Bool-cases,
  Option-cases, GoString, string_eq, string_eq_iff, Eq, ◌==◌, eq_refl, eq_false, ℕ-Eq, GoString-Eq,
  length, get_elem?, take, drop, replicate, All, length-append, length-take, length-drop,
  length-replicate, take-append_length, drop-append_length, take_all, take-append-drop, length-map,
  Error, Result, ok, err, panic, ◌>>=◌, ◌>>◌, reject, in_range, >>=-eq-ok, Result-cases, codes,
}

-- A worker goroutine: in its `select`, in `task.Execute`, or returned.
pub data Worker (T : Type 0) : Type 0 where
  selecting : Worker T
  executing : T → Worker T
  exited : Worker T

-- A call of `Stop` behind its critical section: before `cancel`, before `close`, in `wg.Wait`, or
-- returned.
pub data Stopper : Type 0 where
  to_cancel to_close waiting returned : Stopper

-- `WorkerPool`. `cancelled` says whether `ctx.Done()` is closed, and `closed` whether `tasks` is;
-- `workers`, `stops` and `sends` are the goroutines, the calls of `Stop`, and the calls of
-- `SubmitTask` that are in their `select`. `accepted` and `received` record what was sent and received.
pub record Pool (T : Type 0) : Type 0 where
  pub num_workers : ℕ
  pub running : Bool
  pub cancelled : Bool
  pub closed : Bool
  pub panicked : Bool
  pub tasks : List T
  pub workers : List (Worker T)
  pub stops : List Stopper
  pub sends : List T
  pub accepted : List T
  pub received : List T

-- The capacity of the channel.
abbrev pub capacity : ℕ
capacity = 100

module _ {T : Type 0} where
  -- `NewWorkerPool`
  unfoldable pub new_worker_pool : ℕ → Pool T
  new_worker_pool n = record {
    num_workers = n;
    running = false;
    cancelled = false;
    closed = false;
    panicked = false;
    tasks = [];
    workers = [];
    stops = [];
    sends = [];
    accepted = [];
    received = [];
  }

  -- `Start`
  unfoldable pub start : Pool T → Result (Unit {0}) × Pool T
  start p = if p.running then (err Error.pool_running, p) else (
    ok tt,
    record p { running = true; workers = p.workers ++ replicate p.num_workers Worker.selecting },
  )

  -- The critical section of `Stop`, which returns at once when the pool is not running.
  unfoldable pub begin_stop : Pool T → Pool T
  begin_stop p =
      if p.running then record p { running = false; stops = Stopper.to_cancel ∷ p.stops } else p

  -- `SubmitTask` up to its `select`.
  unfoldable pub begin_submit : T → Pool T → Result (Unit {0}) × Pool T
  begin_submit task p =
      if p.running
      then (ok tt, record p { sends = task ∷ p.sends })
      else (err Error.pool_not_running, p)

-- What one worker does: `p` is the pool before, and the last index the pool behind it.
pub data Work {T : Type 0} (p : Pool T) : Worker T → Worker T → Pool T → Type 0 where
  receive :
      (task : T) (rest : List T)
      → p.tasks ≡ task ∷ rest
      → Work p Worker.selecting
          (Worker.executing task)
          (record p { tasks = rest; received = p.received ++ (task ∷ []) })
  drained : p.tasks ≡ [] → p.closed ≡ true → Work p Worker.selecting Worker.exited p
  quits : p.cancelled ≡ true → Work p Worker.selecting Worker.exited p
  finishes : (task : T) → Work p (Worker.executing task) Worker.selecting p

-- What one call of `Stop` does behind its critical section.
pub data Stops {T : Type 0} (p : Pool T) : Stopper → Stopper → Pool T → Type 0 where
  cancels : Stops p Stopper.to_cancel Stopper.to_close (record p { cancelled = true })
  closes : p.closed ≡ false → Stops p Stopper.to_close Stopper.waiting (record p { closed = true })
  closes_twice :
      p.closed ≡ true → Stops p Stopper.to_close Stopper.to_close (record p { panicked = true })
  returns : All (λ w. w ≡ Worker.exited) p.workers → Stops p Stopper.waiting Stopper.returned p

-- How the `select` of `SubmitTask` ends.
pub data Sends {T : Type 0} (p : Pool T) (task : T) : Pool T → Type 0 where
  sends :
      p.closed ≡ false
      → length p.tasks < capacity
      → Sends p task
          (record p { tasks = p.tasks ++ (task ∷ []); accepted = p.accepted ++ (task ∷ []) })
  sends_closed : p.closed ≡ true → Sends p task (record p { panicked = true })
  gives_up : p.cancelled ≡ true → Sends p task p

-- One step of anyone. Nothing happens after a panic.
pub data Step {T : Type 0} (p : Pool T) : Pool T → Type 0 where
  starts : p.panicked ≡ false → Step p (start p).1
  begins_stop : p.panicked ≡ false → Step p (begin_stop p)
  begins_submit : (task : T) → p.panicked ≡ false → Step p (begin_submit task p).1
  works :
      {p' : Pool T} {w w' : Worker T} (before after : List (Worker T))
      → p.panicked ≡ false
      → p.workers ≡ before ++ (w ∷ after)
      → Work p w w' p'
      → Step p (record p' { workers = before ++ (w' ∷ after) })
  stops :
      {p' : Pool T} {c c' : Stopper} (before after : List Stopper)
      → p.panicked ≡ false
      → p.stops ≡ before ++ (c ∷ after)
      → Stops p c c' p'
      → Step p (record p' { stops = before ++ (c' ∷ after) })
  submits :
      {p' : Pool T} {task : T} (before after : List T)
      → p.panicked ≡ false
      → p.sends ≡ before ++ (task ∷ after)
      → Sends p task p'
      → Step p (record p' { sends = before ++ after })

-- Any number of steps.
pub data Steps {T : Type 0} (p : Pool T) : Pool T → Type 0 where
  none_more : Steps p p
  and_then : {p' p'' : Pool T} → Steps p p' → Step p' p'' → Steps p p''

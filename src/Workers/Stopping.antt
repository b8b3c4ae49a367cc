-- ===== src/Workers/Stopping.antt =====
-- `Stop` can always return; and what can go wrong around it.
use magpie_db.Common.{
  ℕ, ◌≡◌, refl, sym, ap, Bool, true, false, List, [], ◌∷◌, ◌++◌, if◌then◌else◌, ℕ-Eq, GoString-Eq,
  All, Error, Result, ok, err,
}
use mathlib.Core.List.{append_assoc}
use mathlib.Core.Path.{subst}
use magpie_db.Workers.{
  Worker, Stopper, Pool, new_worker_pool, begin_stop, begin_submit, quits, finishes, cancels,
  closes, returns, sends_closed, begins_stop, begins_submit, works, stops, submits, Steps,
  none_more, and_then,
}
use magpie_db.Workers.Order.{HasCancelled, All-middle, reached-IsSound}

if_true : {A : Type 0} (b : Bool) (x y : A) → b ≡ true → (if b then x else y) ≡ x
if_true b x y h = ap (λ (c : Bool). if c then x else y) h

all_exited : {T : Type 0} → List (Worker T) → List (Worker T)
all_exited [] = []
all_exited (w ∷ ws) = Worker.exited ∷ all_exited ws

all_exited-All : {T : Type 0} (ws : List (Worker T)) → All (λ w. w ≡ Worker.exited) (all_exited ws)
unfolding all_exited
all_exited-All [] = tt
all_exited-All (w ∷ ws) = (refl, all_exited-All ws)

module _ {T : Type 0} where
  follow : {p q r : Pool T} → Steps p q → Steps q r → Steps p r
  follow first none_more = first
  follow first (and_then before one) = and_then (follow first before) one

  -- One worker leaves, with the context cancelled, whatever it is doing.
  one_exits :
      (p : Pool T) (before : List (Worker T)) (w : Worker T) (after : List (Worker T))
      → p.panicked ≡ false
      → p.cancelled ≡ true
      → p.workers ≡ before ++ (w ∷ after)
      → Steps p (record p { workers = before ++ (Worker.exited ∷ after) })
  one_exits p before Worker.selecting after calm done h =
      and_then none_more (works before after calm h (quits done))
  one_exits p before (Worker.executing task) after calm done h =
      and_then (and_then none_more (works before after calm h (finishes task)))
        (works before after calm refl (quits done))
  one_exits p before Worker.exited after calm done h =
      subst (λ (ws : List (Worker T)). Steps p (record p { workers = ws })) h none_more

  exit_all :
      (p : Pool T) (before ws : List (Worker T))
      → p.panicked ≡ false
      → p.cancelled ≡ true
      → p.workers ≡ before ++ ws
      → Steps p (record p { workers = before ++ all_exited ws })
  unfolding all_exited
  exit_all p before [] calm done h =
      subst (λ (ws : List (Worker T)). Steps p (record p { workers = ws })) h none_more
  exit_all p before (w ∷ ws) calm done h =
      let p1 : Pool T = record p { workers = before ++ (Worker.exited ∷ ws) } in
      let rest =
        exit_all p1 (before ++ (Worker.exited ∷ [])) ws calm done
          (sym (append_assoc before (Worker.exited ∷ []) ws)) in
      follow (one_exits p before w ws calm done h) (
        subst (λ (xs : List (Worker T)). Steps p1 (record p1 { workers = xs }))
          (append_assoc before (Worker.exited ∷ []) (all_exited ws)) rest)

  -- A call of Stop that waits can return: in every state that a new pool reaches without a panic, in
  -- which a call of Stop is in wg.Wait, there are further steps, of the workers and that call alone,
  -- after which all workers have returned and that call has, with all else as it was. Tasks that are
  -- executing return in the end.
  pub stop_returns :
      (n : ℕ) {p : Pool T} (before after : List Stopper)
      → Steps (new_worker_pool n) p
      → p.panicked ≡ false
      → p.stops ≡ before ++ (Stopper.waiting ∷ after)
      → (ws : List (Worker T)) × All (λ w. w ≡ Worker.exited) ws
        × Steps p (record p { workers = ws; stops = before ++ (Stopper.returned ∷ after) })
  stop_returns n {p} before after reached calm h =
      let s = reached-IsSound n reached in
      let done =
        All-middle (HasCancelled p.cancelled) before Stopper.waiting after
          (rw h at s.stops_cancelled) in
      let ws = all_exited p.workers in
      (
        ws,
        all_exited-All p.workers,
        and_then (exit_all p [] p.workers calm done refl)
            (stops before after calm h (returns (all_exited-All p.workers))),
      )

  -- SubmitTask and Stop can panic together: from every state without a panic in which the pool runs
  -- and its channel is open, there are steps in which SubmitTask sees the pool running, Stop closes
  -- the channel, and the send on it panics.
  pub submit_panics :
      (task : T) (p : Pool T)
      → p.panicked ≡ false
      → p.running ≡ true
      → p.closed ≡ false
      → (p' : Pool T) × Steps p p' × (p'.panicked ≡ true)
  unfolding begin_stop begin_submit
  submit_panics task p calm on is_open =
      let q1 : Pool T = record p { sends = task ∷ p.sends } in
      let q2 : Pool T = record q1 { running = false; stops = Stopper.to_cancel ∷ p.stops } in
      let seen : Steps p q1 =
        subst (λ (x : Result (Unit {0}) × Pool T). Steps p x.1)
          (if_true {A = Result (Unit {0}) × Pool T} p.running (ok tt, q1)
            (err Error.pool_not_running, p) on)
          (and_then none_more (begins_submit task calm)) in
      let stopping : Steps p q2 =
        subst (Steps p) (if_true p.running q2 q1 on) (and_then seen (begins_stop calm)) in
      let closed =
        and_then (and_then stopping (stops [] p.stops calm refl cancels))
          (stops [] p.stops calm refl (closes is_open)) in
      (_, and_then closed (submits [] p.sends calm refl (sends_closed refl)), refl)

-- ===== src/Workers/Order.antt =====
-- What holds in every state that a pool reaches.
use magpie_db.Common.{
  if_either, ℕ, ◌≤◌, ◌≡◌, refl, sym, ap, ◌∙◌, Bool, true, List, [], ◌∷◌, ◌++◌, arith, ℕ-Eq,
  GoString-Eq, length, All, length-append, Result,
}
use mathlib.Core.List.{append_assoc}
use magpie_db.Workers.{
  Worker, Stopper, Pool, capacity, new_worker_pool, start, begin_stop, begin_submit, Work, receive,
  drained, quits, finishes, Stops, cancels, closes, closes_twice, returns, Sends, sends,
  sends_closed, gives_up, Step, starts, begins_stop, begins_submit, works, stops, submits, Steps,
  none_more, and_then,
}

-- A call of `Stop` that has cancelled the context.
abbrev pub HasCancelled : Bool → Stopper → Type 0
HasCancelled cancelled Stopper.to_cancel = Unit
HasCancelled cancelled _ = cancelled ≡ true

-- Tasks are received in the order in which they were accepted, and the others wait; the channel
-- holds no more than its capacity, and is closed only after the context is cancelled.
pub record IsSound {T : Type 0} (p : Pool T) : Type 0 where
  pub order : p.accepted ≡ p.received ++ p.tasks
  pub room : length p.tasks ≤ capacity
  pub after_cancel : p.closed ≡ true → p.cancelled ≡ true
  pub stops_cancelled : All (HasCancelled p.cancelled) p.stops

module _ {A : Type 0} (P : A → Type 0) where
  All-replace :
      (before : List A) (x y : A) (after : List A)
      → All P (before ++ (x ∷ after))
      → P y
      → All P (before ++ (y ∷ after))
  All-replace [] x y after all p = (p, all.1)
  All-replace (b ∷ before) x y after all p = (all.0, All-replace before x y after all.1 p)

  pub All-middle : (before : List A) (x : A) (after : List A) → All P (before ++ (x ∷ after)) → P x
  All-middle [] x after all = all.0
  All-middle (b ∷ before) x after all = All-middle before x after all.1

still_cancelled :
    (cancelled : Bool) (cs : List Stopper)
    → All (HasCancelled cancelled) cs
    → All (HasCancelled true) cs
still_cancelled cancelled [] all = tt
still_cancelled cancelled (Stopper.to_cancel ∷ cs) all = (tt, still_cancelled cancelled cs all.1)
still_cancelled cancelled (Stopper.to_close ∷ cs) all = (refl, still_cancelled cancelled cs all.1)
still_cancelled cancelled (Stopper.waiting ∷ cs) all = (refl, still_cancelled cancelled cs all.1)
still_cancelled cancelled (Stopper.returned ∷ cs) all = (refl, still_cancelled cancelled cs all.1)

module _ {T : Type 0} where
  Work-IsSound :
      {p p' : Pool T} {w w' : Worker T} (ws : List (Worker T))
      → IsSound p
      → Work p w w' p'
      → IsSound (record p' { workers = ws })
  Work-IsSound {p} ws s (receive task rest h) = record {
    order = s.order ∙ rw h (sym (append_assoc p.received (task ∷ []) rest));
    room = (let r = rw h at s.room in omega (arith, r));
    after_cancel = s.after_cancel;
    stops_cancelled = s.stops_cancelled;
  }
  Work-IsSound ws s (drained e c) = record {
    order = s.order;
    room = s.room;
    after_cancel = s.after_cancel;
    stops_cancelled = s.stops_cancelled;
  }
  Work-IsSound ws s (quits c) = record {
    order = s.order;
    room = s.room;
    after_cancel = s.after_cancel;
    stops_cancelled = s.stops_cancelled;
  }
  Work-IsSound ws s (finishes task) = record {
    order = s.order;
    room = s.room;
    after_cancel = s.after_cancel;
    stops_cancelled = s.stops_cancelled;
  }

  Stops-IsSound :
      {p p' : Pool T} {c c' : Stopper} (before after : List Stopper)
      → IsSound p
      → p.stops ≡ before ++ (c ∷ after)
      → Stops p c c' p'
      → IsSound (record p' { stops = before ++ (c' ∷ after) })
  Stops-IsSound {p} before after s h cancels = record {
    order = s.order;
    room = s.room;
    after_cancel = λ _. refl;
    stops_cancelled =
        All-replace (HasCancelled true) before Stopper.to_cancel Stopper.to_close after
          (rw h at (still_cancelled p.cancelled p.stops s.stops_cancelled)) refl;
  }
  Stops-IsSound {p} before after s h (closes c) =
      let all = rw h at s.stops_cancelled in
      let done = All-middle (HasCancelled p.cancelled) before Stopper.to_close after all in
      record {
        order = s.order;
        room = s.room;
        after_cancel = λ _. done;
        stops_cancelled =
            All-replace (HasCancelled p.cancelled) before Stopper.to_close Stopper.waiting after all
              done;
      }
  Stops-IsSound {p} before after s h (closes_twice c) = record {
    order = s.order;
    room = s.room;
    after_cancel = s.after_cancel;
    stops_cancelled = rw h at s.stops_cancelled;
  }
  Stops-IsSound {p} before after s h (returns all_out) =
      let all = rw h at s.stops_cancelled in
      record {
        order = s.order;
        room = s.room;
        after_cancel = s.after_cancel;
        stops_cancelled =
            All-replace (HasCancelled p.cancelled) before Stopper.waiting Stopper.returned after all
              (All-middle (HasCancelled p.cancelled) before Stopper.waiting after all);
      }

  Sends-IsSound :
      {p : Pool T} {task : T} {p' : Pool T} (ts : List T)
      → IsSound p
      → Sends p task p'
      → IsSound (record p' { sends = ts })
  Sends-IsSound {p} {task} ts s (sends c room) = record {
    order =
        ap (λ (x : List T). x ++ (task ∷ [])) s.order ∙ append_assoc p.received p.tasks (task ∷ []);
    room = omega (arith, length-append p.tasks (task ∷ []), room);
    after_cancel = s.after_cancel;
    stops_cancelled = s.stops_cancelled;
  }
  Sends-IsSound ts s (sends_closed c) = record {
    order = s.order;
    room = s.room;
    after_cancel = s.after_cancel;
    stops_cancelled = s.stops_cancelled;
  }
  Sends-IsSound ts s (gives_up c) = record {
    order = s.order;
    room = s.room;
    after_cancel = s.after_cancel;
    stops_cancelled = s.stops_cancelled;
  }

  start-IsSound : (p : Pool T) → IsSound p → IsSound (start p).1
  unfolding start
  start-IsSound p s =
      if_either (λ (x : Result (Unit {0}) × Pool T). IsSound x.1) p.running s
        (record {
          order = s.order;
          room = s.room;
          after_cancel = s.after_cancel;
          stops_cancelled = s.stops_cancelled;
        })

  begin_stop-IsSound : (p : Pool T) → IsSound p → IsSound (begin_stop p)
  unfolding begin_stop
  begin_stop-IsSound p s =
      if_either IsSound p.running
        (record {
          order = s.order;
          room = s.room;
          after_cancel = s.after_cancel;
          stops_cancelled = (tt, s.stops_cancelled);
        })
        s

  begin_submit-IsSound : (task : T) (p : Pool T) → IsSound p → IsSound (begin_submit task p).1
  unfolding begin_submit
  begin_submit-IsSound task p s =
      if_either (λ (x : Result (Unit {0}) × Pool T). IsSound x.1) p.running
        (record {
          order = s.order;
          room = s.room;
          after_cancel = s.after_cancel;
          stops_cancelled = s.stops_cancelled;
        })
        s

  Step-IsSound : {p p' : Pool T} → IsSound p → Step p p' → IsSound p'
  Step-IsSound {p} s (starts ok_so_far) = start-IsSound p s
  Step-IsSound {p} s (begins_stop ok_so_far) = begin_stop-IsSound p s
  Step-IsSound {p} s (begins_submit task ok_so_far) = begin_submit-IsSound task p s
  Step-IsSound {p} s (works before after ok_so_far h w) = Work-IsSound _ s w
  Step-IsSound {p} s (stops before after ok_so_far h c) = Stops-IsSound before after s h c
  Step-IsSound {p} s (submits before after ok_so_far h c) = Sends-IsSound _ s c

  pub Steps-IsSound : {p p' : Pool T} → IsSound p → Steps p p' → IsSound p'
  Steps-IsSound s none_more = s
  Steps-IsSound s (and_then before one) = Step-IsSound (Steps-IsSound s before) one

  pub reached-IsSound : (n : ℕ) {p : Pool T} → Steps (new_worker_pool n) p → IsSound p
  unfolding new_worker_pool
  reached-IsSound n steps =
      Steps-IsSound
        (record {
          order = refl;
          room = omega arith;
          after_cancel = λ h. absurd (ground arith);
          stops_cancelled = tt;
        })
        steps

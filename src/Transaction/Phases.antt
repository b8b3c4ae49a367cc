-- ===== src/Transaction/Phases.antt =====
-- The phases of a commit, one after another: what each has done when the commit succeeds.
use magpie_db.Common.{
  ◌≡◌, refl, sym, ap, ◌∙◌, Bool, true, false, not, arith, if◌then◌else◌, ℕ-Eq, GoString-Eq, Error,
  Result, ok, err, panic,
}
use magpie_db.Mvcc.{Manager, TxState, validate_transaction, commit_tx}
use magpie_db.Transaction.{Tx, Nest, make_visible, finish, fail, publish, log_writes, commit}

abbrev pub Outcome : Type 0 → Type 0 → Type 0
Outcome N M = Result (Unit {0}) × (Manager M × N × Tx M)

module _ {N M : Type 0} (nest : Nest N M) where
  abbrev pub committing_tx : Tx M → Tx M
  committing_tx tx = record tx { mvcc_tx = record tx.mvcc_tx { state = TxState.committing } }

  -- A commit, from what its guards find.
  abbrev pub from_guards :
      Bool → Result (Unit {0}) → Manager M → N → Tx M → Result (Unit {0}) × (Manager M × N × Tx M)
  from_guards on r m n tx =
      if not on then (err Error.transaction_not_active, (m, n, tx)) else elim r [
        | ok _ ↦ log_writes nest m n (committing_tx tx)
        | err e ↦ fail nest (err e) m n (committing_tx tx)
        | panic ↦ (panic, (m, n, committing_tx tx))
      ]

  pub commit-guards :
      (m : Manager M) (n : N) (tx : Tx M)
      → commit nest m n tx ≡ from_guards tx.active (validate_transaction tx.mvcc_tx m) m n tx
  unfolding commit validate_transaction
  commit-guards m n tx = refl

  -- A phase whose result is `r` goes on with `next`, or stops.
  abbrev pub phase :
      Result (Unit {0}) → Outcome N M → (Error → Outcome N M) → Manager M × N × Tx M → Outcome N M
  phase r next failed stopped = elim r [ ok _ ↦ next | err e ↦ failed e | panic ↦ (panic, stopped) ]

  phase-ok :
      (r : Result (Unit {0})) (next : Outcome N M) (failed : Error → Outcome N M)
      (stopped s : Manager M × N × Tx M)
      → ((e : Error) → (failed e).0 ≡ err e)
      → phase r next failed stopped ≡ (ok tt, s)
      → (r ≡ ok tt) × (next ≡ (ok tt, s))
  phase-ok (ok tt) next failed stopped s fails h = (refl, h)
  phase-ok (err e) next failed stopped s fails h =
      let same : err e ≡ ok tt = sym (fails e) ∙ ap (λ (o : Outcome N M). o.0) h in
      absurd (ground arith)
  phase-ok panic next failed stopped s fails h =
      let same : panic ≡ ok tt = ap (λ (o : Outcome N M). o.0) h in absurd (ground arith)

  pub guards-ok :
      (on : Bool) (r : Result (Unit {0})) (m : Manager M) (n : N) (tx : Tx M)
      (s : Manager M × N × Tx M)
      → from_guards on r m n tx ≡ (ok tt, s)
      → (on ≡ true) × (r ≡ ok tt) × (log_writes nest m n (committing_tx tx) ≡ (ok tt, s))
  unfolding fail
  guards-ok true r m n tx s h =
      let (fine, next) = phase-ok r _ _ _ s (λ e. refl) h in (refl, fine, next)
  guards-ok false r m n tx s h =
      let same : err Error.transaction_not_active ≡ ok tt = ap (λ (o : Outcome N M). o.0) h in
      absurd (ground arith)

  -- What the later phases of a successful commit did.
  pub log_writes-ok :
      (m : Manager M) (n : N) (tx : Tx M) (s : Manager M × N × Tx M)
      → log_writes nest m n tx ≡ (ok tt, s)
      → (n1 : N) × (publish nest m n1 tx ≡ (ok tt, s))
  unfolding log_writes fail
  log_writes-ok m n tx s h =
      let logged = nest.write_wal tx.mvcc_tx.write_set n in
      (logged.1, (phase-ok logged.0 _ _ _ s (λ e. refl) h).1)

  pub publish-ok :
      (m : Manager M) (n : N) (tx : Tx M) (s : Manager M × N × Tx M)
      → publish nest m n tx ≡ (ok tt, s)
      → (m1 : Manager M) × (n1 : N) × (make_visible nest tx.mvcc_tx.write_set m n ≡ (ok tt, m1, n1))
        × (finish nest m1 n1 tx ≡ (ok tt, s))
  unfolding publish fail
  publish-ok m n tx s h =
      let out = make_visible nest tx.mvcc_tx.write_set m n in
      let (fine, next) = phase-ok out.0 _ _ _ s (λ e. refl) h in
      (out.1, out.2, ap (λ (r : Result (Unit {0})). (r, out.1, out.2)) fine, next)

  pub finish-ok :
      (m : Manager M) (n : N) (tx : Tx M) (s : Manager M × N × Tx M)
      → finish nest m n tx ≡ (ok tt, s)
      → (s.0 ≡ (commit_tx tx.mvcc_tx m).0) × (s.2.active ≡ false)
  unfolding finish
  finish-ok m n tx s h =
      let out = nest.update_index tx.mvcc_tx.write_set n in
      let (fine, next) = phase-ok out.0 _ _ _ s (λ e. refl) h in
      (
        ap (λ (o : Outcome N M). o.1.0) (sym next),
        ap (λ (o : Outcome N M). o.1.2.active) (sym next),
      )

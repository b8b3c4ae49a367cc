-- ===== src/Transaction/Commit.antt =====
-- What a commit leaves behind: on success, on a conflict, and when a version cannot be persisted.
use magpie_db.Common.{
  ℕ, ◌≤◌, ◌≡◌, refl, sym, ap, ◌∙◌, ◌⊎◌, inl, inr, Bool, true, false, some, ◌∷◌, arith, GoString,
  eq_refl, ℕ-Eq, GoString-Eq, Error, Result, ok, err,
}
use mathlib.Core.Path.{subst}
use magpie_db.Dict
use magpie_db.Dict.{Dict, Distinct}
use magpie_db.Mvcc.{
  Version, Transaction, Manager, TxState, get_latest_version, add_version, validate_transaction,
  commit_tx, abort_tx,
}
use magpie_db.Mvcc.Latest.{get_latest_version-add_version}
use magpie_db.Transaction.{
  Tx, Nest, rollback, make_visible, finish, fail, publish, log_writes, commit,
}
use magpie_db.Transaction.Publish.{overlay, Published, make_visible-Published}
use magpie_db.Transaction.Phases.{
  Outcome, committing_tx, phase, commit-guards, guards-ok, log_writes-ok, publish-ok, finish-ok,
}

module _ {M : Type 0} where
  abbrev active_tx : Transaction M → Tx M
  active_tx t = record { mvcc_tx = t; active = true }

  abbrev pub writing : Transaction M → GoString → Version M → Dict GoString (Version M) → Tx M
  writing t id v writes = active_tx (record t { write_set = (id, v) ∷ writes })

module _ {N M : Type 0} where
  -- The commit returned `e`, the transaction `tx_id` is over, and nothing else changed but the
  -- manager's active transactions.
  pub record Failed (e : Error) (m : Manager M) (tx_id : ℕ) (o : Outcome N M) : Type 0 where
    result : o.0 ≡ err e
    version_chains : o.1.0.version_chains ≡ m.version_chains
    last_committed_tx : o.1.0.last_committed_tx ≡ m.last_committed_tx
    active_txs : o.1.0.active_txs ≡ Dict.delete tx_id m.active_txs
    over : o.1.2.active ≡ false
    aborted : o.1.2.mvcc_tx.state ≡ TxState.aborted

  -- The transaction is aborted with the error `e`, and yet `v` is the latest version of `id`.
  abbrev pub LeftBehind : Error → GoString → Version M → Outcome N M → Type 0
  LeftBehind e id v o =
      (o.0 ≡ err e)
      × (o.1.2.mvcc_tx.state ≡ TxState.aborted)
      × (get_latest_version id o.1.0 ≡ some v)

module _ {N M : Type 0} (nest : Nest N M) where
  committed :
      (writes : Dict GoString (Version M)) (t : Transaction M) (m m2 m' : Manager M)
      → Published writes m m2
      → m' ≡ (commit_tx t m2).0
      → ((id : GoString) → get_latest_version id m' ≡ overlay writes m id)
        × (t.id ≤ m'.last_committed_tx)
        × (m.last_committed_tx ≤ m'.last_committed_tx)
        × (m'.active_txs ≡ Dict.delete t.id m.active_txs)
  unfolding commit_tx get_latest_version
  committed writes t m m2 m' p same = (
    λ id. ap (get_latest_version id) same ∙ p.latest id,
    rw same (ground arith),
    rw same (ground (arith, p.last_committed_tx)),
    rw (same, p.active_txs),
  )

  fail-Failed :
      (e : Error) (m : Manager M) (n : N) (t : Transaction M)
      → Failed e m t.id (fail nest (err e) m n (active_tx t))
  unfolding fail rollback abort_tx
  fail-Failed e m n t = record {
    result = refl;
    version_chains = refl;
    last_committed_tx = refl;
    active_txs = refl;
    over = refl;
    aborted = refl;
  }

  log_writes-Failed :
      (e : Error) (m : Manager M) (n : N) (t : Transaction M)
      → (nest.write_wal t.write_set n).0 ≡ err e
      → Failed e m t.id (log_writes nest m n (active_tx t))
  unfolding log_writes
  log_writes-Failed e m n t bad =
      rw (bad, log_writes) (fail-Failed e m (nest.write_wal t.write_set n).1 t)

  -- What stands in the way of publishing.
  abbrev pub Blocked : Manager M → N → Tx M → Error → Type 0
  Blocked m n tx e =
      (validate_transaction tx.mvcc_tx m ≡ err e)
      ⊎ ((validate_transaction tx.mvcc_tx m ≡ ok tt)
          × ((nest.write_wal tx.mvcc_tx.write_set n).0 ≡ err e))

  active-Failed :
      (e : Error) (m : Manager M) (n : N) (t : Transaction M)
      → Blocked m n (active_tx t) e
      → Failed e m t.id (commit nest m n (active_tx t))
  active-Failed e m n t (inl bad) =
      rw (commit-guards nest m n (active_tx t), bad)
        (fail-Failed e m n (record t { state = TxState.committing }))
  active-Failed e m n t (inr (good, bad)) =
      rw (commit-guards nest m n (active_tx t), good)
        (log_writes-Failed e m n (record t { state = TxState.committing }) bad)

  -- For a write set that has each ID once: a commit that reports success was of an active
  -- transaction that passed validation; afterwards the latest version of every ID is the one in
  -- its write set, where it wrote the ID, and the former one elsewhere; the last committed ID is
  -- at least its own and has not gone back, and it is no longer an active transaction of the
  -- manager or on its own.
  pub commit_publishes :
      (m m' : Manager M) (n n' : N) (tx tx' : Tx M)
      → Distinct tx.mvcc_tx.write_set
      → commit nest m n tx ≡ (ok tt, (m', n', tx'))
      → (tx.active ≡ true)
        × (validate_transaction tx.mvcc_tx m ≡ ok tt)
        × ((id : GoString) → get_latest_version id m' ≡ overlay tx.mvcc_tx.write_set m id)
        × (tx.mvcc_tx.id ≤ m'.last_committed_tx)
        × (m.last_committed_tx ≤ m'.last_committed_tx)
        × (m'.active_txs ≡ Dict.delete tx.mvcc_tx.id m.active_txs)
        × (tx'.active ≡ false)
  unfolding commit_tx
  commit_publishes m m' n n' tx tx' d h =
      let s : Manager M × N × Tx M = (m', n', tx') in
      let (on, valid, logs) =
        guards-ok nest tx.active (validate_transaction tx.mvcc_tx m) m n tx s
          (sym (commit-guards nest m n tx) ∙ h) in
      let (n1, publishes) = log_writes-ok nest m n (committing_tx nest tx) s logs in
      let (m2, n2, shown, finishes) = publish-ok nest m n1 (committing_tx nest tx) s publishes in
      let (same, over) = finish-ok nest m2 n2 (committing_tx nest tx) s finishes in
      let (latest, own, kept, gone) =
        committed tx.mvcc_tx.write_set (committing_tx nest tx).mvcc_tx m m2 m'
          (make_visible-Published nest tx.mvcc_tx.write_set m m2 n1 n2 d shown) same in
      (on, valid, latest, own, kept, gone, over)

  -- A transaction that fails validation, or whose writes cannot be logged, leaves every version
  -- chain and the last committed ID as they were; the commit returns the error, and the
  -- transaction is aborted.
  pub commit_refused :
      (m : Manager M) (n : N) (tx : Tx M) (e : Error)
      → tx.active ≡ true
      → Blocked m n tx e
      → Failed e m tx.mvcc_tx.id (commit nest m n tx)
  commit_refused m n tx e on refused =
      subst
        (λ (a : Bool).
          Failed e m tx.mvcc_tx.id (commit nest m n (record { mvcc_tx = tx.mvcc_tx; active = a })))
        (sym on) (active-Failed e m n tx.mvcc_tx refused)

  make_visible_fails :
      (e : Error) (m : Manager M) (n : N) (id : GoString) (v : Version M)
      (writes : Dict GoString (Version M))
      → (nest.store_version v n).0 ≡ err e
      → make_visible nest ((id, v) ∷ writes) m n
        ≡ (err e, add_version id v m, (nest.store_version v n).1)
  unfolding make_visible
  make_visible_fails e m n id v writes bad = rw (bad, make_visible)

  -- What `publish` makes of the loop's result.
  abbrev published : Tx M → Result (Unit {0}) × Manager M × N → Outcome N M
  published tx (r, m, n) =
      phase nest r (finish nest m n tx) (λ e. fail nest (err e) m n tx) (m, n, tx)

  publish_fails :
      (e : Error) (m : Manager M) (n : N) (t : Transaction M) (id : GoString) (v : Version M)
      (writes : Dict GoString (Version M))
      → (nest.store_version v n).0 ≡ err e
      → LeftBehind e id v (publish nest m n (writing t id v writes))
  unfolding publish fail rollback abort_tx get_latest_version
  publish_fails e m n t id v writes bad =
      let latest = rw eq_refl at (get_latest_version-add_version id id v m) in
      subst (λ o. LeftBehind e id v (published (writing t id v writes) o))
        (sym (make_visible_fails e m n id v writes bad)) (refl, refl, latest)

  -- When the first version of the write set of a valid transaction cannot be persisted, the commit
  -- returns the error and aborts the transaction, but that version stays the latest of its ID.
  pub commit_persist_failure :
      (e : Error) (m : Manager M) (n : N) (t : Transaction M) (id : GoString) (v : Version M)
      (writes : Dict GoString (Version M))
      → let tx = writing t id v writes in
        let logged = nest.write_wal ((id, v) ∷ writes) n in
        validate_transaction tx.mvcc_tx m ≡ ok tt
        → logged.0 ≡ ok tt
        → (nest.store_version v logged.1).0 ≡ err e
        → LeftBehind e id v (commit nest m n tx)
  unfolding log_writes
  commit_persist_failure e m n t id v writes good logged bad =
      rw (commit-guards nest m n (writing t id v writes), good, log_writes, logged)
        (publish_fails e m (nest.write_wal ((id, v) ∷ writes) n).1
          (record t { state = TxState.committing }) id v writes bad)

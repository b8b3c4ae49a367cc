-- ===== src/Transaction.antt =====
-- Transactions: the MVCC path of transaction.go, which every transaction that `Begin` hands out
-- takes, since a database always has a transaction manager. `header_dimensions` is the header's
-- `Dimensions`.
pub mod Reads
pub mod Publish
pub mod Phases
pub mod Commit
mod Tests
use magpie_db.Common.{
  ℕ, zero, suc, ◌+◌, ◌-◌, ◌*◌, ◌/◌, ◌%◌, ◌^◌, ◌≤◌, ◌<◌, ◌≡◌, refl, sym, ap, ◌∙◌, fun_ext, ◌≢◌, ◌↔◌,
  ◌⊎◌, inl, inr, Bool, true, false, not, ◌&&◌, ◌||◌, Option, none, some, List, [], ◌∷◌, ◌++◌, map,
  arith, ltb, leb, if◌then◌else◌, ltb→lt, lt→ltb, leb→le, le→leb, nat_eq, nat_eq_iff, Bool-cases,
  Option-cases, GoString, string_eq, string_eq_iff, Eq, ◌==◌, eq_refl, eq_false, ℕ-Eq, GoString-Eq,
  length, get_elem?, take, drop, replicate, All, length-append, length-take, length-drop,
  length-replicate, take-append_length, drop-append_length, take_all, take-append-drop, length-map,
  Error, Result, ok, err, panic, ◌>>=◌, ◌>>◌, reject, in_range, >>=-eq-ok, codes,
}
use magpie_db.Dict
use magpie_db.Dict.{Dict}
use magpie_db.Mvcc.{
  Version, Transaction, Manager, TxState, or_nil, begin_tx, create_version, get_visible_version,
  add_version, validate_transaction, commit_tx, abort_tx,
}

-- `Tx`, without the fields of the other path.
pub record Tx (M : Type 0) : Type 0 where
  pub mvcc_tx : Transaction M
  pub active : Bool

-- `Treasure`; the fields that a transaction sets.
pub record Treasure (M : Type 0) : Type 0 where
  pub id : GoString
  pub vector : Option (List ℕ)
  pub metadata : Option M

-- The steps of a commit that belong to the rest of the database, whose state is `N`: the
-- write-ahead log, the version pages and the index.
pub record Nest (N M : Type 0) : Type 0 where
  pub write_wal : Dict GoString (Version M) → N → Result (Unit {0}) × N
  pub store_version : Version M → N → Result (Unit {0}) × N
  pub update_index : Dict GoString (Version M) → N → Result (Unit {0}) × N

module _ {M : Type 0} where
  unfoldable pub begin : Manager M → Manager M × Tx M
  begin m = let (m', t) = begin_tx m in (m', record { mvcc_tx = t; active = true })

  abbrev with_write : GoString → Version M → Tx M → Tx M
  with_write id v tx = record tx {
    mvcc_tx = record tx.mvcc_tx { write_set = Dict.put id v tx.mvcc_tx.write_set };
  }

  -- `storeToMVCC`
  unfoldable pub store : ℕ → GoString → Option (List ℕ) → Option M → Tx M → Result (Unit {0}) × Tx M
  store header_dimensions id vector metadata tx =
      if not tx.active
      then (err Error.transaction_not_active, tx)
      else if id == [] || ltb 63 (length id)
      then (err Error.invalid_id, tx)
      else if not (header_dimensions == 0) && not (length (or_nil vector) == header_dimensions)
      then (err Error.invalid_dimensions, tx)
      else (ok tt, with_write id (create_version tx.mvcc_tx.id id vector metadata) tx)

  -- The delete marker that `Remove` writes for a version that is visible.
  unfoldable pub delete_marker : GoString → ℕ → Version M → Version M
  delete_marker id tx_id current = record {
    id = id;
    vector = none;
    metadata = none;
    version = tx_id;
    created_by_tx = current.created_by_tx;
    deleted_by_tx = tx_id;
  }

  unfoldable pub remove : Bool → GoString → Manager M → Tx M → Result (Unit {0}) × Tx M
  unfolding delete_marker
  remove nest_closed id m tx =
      if not tx.active
      then (err Error.transaction_not_active, tx)
      else if nest_closed
      then (err Error.database_closed, tx)
      else elim (Dict.get id tx.mvcc_tx.write_set) [
        | some version ↦
            (ok tt, with_write id (record version { deleted_by_tx = tx.mvcc_tx.id }) tx)
        | none ↦ elim (get_visible_version id tx.mvcc_tx m) [
          | none ↦ (err Error.vector_not_found, tx)
          | some current ↦ (ok tt, with_write id (delete_marker id tx.mvcc_tx.id current) tx)
        ]
      ]

  unfoldable pub has : GoString → Manager M → Tx M → Bool
  has id m tx = if not tx.active then false else elim (Dict.get id tx.mvcc_tx.write_set) [
    | some version ↦ version.deleted_by_tx == 0
    | none ↦ elim (get_visible_version id tx.mvcc_tx m) [ none ↦ false | some v ↦ true ]
  ]

  abbrev treasure_of : Version M → Treasure M
  treasure_of v = record { id = v.id; vector = v.vector; metadata = v.metadata }

  unfoldable pub get : GoString → Manager M → Tx M → Result (Treasure M) × Tx M
  get id m tx =
      if not tx.active
      then (err Error.transaction_not_active, tx)
      else elim (Dict.get id tx.mvcc_tx.write_set) [
        | some version ↦
            if not (version.deleted_by_tx == 0)
            then (err Error.vector_not_found, tx)
            else (ok (treasure_of version), tx)
        | none ↦ elim (get_visible_version id tx.mvcc_tx m) [
          | none ↦ (err Error.vector_not_found, tx)
          | some version ↦ (
            ok (treasure_of version),
            record tx {
              mvcc_tx = record tx.mvcc_tx {
                read_set = Dict.put id version.version tx.mvcc_tx.read_set;
              };
            },
          )
        ]
      ]

  -- `rollbackMVCC`; it returns nil in every case.
  unfoldable pub rollback : Manager M → Tx M → Manager M × Tx M
  rollback m tx =
      if not tx.active
      then (m, tx)
      else let (m', t) = abort_tx tx.mvcc_tx m in
        (m', record { mvcc_tx = record t { write_set = []; read_set = [] }; active = false })

module _ {N M : Type 0} (nest : Nest N M) where
  -- The loop of `makeVisibleMVCC`.
  unfoldable pub make_visible :
      Dict GoString (Version M) → Manager M → N → Result (Unit {0}) × Manager M × N
  make_visible [] m n = (ok tt, m, n)
  make_visible ((id, version) ∷ writes) m n =
      let m' = add_version id version m in
      let (r, n') = nest.store_version version n in
      elim r [
        | ok _ ↦ make_visible writes m' n'
        | err e ↦ (err e, m', n')
        | panic ↦ (panic, m', n')
      ]

  abbrev State : Type 0
  State = Manager M × N × Tx M

  pub fail : Result (Unit {0}) → Manager M → N → Tx M → Result (Unit {0}) × State
  fail r m n tx = let (m', tx') = rollback m tx in (r, (m', n, tx'))

  -- Phase 4 on: the index, and the commit itself.
  pub finish : Manager M → N → Tx M → Result (Unit {0}) × State
  finish m n tx =
      let (r, n') = nest.update_index tx.mvcc_tx.write_set n in
      elim r [
        | ok _ ↦
            let (m', t) = commit_tx tx.mvcc_tx m in
            (ok tt, (m', n', record { mvcc_tx = t; active = false }))
        | err e ↦ (err e, (m, n', tx))
        | panic ↦ (panic, (m, n', tx))
      ]

  -- Phase 3: the versions become visible.
  pub publish : Manager M → N → Tx M → Result (Unit {0}) × State
  unfolding finish fail
  publish m n tx =
      let (r, m', n') = make_visible tx.mvcc_tx.write_set m n in
      elim r [
        | ok _ ↦ finish m' n' tx
        | err e ↦ fail (err e) m' n' tx
        | panic ↦ (panic, (m', n', tx))
      ]

  -- Phase 2: the log.
  pub log_writes : Manager M → N → Tx M → Result (Unit {0}) × State
  unfolding publish fail
  log_writes m n tx =
      let (r, n') = nest.write_wal tx.mvcc_tx.write_set n in
      elim r [
        | ok _ ↦ publish m n' tx
        | err e ↦ fail (err e) m n' tx
        | panic ↦ (panic, (m, n', tx))
      ]

  -- `commitMVCC`
  unfoldable pub commit : Manager M → N → Tx M → Result (Unit {0}) × State
  unfolding log_writes fail
  commit m n tx =
      if not tx.active
      then (err Error.transaction_not_active, (m, n, tx))
      else let tx' : Tx M = record tx {
        mvcc_tx = record tx.mvcc_tx { state = TxState.committing };
      } in
        elim (validate_transaction tx'.mvcc_tx m) [
          | ok _ ↦ log_writes m n tx'
          | err e ↦ fail (err e) m n tx'
          | panic ↦ (panic, (m, n, tx'))
        ]

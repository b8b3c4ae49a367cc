-- ===== src/Recovery.antt =====
-- The replay of the log in recovery.go: `applyWALEntry` and the loop of `replayWAL`, over the index
-- and the page file. What is drawn or answered while an entry is applied is an argument.
pub mod Replay
mod Tests
use magpie_db.Common.{
  ℕ, zero, suc, ◌+◌, ◌-◌, ◌*◌, ◌/◌, ◌%◌, ◌^◌, ◌≤◌, ◌<◌, ◌≡◌, refl, sym, ap, ◌∙◌, fun_ext, ◌≢◌, ◌↔◌,
  ◌⊎◌, inl, inr, Bool, true, false, not, ◌&&◌, ◌||◌, Option, none, some, List, [], ◌∷◌, ◌++◌, map,
  arith, ltb, leb, if◌then◌else◌, ltb→lt, lt→ltb, leb→le, le→leb, nat_eq, nat_eq_iff, Bool-cases,
  Option-cases, GoString, string_eq, string_eq_iff, Eq, ◌==◌, eq_refl, eq_false, ℕ-Eq, GoString-Eq,
  length, get_elem?, take, drop, replicate, All, length-append, length-take, length-drop,
  length-replicate, take-append_length, drop-append_length, take_all, take-append-drop, length-map,
  Error, Result, ok, err, panic, ◌>>=◌, ◌>>◌, reject, in_range, >>=-eq-ok, Result-cases, codes,
}
use magpie_db.Bytes.{Bytes}
use magpie_db.Storage.{Calls}
use magpie_db.Wal.{WalEntry, WalLib, wal_insert, wal_delete, wal_update}
use magpie_db.Index.{Index}
use magpie_db.Index.Graph.Search.{Geometry, HeapLib}
use magpie_db.Index.Graph.Insert.{add}
use magpie_db.Index.Graph.Remove.{remove}
use magpie_db.Vectors.{VectorNest, store_vector}

-- What recovery uses of `Nest`: the index, the page file, and the header's `VectorCount`.
pub record RecoveryNest : Type 0 where
  pub index : Index
  pub pages : VectorNest
  pub vector_count : ℕ

-- The level that `assignLevel` draws, and the answers to the system calls of `storeVector`.
pub record Chance : Type 0 where
  pub level : ℕ
  pub metadata_calls : Calls
  pub vector_calls : Calls

-- The code that is not modelled here, gathered.
pub record World (M : Type 0) : Type 0 where
  pub geometry : Geometry
  pub heap : HeapLib
  pub lib : WalLib M
  pub is_empty : M → Bool
  pub resize : ℕ → Bytes → Bytes

module _ {M : Type 0} (w : World M) where
  -- `storeVector` for an entry; `counted` is the count behind it.
  unfoldable pub store_entry :
      Chance → WalEntry M → ℕ → RecoveryNest → Result (Unit {0}) × RecoveryNest
  store_entry c entry counted n =
      let (r, pages) =
        store_vector w.lib w.is_empty w.resize c.metadata_calls c.vector_calls entry.id entry.vector
          entry.metadata n.pages in
      elim r [
        | err e ↦ (err e, record n { pages = pages })
        | panic ↦ (panic, record n { pages = pages })
        | ok _ ↦ (ok tt, record n { pages = pages; vector_count = counted })
      ]

  -- `Add` has only the error of an ID that is there already.
  unfoldable pub apply_insert :
      Chance → WalEntry M → RecoveryNest → Result (Unit {0}) × RecoveryNest
  apply_insert c entry n =
      let (r, idx) = add w.geometry w.heap c.level entry.id entry.vector n.index in
      elim r [
        | err e ↦ (ok tt, record n { index = idx })
        | panic ↦ (panic, record n { index = idx })
        | ok _ ↦ store_entry c entry ((n.vector_count + 1) % 2 ^ 64) (record n { index = idx })
      ]

  -- `Remove` has only the error of an ID that is not there; the count is a uint64, and goes down in
  -- any case.
  unfoldable pub apply_delete : WalEntry M → RecoveryNest → Result (Unit {0}) × RecoveryNest
  apply_delete entry n = (
    ok tt,
    record n {
      index = (remove entry.id n.index).1;
      vector_count = (n.vector_count + (2 ^ 64 - 1)) % 2 ^ 64;
    },
  )

  unfoldable pub apply_update :
      Chance → WalEntry M → RecoveryNest → Result (Unit {0}) × RecoveryNest
  apply_update c entry n =
      let removed = (remove entry.id n.index).1 in
      let (r, idx) = add w.geometry w.heap c.level entry.id entry.vector removed in
      elim r [
        | err e ↦ (err e, record n { index = idx })
        | panic ↦ (panic, record n { index = idx })
        | ok _ ↦ store_entry c entry n.vector_count (record n { index = idx })
      ]

  -- `applyWALEntry`
  unfoldable pub apply_wal_entry :
      Chance → WalEntry M → RecoveryNest → Result (Unit {0}) × RecoveryNest
  apply_wal_entry c entry n =
      if entry.kind == wal_insert
      then apply_insert c entry n
      else if entry.kind == wal_delete
      then apply_delete entry n
      else if entry.kind == wal_update
      then apply_update c entry n
      else (err Error.unknown_entry, n)

  -- The loop of `replayWAL`, with what happens at each entry.
  unfoldable pub replay_entries :
      List (Chance × WalEntry M) → RecoveryNest → Result (Unit {0}) × RecoveryNest
  replay_entries [] n = (ok tt, n)
  replay_entries ((c, entry) ∷ entries) n =
      let (r, n') = apply_wal_entry c entry n in
      let rest = replay_entries entries n' in
      elim r [ err e ↦ (err e, n') | panic ↦ (panic, n') | ok _ ↦ rest ]

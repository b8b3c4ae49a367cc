-- ===== src/Mvcc.antt =====
-- The multi-version concurrency manager: mvcc.go. A version chain is the list of its versions,
-- newest first, in place of the `NextVersion` pointers. A transaction object is a value that its
-- owner keeps and hands in; the copy in `active_txs` stands for the pointer there, through which
-- the manager reads the ID and the snapshot, and these never change. A function is one atomic access
-- or one critical section of the manager's lock, but for begin_tx and commit_tx, which are made of
-- several such functions; Steps interleaves these with the steps of other goroutines.
pub mod Visible
pub mod Latest
pub mod Validate
pub mod Collect
pub mod Invariant
pub mod Steps
pub mod Sound
pub mod Begin
mod Tests
use magpie_db.Common.{
  ℕ, zero, suc, ◌+◌, ◌-◌, ◌*◌, ◌/◌, ◌%◌, ◌^◌, ◌≤◌, ◌<◌, ◌≡◌, refl, sym, ap, ◌∙◌, fun_ext, ◌≢◌, ◌↔◌,
  ◌⊎◌, inl, inr, Bool, true, false, not, ◌&&◌, ◌||◌, Option, none, some, List, [], ◌∷◌, ◌++◌, map,
  arith, ltb, leb, if◌then◌else◌, ltb→lt, lt→ltb, leb→le, le→leb, nat_eq, nat_eq_iff, Bool-cases,
  Option-cases, GoString, string_eq, string_eq_iff, Eq, ◌==◌, eq_refl, eq_false, ℕ-Eq, GoString-Eq,
  length, get_elem?, take, drop, replicate, All, length-append, length-take, length-drop,
  length-replicate, take-append_length, drop-append_length, take_all, take-append-drop, length-map,
  Error, Result, ok, err, panic, ◌>>=◌, ◌>>◌, reject, in_range, >>=-eq-ok, codes,
}
use magpie_db.Dict
use magpie_db.Dict.{Dict}

pub data TxState : Type 0 where
  active committing committed aborted : TxState

-- `MVCCVersion`; `M` is the type of a metadata map. A nil slice or map is `none`.
pub record Version (M : Type 0) : Type 0 where
  pub id : GoString
  pub vector : Option (List ℕ)
  pub metadata : Option M
  pub version : ℕ
  pub created_by_tx : ℕ
  pub deleted_by_tx : ℕ

abbrev pub Chain : Type 0 → Type 0
Chain M = List (Version M)

-- `MVCCTransaction`
pub record Transaction (M : Type 0) : Type 0 where
  pub id : ℕ
  pub snapshot_tx_id : ℕ
  pub state : TxState
  pub read_set : Dict GoString ℕ
  pub write_set : Dict GoString (Version M)

-- `MVCCManager`
pub record Manager (M : Type 0) : Type 0 where
  pub tx_id_counter : ℕ
  pub last_committed_tx : ℕ
  pub version_chains : Dict GoString (Chain M)
  pub active_txs : Dict ℕ (Transaction M)

abbrev pub or_nil {ℓ} : {A : Type ℓ} → Option (List A) → List A
or_nil none = []
or_nil (some xs) = xs

module _ {M : Type 0} where
  unfoldable pub new_manager : Manager M
  new_manager = record {
    tx_id_counter = 0;
    last_committed_tx = 0;
    version_chains = [];
    active_txs = [];
  }

  -- The three steps of `BeginTx`: the atomic addition, the atomic load of the snapshot for the new
  -- transaction, and its registration under the lock. Other operations can come in between.
  unfoldable pub next_tx_id : Manager M → Manager M × ℕ
  next_tx_id m =
      let tx_id = (m.tx_id_counter + 1) % 2 ^ 64 in (record m { tx_id_counter = tx_id }, tx_id)

  unfoldable pub new_tx : ℕ → Manager M → Transaction M
  new_tx tx_id m = record {
    id = tx_id;
    snapshot_tx_id = m.last_committed_tx;
    state = active;
    read_set = [];
    write_set = [];
  }

  unfoldable pub register_tx : Transaction M → Manager M → Manager M
  register_tx tx m = record m { active_txs = Dict.put tx.id tx m.active_txs }

  unfoldable pub begin_tx : Manager M → Manager M × Transaction M
  unfolding next_tx_id new_tx register_tx
  begin_tx m = let (m', tx_id) = next_tx_id m in let tx = new_tx tx_id m' in (register_tx tx m', tx)

  -- The copy of the vector is never nil.
  unfoldable pub create_version : ℕ → GoString → Option (List ℕ) → Option M → Version M
  create_version tx_id id vector metadata = record {
    id = id;
    vector = some (or_nil vector);
    metadata = metadata;
    version = tx_id;
    created_by_tx = tx_id;
    deleted_by_tx = 0;
  }

  -- `m.versionChains[id]`
  unfoldable pub chain_of : GoString → Manager M → Chain M
  chain_of id m = or_nil (Dict.get id m.version_chains)

  -- The walk of `GetVisibleVersion` along a chain, for the snapshot `s`.
  unfoldable pub visible_in : ℕ → Chain M → Option (Version M)
  visible_in s [] = none
  visible_in s (v ∷ older) =
      let rest = visible_in s older in
      if leb v.created_by_tx s
      then (if v.deleted_by_tx == 0 || ltb s v.deleted_by_tx then some v else rest)
      else rest

  unfoldable pub get_visible_version : GoString → Transaction M → Manager M → Option (Version M)
  unfolding chain_of
  get_visible_version id tx m = visible_in tx.snapshot_tx_id (chain_of id m)

  unfoldable pub add_version : GoString → Version M → Manager M → Manager M
  unfolding chain_of
  add_version id version m = record m {
    version_chains = Dict.put id (version ∷ chain_of id m) m.version_chains;
  }

  first : Chain M → Option (Version M)
  first [] = none
  first (v ∷ older) = some v

  unfoldable pub get_latest_version : GoString → Manager M → Option (Version M)
  unfolding first chain_of
  get_latest_version id m = first (chain_of id m)

  -- The compare-and-swap loop of `CommitTx` sets the larger of the two IDs, at the swap that succeeds
  -- or the load that finds the larger one there.
  unfoldable pub raise_last_committed : ℕ → Manager M → Manager M
  raise_last_committed tx_id m = record m {
    last_committed_tx = if ltb m.last_committed_tx tx_id then tx_id else m.last_committed_tx;
  }

  -- `delete(m.activeTxs, tx.ID)` under the lock.
  unfoldable pub remove_tx : ℕ → Manager M → Manager M
  remove_tx tx_id m = record m { active_txs = Dict.delete tx_id m.active_txs }

  unfoldable pub commit_tx : Transaction M → Manager M → Manager M × Transaction M
  unfolding raise_last_committed remove_tx
  commit_tx tx m = (remove_tx tx.id (raise_last_committed tx.id m), record tx { state = committed })

  unfoldable pub abort_tx : Transaction M → Manager M → Manager M × Transaction M
  unfolding remove_tx
  abort_tx tx m = (remove_tx tx.id m, record tx { state = aborted })

  -- The two loops of `ValidateTransaction`.
  check_reads : Manager M → ℕ → Dict GoString ℕ → Result (Unit {0})
  check_reads m snapshot [] = ok tt
  check_reads m snapshot ((id, read_version) ∷ reads) = do
    elim (get_latest_version id m) [
      | none ↦ ok tt
      | some latest ↦
          reject (not (latest.version == read_version) && ltb snapshot latest.created_by_tx)
            Error.read_write_conflict
    ]
    check_reads m snapshot reads

  check_writes : Manager M → ℕ → Dict GoString ℕ → Dict GoString (Version M) → Result (Unit {0})
  check_writes m snapshot read_set [] = ok tt
  check_writes m snapshot read_set ((id, version) ∷ writes) = do
    elim (Dict.get id read_set) [
      | some was_read ↦ ok tt
      | none ↦ elim (get_latest_version id m) [
        | none ↦ ok tt
        | some latest ↦ reject (ltb snapshot latest.created_by_tx) Error.write_write_conflict
      ]
    ]
    check_writes m snapshot read_set writes

  unfoldable pub validate_transaction : Transaction M → Manager M → Result (Unit {0})
  unfolding check_reads check_writes
  validate_transaction tx m = do
    check_reads m tx.snapshot_tx_id tx.read_set
    check_writes m tx.snapshot_tx_id tx.read_set tx.write_set

  min_snapshot : ℕ → Dict ℕ (Transaction M) → ℕ
  min_snapshot s [] = s
  min_snapshot s ((id, tx) ∷ txs) =
      min_snapshot (if ltb tx.snapshot_tx_id s then tx.snapshot_tx_id else s) txs

  -- `getMinActiveSnapshot`, which `GarbageCollect` repeats.
  unfoldable pub get_min_active_snapshot : Manager M → ℕ
  unfolding min_snapshot
  get_min_active_snapshot m = min_snapshot m.last_committed_tx m.active_txs

  -- All versions down to the first that is at or before the minimum snapshot, and no older one.
  unfoldable pub gc_version_chain : ℕ → Chain M → Chain M
  gc_version_chain min [] = []
  gc_version_chain min (v ∷ older) =
      let rest = gc_version_chain min older in if leb v.created_by_tx min then v ∷ [] else v ∷ rest

  is_nil : Chain M → Bool
  is_nil [] = true
  is_nil (v ∷ older) = false

  gc_chains : ℕ → Dict GoString (Chain M) → Dict GoString (Chain M)
  gc_chains min [] = []
  gc_chains min ((id, chain) ∷ chains) =
      let rest = gc_chains min chains in
      let new_chain = gc_version_chain min chain in
      if is_nil new_chain then rest else (id, new_chain) ∷ rest

  unfoldable pub garbage_collect : Manager M → Manager M
  unfolding gc_chains is_nil
  garbage_collect m = record m {
    version_chains = gc_chains (get_min_active_snapshot m) m.version_chains;
  }

  count_versions : Dict GoString (Chain M) → ℕ
  count_versions [] = 0
  count_versions ((id, chain) ∷ chains) = length chain + count_versions chains

  unfoldable pub get_version_count : Manager M → ℕ
  unfolding count_versions
  get_version_count m = count_versions m.version_chains

  unfoldable pub get_active_transaction_count : Manager M → ℕ
  get_active_transaction_count m = length m.active_txs

  unfoldable pub is_visible : Version M → Transaction M → Bool
  is_visible v tx =
      if ltb tx.snapshot_tx_id v.created_by_tx
      then false
      else if not (v.deleted_by_tx == 0) && leb v.deleted_by_tx tx.snapshot_tx_id
      then false
      else true

  -- `chain.DeletedByTx = txID` on the first version of a chain.
  mark_first : ℕ → Chain M → Chain M
  mark_first tx_id [] = []
  mark_first tx_id (v ∷ older) = record v { deleted_by_tx = tx_id } ∷ older

  unfoldable pub delete_version : GoString → ℕ → Manager M → Result (Unit {0}) × Manager M
  unfolding mark_first
  delete_version id tx_id m = elim (get_latest_version id m) [
    | none ↦ (err Error.vector_not_found, m)
    | some v ↦ if not (v.deleted_by_tx == 0) then (err Error.version_deleted, m) else (
      ok tt,
      record m { version_chains = Dict.put id (mark_first tx_id (chain_of id m)) m.version_chains },
    )
  ]

  unfoldable pub get_tx : ℕ → Manager M → Option (Transaction M)
  get_tx tx_id m = Dict.get tx_id m.active_txs

  unfoldable pub abort_tx_by_id : ℕ → Manager M → Result (Transaction M) × Manager M
  abort_tx_by_id tx_id m = elim (get_tx tx_id m) [
    | none ↦ (err Error.tx_not_active, m)
    | some tx ↦ let (m', tx') = abort_tx tx m in (ok tx', m')
  ]

  -- The versions of one chain behind its first that are older than the minimum snapshot.
  older_than : ℕ → Chain M → List (Version M)
  older_than min [] = []
  older_than min (v ∷ vs) =
      let rest = older_than min vs in if ltb v.created_by_tx min then v ∷ rest else rest

  chain_candidates : ℕ → Chain M → List (Version M)
  chain_candidates min [] = []
  chain_candidates min (v ∷ vs) = older_than min vs

  candidates_of : ℕ → Dict GoString (Chain M) → List (Version M)
  candidates_of min [] = []
  candidates_of min ((id, chain) ∷ chains) = chain_candidates min chain ++ candidates_of min chains

  unfoldable pub get_gc_candidates : Manager M → List (Version M)
  unfolding older_than chain_candidates candidates_of
  get_gc_candidates m = candidates_of (get_min_active_snapshot m) m.version_chains

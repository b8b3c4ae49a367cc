-- ===== src/Transaction/Tests.antt =====
-- Transactions on a small database, whose other parts succeed, or fail to store a version.
use magpie_db.Common.{
  ℕ, ◌+◌, ◌≤◌, ◌≡◌, refl, ap, ◌≢◌, inl, true, false, none, some, [], ◌∷◌, arith, leb, if◌then◌else◌,
  GoString, ℕ-Eq, GoString-Eq, Error, ok, err, codes,
}
use magpie_db.Dict
use magpie_db.Dict.{Dict, Distinct}
use magpie_db.Mvcc.{
  Version, Transaction, Manager, TxState, create_version, get_visible_version, chain_of, visible_in,
  add_version, get_latest_version, validate_transaction,
}
use magpie_db.Transaction.{Tx, Nest, delete_marker, store, remove, has, get, make_visible, commit}
use magpie_db.Transaction.Reads.{stored, get-store, get-remove, visible-delete_marker}
use magpie_db.Transaction.Publish.{overlay}
use magpie_db.Transaction.Commit.{
  Failed, writing, LeftBehind, commit_publishes, commit_refused, commit_persist_failure,
}

abbrev key : GoString
key = codes "a"

abbrev version_of : ℕ → Version ℕ
version_of n = record {
  id = key;
  vector = some (n ∷ []);
  metadata = none;
  version = n;
  created_by_tx = n;
  deleted_by_tx = 0;
}

abbrev mvcc_tx : Transaction ℕ
mvcc_tx = record {
  id = 3;
  snapshot_tx_id = 2;
  state = TxState.active;
  read_set = [];
  write_set = [];
}

abbrev manager : Manager ℕ
manager = record {
  tx_id_counter = 3;
  last_committed_tx = 2;
  version_chains = (key, version_of 2 ∷ []) ∷ [];
  active_txs = (3, mvcc_tx) ∷ [];
}

abbrev tx : Tx ℕ
tx = record { mvcc_tx = mvcc_tx; active = true }

abbrev writer : Tx ℕ
writer = writing mvcc_tx key (version_of 3) []

-- The other parts of the database: a counter of the calls.
abbrev nest : Nest ℕ ℕ
nest = record {
  write_wal = λ writes n. (ok tt, n + 1);
  store_version = λ v n. (ok tt, n + 1);
  update_index = λ writes n. (ok tt, n + 1);
}

abbrev no_pages : Nest ℕ ℕ
no_pages = record nest { store_version = λ v n. (err Error.io_error, n) }

stores : store 1 key (some (9 ∷ [])) none tx ≡ (
  ok tt,
  record tx {
    mvcc_tx = record mvcc_tx { write_set = (key, create_version 3 key (some (9 ∷ [])) none) ∷ [] };
  },
)
unfolding store Dict.put
stores = refl

get-store_example :
    let tx' = (store 1 key (some (9 ∷ [])) none tx).1 in
    ((get key manager tx').0 ≡ ok (stored key (some (9 ∷ [])) none))
    × (has key manager tx' ≡ true)
    × ((j : GoString)
        → key ≢ j
        → ((get j manager tx').0 ≡ (get j manager tx).0) × (has j manager tx' ≡ has j manager tx))
get-store_example =
    get-store 1 key (some (9 ∷ [])) none manager tx (store 1 key (some (9 ∷ [])) none tx).1
      (unfold store in refl)

removes : (remove false key manager tx).0 ≡ ok tt
unfolding remove get_visible_version chain_of visible_in Dict.get
removes = refl

get-remove_example :
    let tx' = (remove false key manager tx).1 in
    ((get key manager tx').0 ≡ err Error.vector_not_found)
    × (has key manager tx' ≡ false)
    × ((j : GoString)
        → key ≢ j
        → ((get j manager tx').0 ≡ (get j manager tx).0) × (has j manager tx' ≡ has j manager tx))
get-remove_example =
    get-remove false key manager tx (remove false key manager tx).1 (omega arith)
      (ap (λ r. (r, (remove false key manager tx).1)) removes)

sees : get_visible_version key mvcc_tx manager ≡ some (version_of 2)
unfolding get_visible_version chain_of visible_in Dict.get
sees = refl

visible-delete_marker_example :
    get_visible_version key mvcc_tx (add_version key (delete_marker key 3 (version_of 2)) manager)
    ≡ some (if leb 3 2 then version_of 2 else delete_marker key 3 (version_of 2))
visible-delete_marker_example =
    visible-delete_marker key 3 mvcc_tx manager (version_of 2) (omega arith) sees

valid : validate_transaction writer.mvcc_tx manager ≡ ok tt
unfolding validate_transaction get_latest_version chain_of Dict.get
valid = refl

abbrev after : Manager ℕ × ℕ × Tx ℕ
after = (commit nest manager 0 writer).1

commits : commit nest manager 0 writer ≡ (ok tt, (after.0, after.1, after.2))
unfolding commit make_visible validate_transaction get_latest_version chain_of Dict.get
commits = refl

one_write : Distinct writer.mvcc_tx.write_set
unfolding Dict.get
one_write = (refl, tt)

commit_publishes_example :
    (writer.active ≡ true)
    × (validate_transaction writer.mvcc_tx manager ≡ ok tt)
    × ((id : GoString)
        → get_latest_version id after.0 ≡ overlay writer.mvcc_tx.write_set manager id)
    × (3 ≤ after.0.last_committed_tx)
    × (2 ≤ after.0.last_committed_tx)
    × (after.0.active_txs ≡ Dict.delete 3 manager.active_txs)
    × (after.2.active ≡ false)
commit_publishes_example =
    commit_publishes nest manager after.0 0 after.1 writer after.2 one_write commits

-- Another transaction has committed a version since.
abbrev overtaken : Manager ℕ
overtaken = record manager { version_chains = (key, version_of 4 ∷ version_of 2 ∷ []) ∷ [] }

conflict : validate_transaction writer.mvcc_tx overtaken ≡ err Error.write_write_conflict
unfolding validate_transaction get_latest_version chain_of Dict.get
conflict = refl

commit_refused_example :
    Failed Error.write_write_conflict overtaken 3 (commit nest overtaken 0 writer)
commit_refused_example =
    commit_refused nest overtaken 0 writer Error.write_write_conflict refl (inl conflict)

commit_persist_failure_example :
    LeftBehind Error.io_error key (version_of 3) (commit no_pages manager 0 writer)
commit_persist_failure_example =
    commit_persist_failure no_pages Error.io_error manager 0 mvcc_tx key (version_of 3) [] valid
      refl refl

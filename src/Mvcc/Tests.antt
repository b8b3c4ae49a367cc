-- ===== src/Mvcc/Tests.antt =====
-- The theorems on the manager at concrete versions and transactions.
use magpie_db.Common.{
  ℕ, ◌+◌, ◌^◌, ◌<◌, ◌≡◌, refl, ◌≢◌, ◌↔◌, inl, none, some, [], ◌∷◌, arith, GoString, ℕ-Eq,
  GoString-Eq, All, ok, codes,
}
use magpie_db.Dict
use magpie_db.Dict.{Dict, Distinct}
use magpie_db.Mvcc.{
  Version, Transaction, Manager, TxState, new_manager, next_tx_id, new_tx, register_tx, begin_tx,
  raise_last_committed, create_version, chain_of, visible_in, get_visible_version, add_version,
  validate_transaction, garbage_collect, get_min_active_snapshot, get_version_count,
  gc_version_chain,
}
use magpie_db.Mvcc.Visible.{FirstVisible, get_visible_version-first}
use magpie_db.Mvcc.Validate.{validate_transaction-add_version}
use magpie_db.Mvcc.Collect.{CutIsLive, get_visible_version-garbage_collect}
use magpie_db.Mvcc.Steps.{
  System, Reach, new_system, number, load, register, create, add, start, next,
}
use magpie_db.Mvcc.Sound.{IsSound, Reach-IsSound}
use magpie_db.Mvcc.Begin.{begin_tx_fresh}

abbrev key : GoString
key = codes "a"

-- A version of the key that the transaction `n` has made.
abbrev made_by : ℕ → Version ℕ
made_by n = record {
  id = key;
  vector = some (n ∷ []);
  metadata = none;
  version = n;
  created_by_tx = n;
  deleted_by_tx = 0;
}

abbrev writer : Transaction ℕ
writer = record {
  id = 3;
  snapshot_tx_id = 2;
  state = TxState.active;
  read_set = [];
  write_set = (key, made_by 3) ∷ [];
}

abbrev manager : Manager ℕ
manager = record {
  tx_id_counter = 4;
  last_committed_tx = 2;
  version_chains = (key, made_by 2 ∷ made_by 1 ∷ []) ∷ [];
  active_txs = (3, writer) ∷ [];
}

visible : get_visible_version key writer manager ≡ some (made_by 2)
unfolding get_visible_version chain_of visible_in Dict.get
visible = refl

get_visible_version-first_example :
    (get_visible_version key writer manager ≡ some (made_by 2))
    ↔ FirstVisible writer (chain_of key manager) (made_by 2)
get_visible_version-first_example = get_visible_version-first key writer manager (made_by 2)

own_write : Dict.get key writer.write_set ≡ some (made_by 3)
unfolding Dict.get
own_write = refl

unread : Dict.get key writer.read_set ≡ none
unfolding Dict.get
unread = refl

validate_transaction-add_version_example :
    validate_transaction writer (add_version key (made_by 4) manager) ≢ ok tt
validate_transaction-add_version_example =
    validate_transaction-add_version key (made_by 4) (made_by 3) writer manager (omega arith)
      own_write unread

one_chain : Distinct manager.version_chains
unfolding Dict.get
one_chain = (refl, tt)

registered : Dict.get 3 manager.active_txs ≡ some writer
unfolding Dict.get
registered = refl

cut_is_live : CutIsLive (get_min_active_snapshot manager) 2 (chain_of key manager)
unfolding get_min_active_snapshot chain_of Dict.get
cut_is_live = inl refl

get_visible_version-garbage_collect_example :
    get_visible_version key writer (garbage_collect manager)
    ≡ get_visible_version key writer manager
get_visible_version-garbage_collect_example =
    get_visible_version-garbage_collect key writer manager one_chain registered cut_is_live

collected : get_version_count (garbage_collect manager) ≡ 1
unfolding garbage_collect get_version_count get_min_active_snapshot gc_version_chain
collected = refl

-- A transaction that has begun in three steps, and has published a version.
abbrev numbered : System ℕ
numbered = record new_system {
  manager = (next_tx_id new_manager).0;
  numbered = (next_tx_id (new_manager {M = ℕ})).1 ∷ [];
}

abbrev loaded : System ℕ
loaded = record numbered { numbered = []; loaded = new_tx 1 numbered.manager ∷ [] }

abbrev begun : System ℕ
begun = record loaded {
  manager = register_tx (new_tx 1 numbered.manager) loaded.manager;
  loaded = [];
  issued = (new_tx 1 numbered.manager).id ∷ [];
}

abbrev made : System ℕ
made = record begun { made = create_version 1 key (some (5 ∷ [])) none ∷ [] }

abbrev published : System ℕ
published = record made {
  manager = add_version key (create_version 1 key (some (5 ∷ [])) none) made.manager;
}

published-Reach : Reach published
unfolding new_manager next_tx_id new_tx
published-Reach =
    next
      (next
        (next (next (next start (number (omega arith))) (load 1 [] ([], [], refl, refl)))
          (register (new_tx 1 numbered.manager) [] ([], [], refl, refl)))
        (create 1 [] key (some (5 ∷ [])) none ([], [], refl, refl)))
      (add key (create_version 1 key (some (5 ∷ [])) none) [] ([], [], refl, refl))

room : published.manager.tx_id_counter + 1 < 2 ^ 64
unfolding new_manager next_tx_id register_tx add_version
room = omega arith

Reach-IsSound_example : IsSound published
Reach-IsSound_example = Reach-IsSound published-Reach

begin_tx_fresh_example :
    let m = published.manager in
    (Dict.get (begin_tx m).1.id m.active_txs ≡ none)
    × (Dict.get (begin_tx m).1.id (begin_tx m).0.active_txs ≡ some (begin_tx m).1)
    × ((id : GoString) → All (λ v. v.created_by_tx < (begin_tx m).1.id) (chain_of id m))
    × All (λ i. i < (begin_tx m).1.id) published.issued
    × All (λ i. i < (begin_tx m).1.id) published.numbered
    × All (λ t. t.id < (begin_tx m).1.id) published.loaded
    × ((begin_tx m).1.snapshot_tx_id ≡ m.last_committed_tx)
begin_tx_fresh_example = begin_tx_fresh published-Reach room

-- A collection between the load of a snapshot and the registration of its transaction cuts off a
-- version that the transaction would read, and leaves only one that it does not see.
abbrev racing : Manager ℕ
racing = record {
  tx_id_counter = 2;
  last_committed_tx = 1;
  version_chains = (key, made_by 1 ∷ []) ∷ [];
  active_txs = [];
}

abbrev late : Transaction ℕ
late = new_tx 3 racing

-- Another transaction commits a version, and the collection runs.
abbrev raced : Manager ℕ
raced = garbage_collect (raise_last_committed 2 (add_version key (made_by 2) racing))

read_before : get_visible_version key late racing ≡ some (made_by 1)
unfolding get_visible_version chain_of visible_in Dict.get new_tx
read_before = refl

lost_read : get_visible_version key late (register_tx late raced) ≡ none
unfolding get_visible_version chain_of visible_in Dict.get Dict.put new_tx register_tx
    garbage_collect raise_last_committed add_version get_min_active_snapshot gc_version_chain
lost_read = refl

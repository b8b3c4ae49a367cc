-- ===== src/Mvcc/Steps.antt =====
-- The manager and the goroutines that use it, as a transition system.
use magpie_db.Common.{
  ℕ, ◌+◌, ◌^◌, ◌<◌, ◌≡◌, ◌⊎◌, Option, List, [], ◌∷◌, ◌++◌, GoString, ℕ-Eq, GoString-Eq,
}
use magpie_db.Mvcc.{
  Version, Transaction, Manager, new_manager, next_tx_id, new_tx, register_tx, raise_last_committed,
  remove_tx, create_version, add_version, abort_tx_by_id, garbage_collect, delete_version, chain_of,
}

-- The manager; the IDs and the transactions of the calls of `BeginTx` that are under way, before
-- and behind the load of the snapshot; the IDs of the transactions that it has returned, and of
-- those with a `CommitTx` under way behind its loop; and the version objects that were made.
pub record System (M : Type 0) : Type 0 where
  pub manager : Manager M
  pub numbered : List ℕ
  pub loaded : List (Transaction M)
  pub issued : List ℕ
  pub raised : List ℕ
  pub made : List (Version M)

-- An element of a list, and the list without it.
abbrev pub Taken : {A : Type 0} → A → List A → List A → Type 0
Taken {A} x rest xs =
    (front : List A) × (back : List A) × (xs ≡ front ++ (x ∷ back)) × (rest ≡ front ++ back)

module _ {M : Type 0} where
  -- What `System` starts from: a new manager, and no call of any goroutine.
  abbrev pub new_system : System M
  new_system = record {
    manager = new_manager;
    numbered = [];
    loaded = [];
    issued = [];
    raised = [];
    made = [];
  }

  -- One atomic step of one goroutine. The ID that commits, deletes or makes a version is that of a
  -- transaction which `BeginTx` has returned; a version is a new one of such a transaction, or a copy
  -- of a version that is marked as deleted by it, as `Remove` makes it.
  pub data Step (s : System M) : System M → Type 0 where
    number :
        s.manager.tx_id_counter + 1 < 2 ^ 64
        → Step s (record s {
          manager = (next_tx_id s.manager).0;
          numbered = (next_tx_id s.manager).1 ∷ s.numbered;
        })
    load :
        (tx_id : ℕ) (rest : List ℕ)
        → Taken tx_id rest s.numbered
        → Step s (record s { numbered = rest; loaded = new_tx tx_id s.manager ∷ s.loaded })
    register :
        (tx : Transaction M) (rest : List (Transaction M))
        → Taken tx rest s.loaded
        → Step s (record s {
          manager = register_tx tx s.manager;
          loaded = rest;
          issued = tx.id ∷ s.issued;
        })
    raise :
        (tx_id : ℕ) (others : List ℕ)
        → Taken tx_id others s.issued
        → Step s
            (record s { manager = raise_last_committed tx_id s.manager; raised = tx_id ∷ s.raised })
    finish :
        (tx_id : ℕ) (rest : List ℕ)
        → Taken tx_id rest s.raised
        → Step s (record s { manager = remove_tx tx_id s.manager; raised = rest })
    abort : (tx_id : ℕ) → Step s (record s { manager = remove_tx tx_id s.manager })
    abort_by_id : (tx_id : ℕ) → Step s (record s { manager = (abort_tx_by_id tx_id s.manager).1 })
    create :
        (tx_id : ℕ) (others : List ℕ) (id : GoString) (vector : Option (List ℕ))
        (metadata : Option M)
        → Taken tx_id others s.issued
        → Step s (record s { made = create_version tx_id id vector metadata ∷ s.made })
    mark :
        (tx_id : ℕ) (others : List ℕ) (id : GoString) (v : Version M) (older : List (Version M))
        → Taken tx_id others s.issued
        → Taken v older s.made ⊎ Taken v older (chain_of id s.manager)
        → Step s (record s { made = record v { deleted_by_tx = tx_id } ∷ s.made })
    add :
        (id : GoString) (v : Version M) (others : List (Version M))
        → Taken v others s.made
        → Step s (record s { manager = add_version id v s.manager })
    delete :
        (id : GoString) (tx_id : ℕ) (others : List ℕ)
        → Taken tx_id others s.issued
        → Step s (record s { manager = (delete_version id tx_id s.manager).1 })
    collect : Step s (record s { manager = garbage_collect s.manager })

  pub data Reach : System M → Type 0 where
    start : Reach new_system
    next : {s t : System M} → Reach s → Step s t → Reach t

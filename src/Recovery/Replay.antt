-- ===== src/Recovery/Replay.antt =====
-- What a replay makes of the index.
use magpie_db.Common.{
  ℕ, ◌≡◌, refl, ap, ◌∙◌, ◌≢◌, inl, inr, Bool, false, not, List, [], ◌∷◌, arith, if◌then◌else◌,
  Bool-cases, GoString, ◌==◌, ℕ-Eq, GoString-Eq, Error, Result, ok, err, panic, Result-cases,
}
use magpie_db.Wal.{WalEntry, wal_insert, wal_delete, wal_update}
use magpie_db.Index.{Index}
use magpie_db.Index.Graph.Insert.{add}
use magpie_db.Index.Graph.Remove.{remove, exists_in}
use magpie_db.Index.Graph.Invariant.{IsValid}
use magpie_db.Index.Graph.Built.{add-Valid, remove-Valid}
use magpie_db.Index.Graph.Keys.{exists-add, exists-remove}
use magpie_db.Vectors.{VectorNest}
use magpie_db.Recovery.{
  RecoveryNest, Chance, World, store_entry, apply_insert, apply_delete, apply_update,
  apply_wal_entry, replay_entries,
}

-- Whether the index holds an ID behind one entry of the log: an insertion and an update add the ID,
-- a deletion takes it out.
abbrev pub holds_behind : {M : Type 0} → GoString → WalEntry M → Bool → Bool
holds_behind id entry held = if entry.id == id then not (entry.kind == wal_delete) else held

-- The same behind all entries.
abbrev pub holds_after : {M : Type 0} → GoString → List (Chance × WalEntry M) → Bool → Bool
holds_after id [] held = held
holds_after id ((c, entry) ∷ entries) held = holds_after id entries (holds_behind id entry held)

module _ {M : Type 0} (w : World M) where
  store_entry-index :
      (c : Chance) (entry : WalEntry M) (k : ℕ) (n : RecoveryNest)
      → (store_entry w c entry k n).1.index ≡ n.index
  unfolding store_entry
  store_entry-index c entry k n = go _
    where
      go :
          (r : Result (Unit {0}) × VectorNest)
          → (elim r.0 as (λ x. Result (Unit {0}) × RecoveryNest) [
            | err e ↦ (err e, record n { pages = r.1 })
            | panic ↦ (panic, record n { pages = r.1 })
            | ok _ ↦ (ok tt, record n { pages = r.1; vector_count = k })
          ]).1.index
            ≡ n.index
      go (ok _, p) = refl
      go (err e, p) = refl
      go (panic, p) = refl

  abbrev added : Chance → WalEntry M → Index → Index
  added c entry idx = (add w.geometry w.heap c.level entry.id entry.vector idx).1

  insert-index :
      (c : Chance) (entry : WalEntry M) (n : RecoveryNest)
      → (apply_insert w c entry n).1.index ≡ added c entry n.index
  unfolding apply_insert
  insert-index c entry n =
      elim (Result-cases (add w.geometry w.heap c.level entry.id entry.vector n.index).0) [
        | inl done ↦ rw (apply_insert, done) (store_entry-index c entry _ _)
        | inr (inl (e, refused)) ↦ rw (apply_insert, refused) refl
        | inr (inr panicked) ↦ rw (apply_insert, panicked) refl
      ]

  update-index :
      (c : Chance) (entry : WalEntry M) (n : RecoveryNest)
      → (apply_update w c entry n).1.index ≡ added c entry (remove entry.id n.index).1
  unfolding apply_update
  update-index c entry n =
      elim (Result-cases
        (add w.geometry w.heap c.level entry.id entry.vector (remove entry.id n.index).1).0) [
          | inl done ↦ rw (apply_update, done) (store_entry-index c entry _ _)
          | inr (inl (e, refused)) ↦ rw (apply_update, refused) refl
          | inr (inr panicked) ↦ rw (apply_update, panicked) refl
        ]

  -- An index behind an entry: valid, with the IDs that the entry leaves.
  abbrev Follows : WalEntry M → Index → Index → Type 0
  Follows entry idx idx' =
      IsValid idx'
      × ((id : GoString) → exists_in idx'.nodes id ≡ holds_behind id entry (exists_in idx.nodes id))

  add-Follows :
      (c : Chance) (entry : WalEntry M) (idx before : Index)
      → (entry.kind == wal_delete) ≡ false
      → IsValid idx
      → ((id : GoString)
          → (entry.id == id) ≡ false
          → exists_in idx.nodes id ≡ exists_in before.nodes id)
      → Follows entry before (added c entry idx)
  add-Follows c entry idx before kind v same = (
    add-Valid w.geometry w.heap c.level entry.id entry.vector idx v,
    λ id.
        exists-add w.geometry w.heap c.level entry.id id entry.vector idx
        ∙ elim (Bool-cases (entry.id == id)) [
          | inl own ↦ rw (own, kind) refl
          | inr other ↦ rw other (same id other)
        ],
  )

  unknown_kind :
      (c : Chance) (entry : WalEntry M) (n : RecoveryNest)
      → (entry.kind == wal_insert) ≡ false
      → (entry.kind == wal_delete) ≡ false
      → (entry.kind == wal_update) ≡ false
      → (apply_wal_entry w c entry n).0 ≢ ok tt
  unfolding apply_wal_entry
  unknown_kind c entry n a b u done =
      let refused : (apply_wal_entry w c entry n).0 ≡ err Error.unknown_entry =
        rw (apply_wal_entry, a, b, u) refl in
      ground (arith, refused, done)

  apply-Follows :
      (c : Chance) (entry : WalEntry M) (n : RecoveryNest)
      → IsValid n.index
      → (apply_wal_entry w c entry n).0 ≡ ok tt
      → Follows entry n.index (apply_wal_entry w c entry n).1.index
  unfolding apply_wal_entry apply_delete
  apply-Follows c entry n v done = elim (Bool-cases (entry.kind == wal_insert)) [
    | inl is_insert ↦
        rw (apply_wal_entry, is_insert, insert-index c entry n)
          (add-Follows c entry n.index n.index (ground (arith, is_insert)) v (λ id _. refl))
    | inr not_insert ↦ elim (Bool-cases (entry.kind == wal_delete)) [
      | inl is_delete ↦
          rw (apply_wal_entry, not_insert, is_delete)
            (remove-Valid entry.id n.index v, λ id. exists-remove entry.id id n.index)
      | inr not_delete ↦ elim (Bool-cases (entry.kind == wal_update)) [
        | inl is_update ↦
            rw (apply_wal_entry, not_insert, not_delete, is_update, update-index c entry n)
              (rw not_delete at (
                add-Follows c entry (remove entry.id n.index).1 n.index not_delete
                  (remove-Valid entry.id n.index v)
                  (λ id other. exists-remove entry.id id n.index ∙ rw other refl)))
        | inr unknown ↦ absurd (unknown_kind c entry n not_insert not_delete unknown done)
      ]
    ]
  ]

  -- A replay that succeeds, of any entries on a nest whose index holds what `Built-IsValid` says: the
  -- index still does, and it holds an ID exactly if the last entry for that ID is an insertion or an
  -- update, or if there is none and the index held it before.
  pub replay_entries-Follows :
      (entries : List (Chance × WalEntry M)) (n : RecoveryNest)
      → IsValid n.index
      → (replay_entries w entries n).0 ≡ ok tt
      → IsValid (replay_entries w entries n).1.index
        × ((id : GoString)
            → exists_in (replay_entries w entries n).1.index.nodes id
              ≡ holds_after id entries (exists_in n.index.nodes id))
  unfolding replay_entries
  replay_entries-Follows [] n v done = (v, λ id. refl)
  replay_entries-Follows ((c, entry) ∷ entries) n v done =
      elim (Result-cases (apply_wal_entry w c entry n).0) [
        | inl applied ↦
            let (valid, ids) = apply-Follows c entry n v applied in
            let (valid', ids') =
              replay_entries-Follows entries (apply_wal_entry w c entry n).1 valid
                (rw (replay_entries, applied) at done) in
            rw (replay_entries, applied)
              (valid', λ id. ids' id ∙ ap (holds_after id entries) (ids id))
        | inr (inl (e, refused)) ↦
            absurd (let h = rw (replay_entries, refused) at done in ground arith)
        | inr (inr panicked) ↦
            absurd (let h = rw (replay_entries, panicked) at done in ground arith)
      ]

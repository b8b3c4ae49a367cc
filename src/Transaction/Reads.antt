-- ===== src/Transaction/Reads.antt =====
-- What a transaction reads: its own writes first, then its snapshot.
use magpie_db.Common.{
  ℕ, ◌<◌, ◌≡◌, refl, ◌∙◌, ◌≢◌, ◌↔◌, inl, inr, Bool, true, false, ◌&&◌, Option, some, List, arith,
  leb, if◌then◌else◌, Bool-cases, Option-cases, GoString, ◌==◌, eq_refl, eq_false, ℕ-Eq,
  GoString-Eq, Error, ok, err,
}
use magpie_db.Dict
use magpie_db.Dict.Laws.{get-put}
use magpie_db.Mvcc.{
  Version, Transaction, Manager, or_nil, create_version, get_visible_version, add_version,
  is_visible,
}
use magpie_db.Mvcc.Visible.{get_visible_version-add_version, get_visible_version-IsVisible}
use magpie_db.Transaction.{
  Tx, Treasure, with_write, treasure_of, store, remove, delete_marker, has, get,
}

module _ {M : Type 0} where
  abbrev pub stored : GoString → Option (List ℕ) → Option M → Treasure M
  stored id vector metadata = record { id = id; vector = some (or_nil vector); metadata = metadata }

  -- A write to one ID, as the reads of the transaction see it.
  get-with_write_self :
      (id : GoString) (v : Version M) (m : Manager M) (tx : Tx M)
      → tx.active ≡ true
      → ((get id m (with_write id v tx)).0
          ≡ (if v.deleted_by_tx == 0 then ok (treasure_of v) else err Error.vector_not_found))
        × (has id m (with_write id v tx) ≡ (v.deleted_by_tx == 0))
  unfolding get has
  get-with_write_self id v m tx live =
      rw (live, get-put id id v tx.mvcc_tx.write_set, eq_refl id) (ground arith)

  visible-with_write :
      (id j : GoString) (v : Version M) (m : Manager M) (tx : Tx M)
      → get_visible_version j (with_write id v tx).mvcc_tx m ≡ get_visible_version j tx.mvcc_tx m
  unfolding get_visible_version
  visible-with_write id j v m tx = refl

  get-with_write_ne :
      (id j : GoString) (v : Version M) (m : Manager M) (tx : Tx M)
      → id ≢ j
      → ((get j m (with_write id v tx)).0 ≡ (get j m tx).0)
        × (has j m (with_write id v tx) ≡ has j m tx)
  unfolding get has
  get-with_write_ne id j v m tx ne =
      rw (get-put id j v tx.mvcc_tx.write_set, eq_false id j ne)
        (ground (arith, visible-with_write id j v m tx))

  store-ok :
      (dims : ℕ) (id : GoString) (vector : Option (List ℕ)) (metadata : Option M) (tx tx' : Tx M)
      → store dims id vector metadata tx ≡ (ok tt, tx')
      → (tx.active ≡ true)
        × (tx' ≡ with_write id (create_version tx.mvcc_tx.id id vector metadata) tx)
  unfolding store
  store-ok dims id vector metadata tx tx' h = ground arith

  -- A transaction reads its own writes: after a successful `Store` it finds the vector and the
  -- metadata that it stored, a nil vector as an empty one, whatever the database holds, and it
  -- reads every other ID as before.
  pub get-store :
      (dims : ℕ) (id : GoString) (vector : Option (List ℕ)) (metadata : Option M) (m : Manager M)
      (tx tx' : Tx M)
      → store dims id vector metadata tx ≡ (ok tt, tx')
      → ((get id m tx').0 ≡ ok (stored id vector metadata))
        × (has id m tx' ≡ true)
        × ((j : GoString)
            → id ≢ j
            → ((get j m tx').0 ≡ (get j m tx).0) × (has j m tx' ≡ has j m tx))
  unfolding create_version
  get-store dims id vector metadata m tx tx' h =
      let (live, e) = store-ok dims id vector metadata tx tx' h in
      let v = create_version tx.mvcc_tx.id id vector metadata in
      let (own, there) = get-with_write_self id v m tx live in
      rw e (own, there, λ j ne. get-with_write_ne id j v m tx ne)

  remove-ok :
      (closed : Bool) (id : GoString) (m : Manager M) (tx tx' : Tx M)
      → remove closed id m tx ≡ (ok tt, tx')
      → (v : Version M) × (tx.active ≡ true)
        × (v.deleted_by_tx ≡ tx.mvcc_tx.id)
        × (tx' ≡ with_write id v tx)
  unfolding remove
  remove-ok closed id m tx tx' h = elim (Option-cases (Dict.get id tx.mvcc_tx.write_set)) [
    | inr (v, e) ↦ (record v { deleted_by_tx = tx.mvcc_tx.id }, ground arith, refl, ground arith)
    | inl e ↦ elim (Option-cases (get_visible_version id tx.mvcc_tx m)) [
      | inl n ↦ absurd (ground arith)
      | inr (v, n) ↦ (
        delete_marker id tx.mvcc_tx.id v,
        ground arith,
        unfold delete_marker in refl,
        ground arith,
      )
    ]
  ]

  -- After a successful `Remove` the transaction no longer finds the ID, and it reads every other
  -- ID as before. (The IDs of transactions start at 1.)
  pub get-remove :
      (closed : Bool) (id : GoString) (m : Manager M) (tx tx' : Tx M)
      → 0 < tx.mvcc_tx.id
      → remove closed id m tx ≡ (ok tt, tx')
      → ((get id m tx').0 ≡ err Error.vector_not_found)
        × (has id m tx' ≡ false)
        × ((j : GoString)
            → id ≢ j
            → ((get j m tx').0 ≡ (get j m tx).0) × (has j m tx' ≡ has j m tx))
  get-remove closed id m tx tx' pos h =
      let (v, live, d, e) = remove-ok closed id m tx tx' h in
      let (own, there) = get-with_write_self id v m tx live in
      let gone : (v.deleted_by_tx == 0) ≡ false = ground arith in
      rw e (rw gone at own, there ∙ gone, λ j ne. get-with_write_ne id j v m tx ne)

  -- `Has` answers true exactly where `Get` returns a result.
  pub has_iff_get :
      (id : GoString) (m : Manager M) (tx : Tx M)
      → (has id m tx ≡ true) ↔ ((t : Treasure M) × ((get id m tx).0 ≡ ok t))
  unfolding has get
  has_iff_get id m tx = elim (Bool-cases tx.active) [
    | inr dead ↦ rw (dead, get, has) ((λ h. ground arith), λ (t, h). ground arith)
    | inl live ↦
        rw (live, get, has)
          (elim (Option-cases (Dict.get id tx.mvcc_tx.write_set)) [
            | inr (v, e) ↦
                rw (e, get, has) ((λ h. (treasure_of v, ground arith)), λ (t, h). ground arith)
            | inl e ↦ elim (Option-cases (get_visible_version id tx.mvcc_tx m)) [
              | inr (v, n) ↦ rw (e, n, get, has) ((λ h. (treasure_of v, refl)), λ h. refl)
              | inl n ↦ rw (e, n, get, has) ((λ h. ground arith), λ (t, h). ground arith)
            ]
          ])
  ]

  marker_choice :
      (tx_id : ℕ) (reader : Transaction M) (current : Version M) (id : GoString)
      → 0 < tx_id
      → is_visible current reader ≡ true
      → (if true && is_visible (delete_marker id tx_id current) reader
          then some (delete_marker id tx_id current)
          else some current)
        ≡ some (if leb tx_id reader.snapshot_tx_id then current else delete_marker id tx_id current)
  unfolding is_visible delete_marker
  marker_choice tx_id reader current id pos seen = ground arith

  -- What others read after a removal is committed. Where a transaction saw the removed version and
  -- the delete marker is put in front of it: a transaction whose snapshot has the removal still
  -- sees the removed version, and one whose snapshot is older sees the marker, which has no vector.
  pub visible-delete_marker :
      (id : GoString) (tx_id : ℕ) (reader : Transaction M) (m : Manager M) (current : Version M)
      → 0 < tx_id
      → get_visible_version id reader m ≡ some current
      → get_visible_version id reader (add_version id (delete_marker id tx_id current) m)
        ≡ some (if leb tx_id reader.snapshot_tx_id then current else delete_marker id tx_id current)
  visible-delete_marker id tx_id reader m current pos h =
      let seen = get_visible_version-IsVisible id reader m current h in
      get_visible_version-add_version id id (delete_marker id tx_id current) reader m
      ∙ rw (eq_refl id, h) (marker_choice tx_id reader current id pos seen)

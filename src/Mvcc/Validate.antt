-- ===== src/Mvcc/Validate.antt =====
-- Optimistic validation: which transactions `ValidateTransaction` lets through.
use magpie_db.Common.{
  ℕ, ◌≤◌, ◌<◌, ◌≡◌, refl, ◌≢◌, ◌↔◌, ◌⊎◌, not, ◌&&◌, Option, none, some, [], ◌∷◌, arith, ltb,
  GoString, ◌==◌, eq_refl, ℕ-Eq, GoString-Eq, All, Error, Result, ok, err, panic, ◌>>◌, reject,
}
use magpie_db.Dict
use magpie_db.Mvcc.Latest.{get_latest_version-add_version}
use magpie_db.Dict.{Dict}
use magpie_db.Dict.Laws.{All-get}
use magpie_db.Mvcc.{
  Version, Transaction, Manager, add_version, get_latest_version, check_reads, check_writes,
  validate_transaction,
}

module _ {M : Type 0} where
  -- What was read is still the latest version, or no newer than the snapshot.
  abbrev pub ReadIsCurrent : Manager M → ℕ → GoString × ℕ → Type 0
  ReadIsCurrent m snapshot (id, read_version) =
      (latest : Version M)
      → get_latest_version id m ≡ some latest
      → (latest.version ≡ read_version) ⊎ (latest.created_by_tx ≤ snapshot)

  -- What is written without having been read has no version newer than the snapshot.
  abbrev pub WriteIsCurrent : Manager M → ℕ → Dict GoString ℕ → GoString × Version M → Type 0
  WriteIsCurrent m snapshot read_set (id, version) =
      Dict.get id read_set ≡ none
      → (latest : Version M) → get_latest_version id m ≡ some latest
      → latest.created_by_tx ≤ snapshot

  read_check : Manager M → ℕ → GoString → ℕ → Result (Unit {0})
  read_check m snapshot id read_version = elim (get_latest_version id m) [
    | none ↦ ok tt
    | some latest ↦
        reject (not (latest.version == read_version) && ltb snapshot latest.created_by_tx)
          Error.read_write_conflict
  ]

  read_check_sound :
      (m : Manager M) (snapshot : ℕ) (id : GoString) (rv : ℕ)
      → (read_check m snapshot id rv ≡ ok tt) ↔ ReadIsCurrent m snapshot (id, rv)
  unfolding read_check
  read_check_sound m snapshot id rv = go (get_latest_version id m)
    where
      go :
          (o : Option (Version M))
          → (◌≡◌ {A = Result (Unit {0})}
              (elim o [
                | none ↦ ok tt
                | some latest ↦
                    reject
                      (not (latest.version == rv) && ltb snapshot latest.created_by_tx)
                      Error.read_write_conflict
              ])
              (ok tt))
            ↔ ((latest : Version M)
                → o ≡ some latest
                → (latest.version ≡ rv) ⊎ (latest.created_by_tx ≤ snapshot))
      go none = (λ h latest e. absurd (ground arith), λ h. refl)
      go (some v) = (λ h latest e. ground arith, λ h. ground (arith, h v refl))

  write_check : Manager M → ℕ → Dict GoString ℕ → GoString → Result (Unit {0})
  write_check m snapshot read_set id = elim (Dict.get id read_set) [
    | some was_read ↦ ok tt
    | none ↦ elim (get_latest_version id m) [
      | none ↦ ok tt
      | some latest ↦ reject (ltb snapshot latest.created_by_tx) Error.write_write_conflict
    ]
  ]

  write_check_sound :
      (m : Manager M) (snapshot : ℕ) (reads : Dict GoString ℕ) (id : GoString) (w : Version M)
      → (write_check m snapshot reads id ≡ ok tt) ↔ WriteIsCurrent m snapshot reads (id, w)
  unfolding write_check
  write_check_sound m snapshot reads id w = go (Dict.get id reads) (get_latest_version id m)
    where
      go :
          (o : Option ℕ) (p : Option (Version M))
          → (◌≡◌ {A = Result (Unit {0})}
              (elim o [
                | some was_read ↦ ok tt
                | none ↦ elim p [
                  | none ↦ ok tt
                  | some latest ↦
                      reject (ltb snapshot latest.created_by_tx) Error.write_write_conflict
                ]
              ])
              (ok tt))
            ↔ (o ≡ none → (latest : Version M) → p ≡ some latest → latest.created_by_tx ≤ snapshot)
      go (some r) p = (λ h e. absurd (ground arith), λ h. refl)
      go none none = (λ h e latest f. absurd (ground arith), λ h. refl)
      go none (some v) = (λ h e latest f. ground arith, λ h. ground (arith, h refl v refl))

both_ok : (a b : Result (Unit {0})) → ((a >> b) ≡ ok tt) ↔ ((a ≡ ok tt) × (b ≡ ok tt))
both_ok (ok tt) b = (λ h. (refl, h), λ h. h.1)
both_ok (err e) b = (λ h. absurd (ground arith), λ h. absurd (ground (arith, h.0)))
both_ok panic b = (λ h. absurd (ground arith), λ h. absurd (ground (arith, h.0)))

module _ {M : Type 0} where
  check_reads_sound :
      (m : Manager M) (snapshot : ℕ) (reads : Dict GoString ℕ)
      → (check_reads m snapshot reads ≡ ok tt) ↔ All (ReadIsCurrent m snapshot) reads
  unfolding check_reads read_check
  check_reads_sound m snapshot [] = (λ h. tt, λ h. refl)
  check_reads_sound m snapshot ((id, rv) ∷ reads) =
      let both = both_ok (read_check m snapshot id rv) (check_reads m snapshot reads) in
      let one = read_check_sound m snapshot id rv in
      let rest = check_reads_sound m snapshot reads in
      (λ h. let (a, b) = both.0 h in (one.0 a, rest.0 b), λ h. both.1 (one.1 h.0, rest.1 h.1))

  check_writes_sound :
      (m : Manager M) (snapshot : ℕ) (reads : Dict GoString ℕ) (writes : Dict GoString (Version M))
      → (check_writes m snapshot reads writes ≡ ok tt)
        ↔ All (WriteIsCurrent m snapshot reads) writes
  unfolding check_writes write_check
  check_writes_sound m snapshot reads [] = (λ h. tt, λ h. refl)
  check_writes_sound m snapshot reads ((id, w) ∷ writes) =
      let both = both_ok (write_check m snapshot reads id) (check_writes m snapshot reads writes) in
      let one = write_check_sound m snapshot reads id w in
      let rest = check_writes_sound m snapshot reads writes in
      (λ h. let (a, b) = both.0 h in (one.0 a, rest.0 b), λ h. both.1 (one.1 h.0, rest.1 h.1))

  pub validate_transaction_iff :
      (tx : Transaction M) (m : Manager M)
      → (validate_transaction tx m ≡ ok tt) ↔ (
          All (ReadIsCurrent m tx.snapshot_tx_id) tx.read_set
          × All (WriteIsCurrent m tx.snapshot_tx_id tx.read_set) tx.write_set)
  unfolding validate_transaction
  validate_transaction_iff tx m =
      let both =
        both_ok (check_reads m tx.snapshot_tx_id tx.read_set)
          (check_writes m tx.snapshot_tx_id tx.read_set tx.write_set) in
      let reads = check_reads_sound m tx.snapshot_tx_id tx.read_set in
      let writes = check_writes_sound m tx.snapshot_tx_id tx.read_set tx.write_set in
      (
        λ h. let (a, b) = both.0 h in (reads.0 a, writes.0 b),
        λ h. both.1 (reads.1 h.0, writes.1 h.1),
      )

  -- The first committer wins: once another transaction has added a version of an ID that is newer
  -- than the snapshot, a transaction that writes the ID and has not read it fails validation.
  pub validate_transaction-add_version :
      (id : GoString) (v w : Version M) (tx : Transaction M) (m : Manager M)
      → tx.snapshot_tx_id < v.created_by_tx
      → Dict.get id tx.write_set ≡ some w
      → Dict.get id tx.read_set ≡ none
      → validate_transaction tx (add_version id v m) ≢ ok tt
  validate_transaction-add_version id v w tx m newer wrote unread passed =
      let current =
        All-get (WriteIsCurrent (add_version id v m) tx.snapshot_tx_id tx.read_set) id w
          tx.write_set ((validate_transaction_iff tx (add_version id v m)).0 passed).1 wrote in
      absurd
        (omega (arith, current unread v (rw eq_refl at (get_latest_version-add_version id id v m))))

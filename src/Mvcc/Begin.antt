-- ===== src/Mvcc/Begin.antt =====
-- What a new transaction starts from.
use magpie_db.Common.{
  ◌+◌, ◌%◌, ◌^◌, ◌<◌, ◌≡◌, refl, inl, inr, none, some, arith, Option-cases, GoString, eq_refl, ℕ-Eq,
  GoString-Eq, All,
}
use magpie_db.Dict
use magpie_db.Dict.Laws.{get-put, All-get, All-map}
use magpie_db.Mvcc.{Manager, begin_tx, new_tx, register_tx, next_tx_id, chain_of}
use magpie_db.Mvcc.Invariant.{IsValid, VersionFits, ActiveFits, chain_of-Fits}
use magpie_db.Mvcc.Steps.{System, Reach}
use magpie_db.Mvcc.Sound.{Reach-IsSound}

module _ {M : Type 0} where
  unused : (m : Manager M) → IsValid m → Dict.get (m.tx_id_counter + 1) m.active_txs ≡ none
  unused m v = elim (Option-cases (Dict.get (m.tx_id_counter + 1) m.active_txs)) [
    | inl e ↦ e
    | inr (t, e) ↦
        let fits =
          All-get (ActiveFits m.tx_id_counter m.last_committed_tx) _ t m.active_txs v.active e in
        absurd (omega (arith, fits.0, fits.1))
  ]

  -- A call of BeginTx with no other step in between, in a state that goroutines reach from a new
  -- manager, as long as the counter does not wrap around, so is below 2^64 - 1: the ID is fresh, above
  -- that of every version in a chain and of every transaction that was begun before or is being begun,
  -- and the transaction is registered with the last commit as its snapshot. The steps reached are
  -- those of `Reach`: versions are made for transactions that BeginTx has returned, and none is
  -- loaded from a file.
  pub begin_tx_fresh :
      {s : System M}
      → Reach s
      → s.manager.tx_id_counter + 1 < 2 ^ 64
      → let m = s.manager in
        (Dict.get (begin_tx m).1.id m.active_txs ≡ none)
        × (Dict.get (begin_tx m).1.id (begin_tx m).0.active_txs ≡ some (begin_tx m).1)
        × ((id : GoString) → All (λ v. v.created_by_tx < (begin_tx m).1.id) (chain_of id m))
        × All (λ i. i < (begin_tx m).1.id) s.issued
        × All (λ i. i < (begin_tx m).1.id) s.numbered
        × All (λ t. t.id < (begin_tx m).1.id) s.loaded
        × ((begin_tx m).1.snapshot_tx_id ≡ m.last_committed_tx)
  unfolding begin_tx new_tx register_tx next_tx_id
  begin_tx_fresh {s} r h =
      let m = s.manager in
      let all = Reach-IsSound r in
      let v = all.manager in
      let e : (m.tx_id_counter + 1) % 2 ^ 64 ≡ m.tx_id_counter + 1 = omega arith in
      rw e (
        unused m v,
        simp (get-put, eq_refl),
        λ id.
            All-map (VersionFits m.tx_id_counter) _ (chain_of id m) (λ w f. omega arith)
              (chain_of-Fits id m v),
        All-map _ _ s.issued (λ i f. omega arith) all.issued,
        All-map _ _ s.numbered (λ i f. omega arith) all.numbered,
        All-map _ _ s.loaded (λ t f. omega (arith, f.0)) all.loaded,
        refl,
      )

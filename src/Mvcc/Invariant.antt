-- ===== src/Mvcc/Invariant.antt =====
-- What holds of the manager, and that each of its operations keeps it.
use magpie_db.Common.{
  ℕ, ◌+◌, ◌%◌, ◌^◌, ◌≤◌, ◌<◌, ◌≡◌, refl, inl, inr, none, [], ◌∷◌, arith, leb, Bool-cases,
  Option-cases, GoString, ◌==◌, ℕ-Eq, GoString-Eq, All,
}
use magpie_db.Dict
use magpie_db.Dict.{Dict, Distinct}
use magpie_db.Dict.Laws.{put-Distinct, delete-Distinct, All-put, All-delete, All-get, All-map}
use magpie_db.Mvcc.{
  Version, Chain, Transaction, Manager, new_manager, next_tx_id, register_tx, raise_last_committed,
  remove_tx, add_version, abort_tx, abort_tx_by_id, garbage_collect, delete_version, get_tx,
  get_latest_version, chain_of, mark_first, gc_version_chain, gc_chains, is_nil,
  get_min_active_snapshot,
}

module _ {M : Type 0} where
  abbrev pub VersionFits : ℕ → Version M → Type 0
  VersionFits n v = (v.created_by_tx ≤ n) × (v.deleted_by_tx ≤ n)

  abbrev pub ChainFits : ℕ → GoString × Chain M → Type 0
  ChainFits n (id, chain) = All (VersionFits n) chain

  abbrev pub ActiveFits : ℕ → ℕ → ℕ × Transaction M → Type 0
  ActiveFits counter last (i, tx) = (tx.id ≡ i) × (tx.id ≤ counter) × (tx.snapshot_tx_id ≤ last)

  pub record IsValid (m : Manager M) : Type 0 where
    pub word : m.tx_id_counter < 2 ^ 64
    pub committed : m.last_committed_tx ≤ m.tx_id_counter
    pub chain_ids : Distinct m.version_chains
    pub chains : All (ChainFits m.tx_id_counter) m.version_chains
    pub active_ids : Distinct m.active_txs
    pub active : All (ActiveFits m.tx_id_counter m.last_committed_tx) m.active_txs

  pub chain_of-Fits :
      (id : GoString) (m : Manager M)
      → IsValid m
      → All (VersionFits m.tx_id_counter) (chain_of id m)
  unfolding chain_of
  chain_of-Fits id m v = elim (Option-cases (Dict.get id m.version_chains)) [
    | inl e ↦ rw e tt
    | inr (c, e) ↦ rw e (All-get (ChainFits m.tx_id_counter) id c m.version_chains v.chains e)
  ]

  pub ChainFits-le :
      (n k : ℕ) (chains : Dict GoString (Chain M))
      → n ≤ k
      → All (ChainFits n) chains
      → All (ChainFits k) chains
  ChainFits-le n k chains h =
      All-map (ChainFits n) (ChainFits k) chains
        λ c. All-map (VersionFits n) (VersionFits k) c.1 (λ v f. omega arith)

  ActiveFits-le :
      (n k l s : ℕ) (txs : Dict ℕ (Transaction M))
      → n ≤ k
      → l ≤ s
      → All (ActiveFits n l) txs
      → All (ActiveFits k s) txs
  ActiveFits-le n k l s txs h g = All-map (ActiveFits n l) (ActiveFits k s) txs (λ t f. omega arith)

  pub next_tx_id-IsValid :
      (m : Manager M) → m.tx_id_counter + 1 < 2 ^ 64 → IsValid m → IsValid (next_tx_id m).0
  unfolding next_tx_id
  next_tx_id-IsValid m h v =
      let e : (m.tx_id_counter + 1) % 2 ^ 64 ≡ m.tx_id_counter + 1 = omega arith in
      rw e (record {
        word = h;
        committed = omega (arith, v.committed);
        chain_ids = v.chain_ids;
        chains = ChainFits-le _ _ m.version_chains (omega arith) v.chains;
        active_ids = v.active_ids;
        active = ActiveFits-le _ _ _ _ m.active_txs (omega arith) (omega arith) v.active;
      })

  pub register_tx-IsValid :
      (m : Manager M) (tx : Transaction M)
      → tx.id ≤ m.tx_id_counter
      → tx.snapshot_tx_id ≤ m.last_committed_tx
      → IsValid m
      → IsValid (register_tx tx m)
  unfolding register_tx
  register_tx-IsValid m tx h g v = record {
    word = v.word;
    committed = v.committed;
    chain_ids = v.chain_ids;
    chains = v.chains;
    active_ids = put-Distinct _ _ m.active_txs v.active_ids;
    active =
        All-put (ActiveFits m.tx_id_counter m.last_committed_tx) _ _ m.active_txs (refl, h, g)
          v.active;
  }

  pub add_version-IsValid :
      (m : Manager M) (id : GoString) (w : Version M)
      → VersionFits m.tx_id_counter w
      → IsValid m
      → IsValid (add_version id w m)
  unfolding add_version
  add_version-IsValid m id w h v = record {
    word = v.word;
    committed = v.committed;
    chain_ids = put-Distinct id _ m.version_chains v.chain_ids;
    chains =
        All-put (ChainFits m.tx_id_counter) id _ m.version_chains (h, chain_of-Fits id m v)
          v.chains;
    active_ids = v.active_ids;
    active = v.active;
  }

  pub raise_last_committed-IsValid :
      (m : Manager M) (tx_id : ℕ)
      → tx_id ≤ m.tx_id_counter
      → IsValid m
      → IsValid (raise_last_committed tx_id m)
  unfolding raise_last_committed
  raise_last_committed-IsValid m tx_id h v = record {
    word = v.word;
    committed = ground (arith, v.committed, h);
    chain_ids = v.chain_ids;
    chains = v.chains;
    active_ids = v.active_ids;
    active =
        ActiveFits-le m.tx_id_counter m.tx_id_counter m.last_committed_tx _ m.active_txs
          (omega arith) (ground arith) v.active;
  }

  pub remove_tx-IsValid : (m : Manager M) (tx_id : ℕ) → IsValid m → IsValid (remove_tx tx_id m)
  unfolding remove_tx
  remove_tx-IsValid m tx_id v = record {
    word = v.word;
    committed = v.committed;
    chain_ids = v.chain_ids;
    chains = v.chains;
    active_ids = delete-Distinct tx_id m.active_txs v.active_ids;
    active =
        All-delete (ActiveFits m.tx_id_counter m.last_committed_tx) tx_id m.active_txs v.active;
  }

  pub abort_tx_by_id-IsValid :
      (m : Manager M) (tx_id : ℕ) → IsValid m → IsValid (abort_tx_by_id tx_id m).1
  unfolding abort_tx_by_id abort_tx
  abort_tx_by_id-IsValid m tx_id v = elim (Option-cases (get_tx tx_id m)) [
    | inl e ↦ rw (e, abort_tx_by_id) v
    | inr (tx, e) ↦ rw (e, abort_tx_by_id) (remove_tx-IsValid m tx.id v)
  ]

  mark_first-Fits :
      (n tx_id : ℕ) (chain : Chain M)
      → tx_id ≤ n
      → All (VersionFits n) chain
      → All (VersionFits n) (mark_first tx_id chain)
  unfolding mark_first
  mark_first-Fits n tx_id [] h all = tt
  mark_first-Fits n tx_id (v ∷ older) h all = ((all.0.0, h), all.1)

  pub delete_version-IsValid :
      (m : Manager M) (id : GoString) (tx_id : ℕ)
      → tx_id ≤ m.tx_id_counter
      → IsValid m
      → IsValid (delete_version id tx_id m).1
  unfolding delete_version
  delete_version-IsValid m id tx_id h v = elim (Option-cases (get_latest_version id m)) [
    | inl e ↦ rw (e, delete_version) v
    | inr (w, e) ↦
        rw (e, delete_version)
          (elim (Bool-cases (w.deleted_by_tx == 0)) [
            | inl live ↦ rw live (record {
              word = v.word;
              committed = v.committed;
              chain_ids = put-Distinct id _ m.version_chains v.chain_ids;
              chains =
                  All-put (ChainFits m.tx_id_counter) id _ m.version_chains
                    (mark_first-Fits m.tx_id_counter tx_id (chain_of id m) h (chain_of-Fits id m v))
                    v.chains;
              active_ids = v.active_ids;
              active = v.active;
            })
            | inr dead ↦ rw dead v
          ])
  ]

  gc_version_chain-Fits :
      (n min : ℕ) (chain : Chain M)
      → All (VersionFits n) chain
      → All (VersionFits n) (gc_version_chain min chain)
  unfolding gc_version_chain
  gc_version_chain-Fits n min [] all = tt
  gc_version_chain-Fits n min (v ∷ older) all = elim (Bool-cases (leb v.created_by_tx min)) [
    | inl cut ↦ rw cut (all.0, tt)
    | inr kept ↦ rw kept (all.0, gc_version_chain-Fits n min older all.1)
  ]

  gc_chains-Fits :
      (n min : ℕ) (chains : Dict GoString (Chain M))
      → All (ChainFits n) chains
      → All (ChainFits n) (gc_chains min chains)
  unfolding gc_chains
  gc_chains-Fits n min [] all = tt
  gc_chains-Fits n min ((id, chain) ∷ chains) all =
      elim (Bool-cases (is_nil (gc_version_chain min chain))) [
        | inl gone ↦ rw gone (gc_chains-Fits n min chains all.1)
        | inr kept ↦
            rw kept (gc_version_chain-Fits n min chain all.0, gc_chains-Fits n min chains all.1)
      ]

  gc_chains-missing :
      (min : ℕ) (id : GoString) (chains : Dict GoString (Chain M))
      → Dict.get id chains ≡ none
      → Dict.get id (gc_chains min chains) ≡ none
  unfolding Dict.get gc_chains
  gc_chains-missing min id [] h = refl
  gc_chains-missing min id ((j, chain) ∷ chains) h = ground (arith, gc_chains-missing min id chains)

  gc_chains-Distinct :
      (min : ℕ) (chains : Dict GoString (Chain M))
      → Distinct chains
      → Distinct (gc_chains min chains)
  unfolding gc_chains
  gc_chains-Distinct min [] d = d
  gc_chains-Distinct min ((id, chain) ∷ chains) d =
      elim (Bool-cases (is_nil (gc_version_chain min chain))) [
        | inl gone ↦ rw gone (gc_chains-Distinct min chains d.1)
        | inr kept ↦
            rw kept (gc_chains-missing min id chains d.0, gc_chains-Distinct min chains d.1)
      ]

  pub garbage_collect-IsValid : (m : Manager M) → IsValid m → IsValid (garbage_collect m)
  unfolding garbage_collect
  garbage_collect-IsValid m v = record {
    word = v.word;
    committed = v.committed;
    chain_ids = gc_chains-Distinct (get_min_active_snapshot m) m.version_chains v.chain_ids;
    chains = gc_chains-Fits m.tx_id_counter (get_min_active_snapshot m) m.version_chains v.chains;
    active_ids = v.active_ids;
    active = v.active;
  }

  pub new_manager-IsValid : IsValid new_manager
  unfolding new_manager
  new_manager-IsValid = record {
    word = omega arith;
    committed = omega arith;
    chain_ids = tt;
    chains = tt;
    active_ids = tt;
    active = tt;
  }

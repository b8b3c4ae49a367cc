-- ===== src/Mvcc/Collect.antt =====
-- Garbage collection: the minimum snapshot, and what readers see of a collected chain.
use magpie_db.Common.{
  ℕ, ◌≤◌, ◌<◌, ◌≡◌, refl, ap, ◌⊎◌, inl, inr, false, none, some, [], ◌∷◌, arith, ltb, leb,
  if◌then◌else◌, Bool-cases, GoString, string_eq_iff, ◌==◌, ℕ-Eq, GoString-Eq, length,
}
use mathlib.Core.Option.{some-injective}
use magpie_db.Dict
use magpie_db.Dict.{Dict, Distinct}
use magpie_db.Mvcc.{
  Chain, Transaction, Manager, or_nil, chain_of, visible_in, get_visible_version, min_snapshot,
  get_min_active_snapshot, gc_version_chain, is_nil, gc_chains, garbage_collect, count_versions,
  get_version_count,
}

module _ {M : Type 0} where
  -- The minimum snapshot is at most the last commit and the snapshot of each active transaction.
  min_snapshot-le : (s : ℕ) (txs : Dict ℕ (Transaction M)) → min_snapshot s txs ≤ s
  unfolding min_snapshot
  min_snapshot-le s [] = omega arith
  min_snapshot-le s ((id, tx) ∷ txs) =
      ground (arith, min_snapshot-le (if ltb tx.snapshot_tx_id s then tx.snapshot_tx_id else s) txs)

  min_snapshot-le_active :
      (s i : ℕ) (tx : Transaction M) (txs : Dict ℕ (Transaction M))
      → Dict.get i txs ≡ some tx
      → min_snapshot s txs ≤ tx.snapshot_tx_id
  unfolding min_snapshot Dict.get
  min_snapshot-le_active s i tx [] h = absurd (ground arith)
  min_snapshot-le_active s i tx ((j, u) ∷ txs) h =
      let s' : ℕ = if ltb u.snapshot_tx_id s then u.snapshot_tx_id else s in
      elim (Bool-cases (j == i)) [
        | inl same ↦
            let e : u ≡ tx = some-injective u tx (rw same at h) in
            let c : u.snapshot_tx_id ≡ tx.snapshot_tx_id =
              ap (λ (t : Transaction M). t.snapshot_tx_id) e in
            ground (arith, min_snapshot-le s' txs, c)
        | inr other ↦ min_snapshot-le_active s' i tx txs (rw other at h)
      ]

  -- The version at which the collector cuts the chain is not deleted for the snapshot `s`.
  abbrev pub CutIsLive : ℕ → ℕ → Chain M → Type 0
  CutIsLive min s [] = Unit
  CutIsLive min s (v ∷ older) =
      if leb v.created_by_tx min
      then ((v.deleted_by_tx ≡ 0) ⊎ (s < v.deleted_by_tx))
      else CutIsLive min s older

  visible_in-gc_version_chain :
      (min s : ℕ) (chain : Chain M)
      → min ≤ s
      → CutIsLive min s chain
      → visible_in s (gc_version_chain min chain) ≡ visible_in s chain
  unfolding visible_in gc_version_chain
  visible_in-gc_version_chain min s [] h live = refl
  visible_in-gc_version_chain min s (v ∷ older) h live =
      elim (Bool-cases (leb v.created_by_tx min)) [
        | inl cut ↦
            let here : (v.deleted_by_tx ≡ 0) ⊎ (s < v.deleted_by_tx) = rw cut at live in
            rw cut (ground arith)
        | inr kept ↦
            let deeper : CutIsLive min s older = rw kept at live in
            rw kept (ground (arith, visible_in-gc_version_chain min s older h deeper))
      ]

  chain_of_gc :
      (min : ℕ) (id : GoString) (chains : Dict GoString (Chain M))
      → Distinct chains
      → or_nil (Dict.get id (gc_chains min chains))
        ≡ gc_version_chain min (or_nil (Dict.get id chains))
  unfolding Dict.get gc_chains gc_version_chain is_nil
  chain_of_gc min id [] d = refl
  chain_of_gc min id ((j, []) ∷ chains) d = elim (Bool-cases (j == id)) [
    | inl same ↦
        let gone : Dict.get id chains ≡ none = rw ((string_eq_iff j id).0 same) at (d.0) in
        rw (chain_of_gc min id chains d.1, same, gone)
    | inr other ↦ rw (chain_of_gc min id chains d.1, other)
  ]
  chain_of_gc min id ((j, v ∷ chain) ∷ chains) d = elim (Bool-cases (leb v.created_by_tx min)) [
    | inl cut ↦ rw cut (elim (Bool-cases (j == id)) [
      | inl same ↦ rw (same, gc_version_chain) (rw cut)
      | inr other ↦ rw other (chain_of_gc min id chains d.1)
    ])
    | inr kept ↦ rw kept (elim (Bool-cases (j == id)) [
      | inl same ↦ rw (same, gc_version_chain) (rw kept)
      | inr other ↦ rw other (chain_of_gc min id chains d.1)
    ])
  ]

  -- Garbage collection keeps what every active transaction reads of an ID, if the version at which
  -- the ID's chain is cut is not deleted for the transaction's snapshot.
  pub get_visible_version-garbage_collect :
      (id : GoString) (tx : Transaction M) (m : Manager M)
      → Distinct m.version_chains
      → Dict.get tx.id m.active_txs ≡ some tx
      → CutIsLive (get_min_active_snapshot m) tx.snapshot_tx_id (chain_of id m)
      → get_visible_version id tx (garbage_collect m) ≡ get_visible_version id tx m
  unfolding get_visible_version garbage_collect get_min_active_snapshot
  get_visible_version-garbage_collect id tx m d active live =
      rw (chain_of_gc (get_min_active_snapshot m) id m.version_chains d) (
        visible_in-gc_version_chain (get_min_active_snapshot m) tx.snapshot_tx_id (chain_of id m)
          (min_snapshot-le_active m.last_committed_tx tx.id tx m.active_txs active) live)

  length-gc_version_chain :
      (min : ℕ) (chain : Chain M) → length (gc_version_chain min chain) ≤ length chain
  unfolding gc_version_chain
  length-gc_version_chain min [] = omega arith
  length-gc_version_chain min (v ∷ older) = ground (arith, length-gc_version_chain min older)

  count_versions-gc_chains :
      (min : ℕ) (chains : Dict GoString (Chain M))
      → count_versions (gc_chains min chains) ≤ count_versions chains
  unfolding count_versions gc_chains
  count_versions-gc_chains min [] = omega arith
  count_versions-gc_chains min ((id, chain) ∷ chains) =
      ground (arith, count_versions-gc_chains min chains, length-gc_version_chain min chain)

  gc_version_chain_twice :
      (min : ℕ) (chain : Chain M)
      → gc_version_chain min (gc_version_chain min chain) ≡ gc_version_chain min chain
  unfolding gc_version_chain
  gc_version_chain_twice min [] = refl
  gc_version_chain_twice min (v ∷ older) = elim (Bool-cases (leb v.created_by_tx min)) [
    | inl cut ↦ rw cut (ground arith)
    | inr kept ↦ rw kept (ground (arith, gc_version_chain_twice min older))
  ]

  is_nil-gc :
      (min : ℕ) (chain : Chain M)
      → is_nil chain ≡ false
      → is_nil (gc_version_chain min chain) ≡ false
  unfolding is_nil gc_version_chain
  is_nil-gc min [] h = h
  is_nil-gc min (v ∷ older) h = ground arith

  gc_chains_twice :
      (min : ℕ) (chains : Dict GoString (Chain M))
      → gc_chains min (gc_chains min chains) ≡ gc_chains min chains
  unfolding gc_chains
  gc_chains_twice min [] = refl
  gc_chains_twice min ((id, chain) ∷ chains) =
      elim (Bool-cases (is_nil (gc_version_chain min chain))) [
        | inl gone ↦ rw gone (gc_chains_twice min chains)
        | inr kept ↦
            rw (kept, gc_version_chain_twice min chain, kept)
              (ap (◌∷◌ (id, gc_version_chain min chain)) (gc_chains_twice min chains))
      ]

  -- Garbage collection never adds a version, and a second one right after it changes nothing.
  pub garbage_collect_settles :
      (m : Manager M)
      → (get_version_count (garbage_collect m) ≤ get_version_count m)
        × (garbage_collect (garbage_collect m) ≡ garbage_collect m)
  unfolding garbage_collect get_version_count get_min_active_snapshot
  garbage_collect_settles m = (
    count_versions-gc_chains (get_min_active_snapshot m) m.version_chains,
    ap (λ (c : Dict GoString (Chain M)). record m { version_chains = c })
        (gc_chains_twice (get_min_active_snapshot m) m.version_chains),
  )

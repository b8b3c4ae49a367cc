-- ===== src/Mvcc/Visible.antt =====
-- Reading a version: `GetVisibleVersion` against `IsVisible`, and what a reader sees of the
-- versions that others add.
use magpie_db.Common.{
  ◌≡◌, sym, ap, ◌∙◌, ◌↔◌, inl, inr, true, false, ◌&&◌, some, [], ◌∷◌, ◌++◌, arith, if◌then◌else◌,
  Bool-cases, GoString, string_eq_iff, ◌==◌, ℕ-Eq, GoString-Eq, All,
}
use mathlib.Core.Option.{some-injective}
use magpie_db.Dict.Laws.{get-put}
use magpie_db.Mvcc.{
  Version, Chain, Transaction, Manager, visible_in, get_visible_version, chain_of, add_version,
  is_visible,
}

module _ {M : Type 0} where
  visible_in_step :
      (tx : Transaction M) (v : Version M) (older : Chain M)
      → visible_in tx.snapshot_tx_id (v ∷ older)
        ≡ (if is_visible v tx then some v else visible_in tx.snapshot_tx_id older)
  unfolding visible_in is_visible
  visible_in_step tx v older = ground arith

  -- The chain is cut at `v`: nothing before it is visible to `tx`, and it is.
  abbrev pub FirstVisible : Transaction M → Chain M → Version M → Type 0
  FirstVisible tx chain v =
      (newer : Chain M) × (older : Chain M) × (chain ≡ newer ++ (v ∷ older))
      × (is_visible v tx ≡ true)
      × All (λ w. is_visible w tx ≡ false) newer

  visible_in_sound :
      (tx : Transaction M) (chain : Chain M) (v : Version M)
      → visible_in tx.snapshot_tx_id chain ≡ some v
      → FirstVisible tx chain v
  visible_in_sound tx [] v h = absurd (unfold visible_in in ground arith)
  visible_in_sound tx (w ∷ chain) v h = elim (Bool-cases (is_visible w tx)) [
    | inl seen ↦
        let same : w ≡ v = some-injective w v (sym (rw seen at (visible_in_step tx w chain)) ∙ h) in
        ([], chain, ap (λ (u : Version M). u ∷ chain) same, rw (← same) seen, tt)
    | inr hidden ↦
        let (newer, older, e, seen, all) =
          visible_in_sound tx chain v (sym (rw hidden at (visible_in_step tx w chain)) ∙ h) in
        (w ∷ newer, older, ap (◌∷◌ w) e, seen, (hidden, all))
  ]

  visible_in_complete :
      (tx : Transaction M) (newer older : Chain M) (v : Version M)
      → is_visible v tx ≡ true
      → All (λ w. is_visible w tx ≡ false) newer
      → visible_in tx.snapshot_tx_id (newer ++ (v ∷ older)) ≡ some v
  visible_in_complete tx [] older v h all = rw (visible_in_step tx v older, h)
  visible_in_complete tx (w ∷ newer) older v h all =
      rw (visible_in_step tx w (newer ++ (v ∷ older)), all.0)
        (visible_in_complete tx newer older v h all.1)

  -- `GetVisibleVersion` returns v exactly if v is the newest version of the chain that `IsVisible`
  -- accepts.
  pub get_visible_version-first :
      (id : GoString) (tx : Transaction M) (m : Manager M) (v : Version M)
      → (get_visible_version id tx m ≡ some v) ↔ FirstVisible tx (chain_of id m) v
  unfolding get_visible_version
  get_visible_version-first id tx m v = (
    visible_in_sound tx (chain_of id m) v,
    λ (newer, older, e, h, all). rw e (visible_in_complete tx newer older v h all),
  )

  pub chain_of-add_version :
      (id j : GoString) (v : Version M) (m : Manager M)
      → chain_of j (add_version id v m) ≡ (if id == j then v ∷ chain_of id m else chain_of j m)
  unfolding add_version chain_of
  chain_of-add_version id j v m = ground (arith, get-put id j (v ∷ chain_of id m) m.version_chains)

  -- A new version in front of the chain of one ID is what a transaction reads of that ID if
  -- `IsVisible` accepts it, and else changes none of its reads; no other ID is affected.
  pub get_visible_version-add_version :
      (id j : GoString) (v : Version M) (tx : Transaction M) (m : Manager M)
      → get_visible_version j tx (add_version id v m)
        ≡ (if id == j && is_visible v tx then some v else get_visible_version j tx m)
  unfolding get_visible_version
  get_visible_version-add_version id j v tx m = elim (Bool-cases (id == j)) [
    | inl same ↦
        rw (chain_of-add_version id j v m, same, (string_eq_iff id j).0 same)
          (visible_in_step tx v (chain_of j m))
    | inr other ↦ rw (chain_of-add_version id j v m, other)
  ]

  -- What a transaction reads is visible to it.
  pub get_visible_version-IsVisible :
      (id : GoString) (tx : Transaction M) (m : Manager M) (v : Version M)
      → get_visible_version id tx m ≡ some v
      → is_visible v tx ≡ true
  get_visible_version-IsVisible id tx m v h =
      let (newer, older, e, seen, all) = (get_visible_version-first id tx m v).0 h in seen

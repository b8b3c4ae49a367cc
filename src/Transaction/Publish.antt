-- ===== src/Transaction/Publish.antt =====
-- The loop of `makeVisibleMVCC`: the versions of a write set over those of the manager.
use magpie_db.Common.{
  ◌≡◌, sym, ap, ◌∙◌, inl, inr, Option, none, some, [], ◌∷◌, arith, Bool-cases, GoString,
  string_eq_iff, ◌==◌, ℕ-Eq, GoString-Eq, Result, ok, Result-cases,
}
use magpie_db.Dict
use magpie_db.Dict.{Dict, Distinct}
use magpie_db.Mvcc.{Version, Manager, get_latest_version, add_version}
use magpie_db.Mvcc.Latest.{get_latest_version-add_version}
use magpie_db.Transaction.{Nest, make_visible}

module _ {M : Type 0} where
  -- The latest version of each ID, with a write set over it.
  abbrev or_else : Option (Version M) → Option (Version M) → Option (Version M)
  or_else none p = p
  or_else (some v) p = some v

  abbrev pub overlay : Dict GoString (Version M) → Manager M → GoString → Option (Version M)
  overlay writes m id = or_else (Dict.get id writes) (get_latest_version id m)

  overlay-add :
      (j id : GoString) (v : Version M) (writes : Dict GoString (Version M)) (m : Manager M)
      → Dict.get j writes ≡ none
      → overlay writes (add_version j v m) id ≡ overlay ((j, v) ∷ writes) m id
  unfolding Dict.get
  overlay-add j id v writes m fresh = elim (Bool-cases (j == id)) [
    | inl same ↦
        let gone : Dict.get id writes ≡ none = rw ((string_eq_iff j id).0 same) at fresh in
        rw (same, gone, get_latest_version-add_version j id v m, same)
    | inr other ↦ rw (other, get_latest_version-add_version j id v m, other)
  ]

  pub record Published (writes : Dict GoString (Version M)) (m m' : Manager M) : Type 0 where
    pub latest : (id : GoString) → get_latest_version id m' ≡ overlay writes m id
    pub active_txs : m'.active_txs ≡ m.active_txs
    pub last_committed_tx : m'.last_committed_tx ≡ m.last_committed_tx

module _ {N M : Type 0} (nest : Nest N M) where
  pub make_visible-Published :
      (writes : Dict GoString (Version M)) (m m' : Manager M) (n n' : N)
      → Distinct writes
      → make_visible nest writes m n ≡ (ok tt, m', n')
      → Published writes m m'
  unfolding make_visible add_version Dict.get
  make_visible-Published [] m m' n n' d h =
      let same : m' ≡ m = ap (λ (p : Result (Unit {0}) × Manager M × N). p.1) (sym h) in
      record {
        latest = λ id. ap (get_latest_version id) same;
        active_txs = ap (λ (p : Manager M). p.active_txs) same;
        last_committed_tx = ap (λ (p : Manager M). p.last_committed_tx) same;
      }
  make_visible-Published ((j, v) ∷ writes) m m' n n' d h =
      elim (Result-cases (nest.store_version v n).0) [
        | inl fine ↦
            let rest =
              make_visible-Published writes (add_version j v m) m' (nest.store_version v n).1 n' d.1
                (rw (fine, make_visible) at h) in
            record {
              latest = λ id. rest.latest id ∙ overlay-add j id v writes m d.0;
              active_txs = rest.active_txs;
              last_committed_tx = rest.last_committed_tx;
            }
        | inr (inl (e, bad)) ↦ absurd (ground arith)
        | inr (inr bad) ↦ absurd (ground arith)
      ]

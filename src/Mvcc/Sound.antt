-- ===== src/Mvcc/Sound.antt =====
-- What holds of the manager and of the goroutines after any steps.
use mathlib.Core.Path.{subst}
use magpie_db.Common.{
  ℕ, ◌+◌, ◌^◌, ◌≤◌, ◌<◌, ◌≡◌, refl, sym, inl, inr, List, [], ◌∷◌, ◌++◌, arith, Bool-cases,
  Option-cases, GoString, ◌==◌, ℕ-Eq, GoString-Eq, All,
}
use magpie_db.Dict.Laws.{All-map}
use magpie_db.Mvcc.{
  Version, Transaction, Manager, next_tx_id, new_tx, register_tx, raise_last_committed, remove_tx,
  create_version, add_version, abort_tx_by_id, garbage_collect, delete_version, get_latest_version,
  get_tx, chain_of, abort_tx,
}
use magpie_db.Mvcc.Invariant.{
  IsValid, VersionFits, chain_of-Fits, new_manager-IsValid, next_tx_id-IsValid, register_tx-IsValid,
  raise_last_committed-IsValid, remove_tx-IsValid, abort_tx_by_id-IsValid, add_version-IsValid,
  delete_version-IsValid, garbage_collect-IsValid,
}
use magpie_db.Mvcc.Steps.{
  System, Taken, Step, Reach, number, load, register, raise, finish, abort, abort_by_id, create,
  mark, add, delete, collect, start, next,
}

Taken-All :
    {A : Type 0} (P : A → Type 0) (x : A) (rest xs : List A)
    → Taken x rest xs
    → All P xs
    → P x × All P rest
Taken-All {A} P x rest xs (front, back, whole, left) all =
    subst (λ l. P x × All P l) (sym left) (go front (subst (All P) whole all))
  where
    go : (front : List A) → All P (front ++ (x ∷ back)) → P x × All P (front ++ back)
    go [] all = all
    go (y ∷ front) all = let (here, others) = go front all.1 in (here, (all.0, others))

module _ {M : Type 0} where
  -- What holds of the manager and of all the steps that are under way.
  pub record IsSound (s : System M) : Type 0 where
    pub manager : IsValid s.manager
    pub numbered : All (λ i. i ≤ s.manager.tx_id_counter) s.numbered
    pub loaded :
        All
          (λ (t : Transaction M).
            (t.id ≤ s.manager.tx_id_counter) × (t.snapshot_tx_id ≤ s.manager.last_committed_tx))
          s.loaded
    pub issued : All (λ i. i ≤ s.manager.tx_id_counter) s.issued
    pub raised : All (λ i. i ≤ s.manager.tx_id_counter) s.raised
    pub made : All (VersionFits s.manager.tx_id_counter) s.made

  number-IsSound :
      (s : System M)
      → s.manager.tx_id_counter + 1 < 2 ^ 64
      → IsSound s
      → IsSound (record s {
        manager = (next_tx_id s.manager).0;
        numbered = (next_tx_id s.manager).1 ∷ s.numbered;
      })
  unfolding next_tx_id
  number-IsSound s h v = record {
    manager = next_tx_id-IsValid s.manager h v.manager;
    numbered = (omega arith, All-map _ _ s.numbered (λ i f. omega arith) v.numbered);
    loaded = All-map _ _ s.loaded (λ t f. (omega (arith, f.0), f.1)) v.loaded;
    issued = All-map _ _ s.issued (λ i f. omega arith) v.issued;
    raised = All-map _ _ s.raised (λ i f. omega arith) v.raised;
    made = All-map _ _ s.made (λ w f. (omega (arith, f.0), omega (arith, f.1))) v.made;
  }

  load-IsSound :
      (s : System M) (tx_id : ℕ) (rest : List ℕ)
      → Taken tx_id rest s.numbered
      → IsSound s
      → IsSound (record s { numbered = rest; loaded = new_tx tx_id s.manager ∷ s.loaded })
  unfolding new_tx
  load-IsSound s tx_id rest t v =
      let (fits, others) = Taken-All _ tx_id rest s.numbered t v.numbered in
      record {
        manager = v.manager;
        numbered = others;
        loaded = ((fits, omega arith), v.loaded);
        issued = v.issued;
        raised = v.raised;
        made = v.made;
      }

  register-IsSound :
      (s : System M) (tx : Transaction M) (rest : List (Transaction M))
      → Taken tx rest s.loaded
      → IsSound s
      → IsSound (record s {
        manager = register_tx tx s.manager;
        loaded = rest;
        issued = tx.id ∷ s.issued;
      })
  unfolding register_tx
  register-IsSound s tx rest t v =
      let (fits, others) = Taken-All _ tx rest s.loaded t v.loaded in
      record {
        manager = register_tx-IsValid s.manager tx fits.0 fits.1 v.manager;
        numbered = v.numbered;
        loaded = others;
        issued = (fits.0, v.issued);
        raised = v.raised;
        made = v.made;
      }

  raise-IsSound :
      (s : System M) (tx_id : ℕ)
      → tx_id ≤ s.manager.tx_id_counter
      → IsSound s
      → IsSound
          (record s { manager = raise_last_committed tx_id s.manager; raised = tx_id ∷ s.raised })
  unfolding raise_last_committed
  raise-IsSound s tx_id fits v = record {
    manager = raise_last_committed-IsValid s.manager tx_id fits v.manager;
    numbered = v.numbered;
    loaded = All-map _ _ s.loaded (λ t f. (f.0, ground (arith, f.1))) v.loaded;
    issued = v.issued;
    raised = (fits, v.raised);
    made = v.made;
  }

  -- An operation that leaves the two counters of the manager as they are.
  keeps-IsSound :
      (s : System M) (m : Manager M)
      → m.tx_id_counter ≡ s.manager.tx_id_counter
      → m.last_committed_tx ≡ s.manager.last_committed_tx
      → IsValid m
      → IsSound s
      → IsSound (record s { manager = m })
  keeps-IsSound s m counter last valid v = record {
    manager = valid;
    numbered = rw counter v.numbered;
    loaded = rw (counter, last) v.loaded;
    issued = rw counter v.issued;
    raised = rw counter v.raised;
    made = rw counter v.made;
  }

  make-IsSound :
      (s : System M) (v : Version M)
      → VersionFits s.manager.tx_id_counter v
      → IsSound s
      → IsSound (record s { made = v ∷ s.made })
  make-IsSound s w fits v = record {
    manager = v.manager;
    numbered = v.numbered;
    loaded = v.loaded;
    issued = v.issued;
    raised = v.raised;
    made = (fits, v.made);
  }

  abort_tx_by_id-counters :
      (m : Manager M) (tx_id : ℕ)
      → ((abort_tx_by_id tx_id m).1.tx_id_counter ≡ m.tx_id_counter)
        × ((abort_tx_by_id tx_id m).1.last_committed_tx ≡ m.last_committed_tx)
  unfolding abort_tx_by_id abort_tx remove_tx
  abort_tx_by_id-counters m tx_id = elim (Option-cases (get_tx tx_id m)) [
    | inl e ↦ rw (e, abort_tx_by_id) (refl, refl)
    | inr (tx, e) ↦ rw (e, abort_tx_by_id) (refl, refl)
  ]

  delete_version-counters :
      (m : Manager M) (id : GoString) (tx_id : ℕ)
      → ((delete_version id tx_id m).1.tx_id_counter ≡ m.tx_id_counter)
        × ((delete_version id tx_id m).1.last_committed_tx ≡ m.last_committed_tx)
  unfolding delete_version
  delete_version-counters m id tx_id = elim (Option-cases (get_latest_version id m)) [
    | inl e ↦ rw (e, delete_version) (refl, refl)
    | inr (w, e) ↦
        rw (e, delete_version)
          (elim (Bool-cases (w.deleted_by_tx == 0)) [
            | inl live ↦ rw live (refl, refl)
            | inr dead ↦ rw dead (refl, refl)
          ])
  ]

  Step-IsSound : {s t : System M} → Step s t → IsSound s → IsSound t
  unfolding remove_tx create_version add_version garbage_collect
  Step-IsSound {s} (number h) v = number-IsSound s h v
  Step-IsSound {s} (load tx_id rest t) v = load-IsSound s tx_id rest t v
  Step-IsSound {s} (register tx rest t) v = register-IsSound s tx rest t v
  Step-IsSound {s} (raise tx_id others t) v =
      raise-IsSound s tx_id (Taken-All _ tx_id others s.issued t v.issued).0 v
  Step-IsSound {s} (finish tx_id rest t) v =
      let kept =
        keeps-IsSound s (remove_tx tx_id s.manager) refl refl
          (remove_tx-IsValid s.manager tx_id v.manager) v in
      record {
        manager = kept.manager;
        numbered = kept.numbered;
        loaded = kept.loaded;
        issued = kept.issued;
        raised = (Taken-All _ tx_id rest s.raised t v.raised).1;
        made = kept.made;
      }
  Step-IsSound {s} (abort tx_id) v =
      keeps-IsSound s (remove_tx tx_id s.manager) refl refl
        (remove_tx-IsValid s.manager tx_id v.manager) v
  Step-IsSound {s} (abort_by_id tx_id) v =
      let (counter, last) = abort_tx_by_id-counters s.manager tx_id in
      keeps-IsSound s (abort_tx_by_id tx_id s.manager).1 counter last
        (abort_tx_by_id-IsValid s.manager tx_id v.manager) v
  Step-IsSound {s} (create tx_id others id vector metadata t) v =
      let fits = (Taken-All _ tx_id others s.issued t v.issued).0 in
      make-IsSound s (create_version tx_id id vector metadata) (fits, omega arith) v
  Step-IsSound {s} (mark tx_id others id w older t from) v =
      let fits = (Taken-All _ tx_id others s.issued t v.issued).0 in
      let created : w.created_by_tx ≤ s.manager.tx_id_counter = elim from [
        | inl m ↦ (Taken-All _ w older s.made m v.made).0.0
        | inr c ↦
            (Taken-All _ w older (chain_of id s.manager) c
              (chain_of-Fits id s.manager v.manager)).0.0
      ] in
      make-IsSound s (record w { deleted_by_tx = tx_id }) (created, fits) v
  Step-IsSound {s} (add id w others t) v =
      keeps-IsSound s (add_version id w s.manager) refl refl
        (add_version-IsValid s.manager id w (Taken-All _ w others s.made t v.made).0 v.manager) v
  Step-IsSound {s} (delete id tx_id others t) v =
      let (counter, last) = delete_version-counters s.manager id tx_id in
      keeps-IsSound s (delete_version id tx_id s.manager).1 counter last
        (delete_version-IsValid s.manager id tx_id (Taken-All _ tx_id others s.issued t v.issued).0
          v.manager)
        v
  Step-IsSound {s} collect v =
      keeps-IsSound s (garbage_collect s.manager) refl refl
        (garbage_collect-IsValid s.manager v.manager) v

  -- In every state that goroutines reach from a new manager, by any interleaving of their atomic
  -- steps: the last committed transaction, every version in a chain or still with its maker, and every
  -- transaction being begun or committed carry IDs that have been handed out; every active
  -- transaction is registered under its own ID with a snapshot no newer than the last commit; and no
  -- ID has two chains or two transactions. The counter does not wrap around; transactions are
  -- those that BeginTx returns, and versions are made by CreateVersion for one of them, or are copies
  -- of a version that one of them marks as deleted. Versions loaded from a file are not among them.
  pub Reach-IsSound : {s : System M} → Reach s → IsSound s
  Reach-IsSound start = record {
    manager = new_manager-IsValid;
    numbered = tt;
    loaded = tt;
    issued = tt;
    raised = tt;
    made = tt;
  }
  Reach-IsSound (next r step) = Step-IsSound step (Reach-IsSound r)

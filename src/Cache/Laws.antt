-- ===== src/Cache/Laws.antt =====
-- The cache as an LRU cache: what `Get` and `Put` keep, and when `Put` does not return.
use magpie_db.Common.{
  ℕ, suc, ◌≡◌, refl, sym, ap, ◌∙◌, ◌≢◌, inl, inr, Bool, true, false, ◌||◌, Option, none, some, List,
  ◌∷◌, arith, ltb, if◌then◌else◌, Option-cases, GoString, string_eq_iff, ◌==◌, eq_refl, eq_false,
  ℕ-Eq, GoString-Eq, length,
}
use mathlib.Core.Path.{subst}
use magpie_db.Dict
use magpie_db.Dict.{Dict}
use magpie_db.Dict.Laws.{get-put}
use magpie_db.Cache.{QueryCache, move_to_front, get, put, push}
use magpie_db.Cache.Keys.{mem, move_to_front-Moved}
use magpie_db.Cache.Evict.{is_there, last, kept, IsValid, Room, evict-Room, evict_never}

module _ {A : Type 0} where
  -- The key that `Put` evicts: the last of the list, if the key is new and the cache is full.
  abbrev pub victim : GoString → QueryCache A → Option GoString
  victim key qc =
      if is_there (Dict.get key qc.entries)
      then none
      else if ltb (length qc.lru_list) qc.max_size
      then none
      else last qc.lru_list

  -- The key is the newest, with its results, and of the others only the victim is gone.
  pub record Cached (key : GoString) (results : A) (qc qc' : QueryCache A) : Type 0 where
    pub valid : IsValid qc'
    pub newest : (older : List GoString) × (qc'.lru_list ≡ key ∷ older)
    pub found : (get key qc').0 ≡ some results
    pub others :
        (j : GoString)
        → key ≢ j
        → Dict.get j qc'.entries ≡ kept (victim key qc) j (Dict.get j qc.entries)

  found-put :
      (key : GoString) (results : A) (qc : QueryCache A) (keys : List GoString)
      → (get key (record qc { entries = Dict.put key results qc.entries; lru_list = keys })).0
        ≡ some results
  unfolding get
  found-put key results qc keys = rw (get-put key key results qc.entries, eq_refl key, get)

  kept-none : (k : Option GoString) (j : GoString) (o : Option A) → o ≡ none → kept k j o ≡ none
  kept-none none j o h = h
  kept-none (some k) j o h = ground arith

  there-put :
      (same b : Bool) (results : A) (o : Option A)
      → b ≡ is_there o
      → (same || b) ≡ is_there (if same then some results else o)
  there-put same b results o h = ground arith

  there-replace :
      (same b : Bool) (results : A) (o : Option A)
      → b ≡ is_there o
      → (same ≡ true → b ≡ true)
      → b ≡ is_there (if same then some results else o)
  there-replace true b results o h k = k refl
  there-replace false b results o h k = h

  put_other :
      (key j : GoString) (results : A) (entries : Dict GoString A)
      → key ≢ j
      → Dict.get j (Dict.put key results entries) ≡ Dict.get j entries
  put_other key j results entries ne = rw (get-put key j results entries, eq_false key j ne)

  pushed :
      (key : GoString) (results : A) (qc room : QueryCache A)
      → Dict.get key qc.entries ≡ none
      → Room qc room
      → Cached key results qc (push key results room)
  unfolding push
  pushed key results qc room new r =
      let v = r.valid in
      let absent : Dict.get key room.entries ≡ none =
        r.entries key ∙ kept-none _ key (Dict.get key qc.entries) new in
      record {
        valid = record {
          distinct = (v.agree key ∙ ap is_there absent, v.distinct);
          agree = λ j.
              there-put (key == j) (mem j room.lru_list) results (Dict.get j room.entries)
                (v.agree j)
              ∙ ap is_there (sym (get-put key j results room.entries));
          bounded = omega (arith, r.short);
          room = v.room;
        };
        newest = (room.lru_list, refl);
        found = found-put key results room (key ∷ room.lru_list);
        others = λ j ne. rw (new, ← r.entries j) (put_other key j results room.entries ne);
      }

  updated :
      (key : GoString) (results old : A) (qc : QueryCache A)
      → IsValid qc
      → Dict.get key qc.entries ≡ some old
      → Cached key results qc (record qc {
        lru_list = move_to_front key qc.lru_list;
        entries = Dict.put key results qc.entries;
      })
  updated key results old qc v there =
      let there_too : mem key qc.lru_list ≡ true = v.agree key ∙ ap is_there there in
      let m = move_to_front-Moved key qc.lru_list v.distinct there_too in
      record {
        valid = record {
          distinct = m.distinct;
          agree = λ j.
              m.same_keys j
              ∙ there-replace (key == j) (mem j qc.lru_list) results (Dict.get j qc.entries)
                  (v.agree j)
                  (λ h. subst (λ k. mem k qc.lru_list ≡ true) ((string_eq_iff key j).0 h) there_too)
              ∙ ap is_there (sym (get-put key j results qc.entries));
          bounded = omega (arith, m.same_length, v.bounded);
          room = v.room;
        };
        newest = unfold move_to_front in (_, refl);
        found = found-put key results qc (move_to_front key qc.lru_list);
        others = λ j ne. rw there (put_other key j results qc.entries ne);
      }

  -- `Put` on a valid cache returns after at most one eviction: the cache is valid, the key is the
  -- newest and is found with its results, and of the other entries exactly the victim is gone.
  pub put-Cached :
      (n : ℕ) (key : GoString) (results : A) (qc : QueryCache A)
      → IsValid qc
      → (qc' : QueryCache A) × (put (suc (suc n)) key results qc ≡ some qc')
        × Cached key results qc qc'
  unfolding put
  put-Cached n key results qc v = elim (Option-cases (Dict.get key qc.entries)) [
    | inl new ↦
        let (room, returns, r) = evict-Room n qc v in
        (push key results room, rw (new, returns, put), pushed key results qc room new r)
    | inr (old, there) ↦ (_, rw (there, put), updated key results old qc v there)
  ]

  -- With a maximum of 0, `Put` of a key that is not there never leaves its eviction loop, whatever
  -- the fuel.
  pub put_never_returns :
      (fuel : ℕ) (key : GoString) (results : A) (qc : QueryCache A)
      → qc.max_size ≡ 0
      → Dict.get key qc.entries ≡ none
      → put fuel key results qc ≡ none
  unfolding put
  put_never_returns fuel key results qc zero_size new = rw (new, put, evict_never fuel qc zero_size)

  -- `Get` of a valid cache returns the entry of the key and leaves every entry as it is; the cache
  -- is valid, and a key that is found is the newest.
  pub get-newest :
      (key : GoString) (qc : QueryCache A)
      → IsValid qc
      → let (found, qc') = get key qc in
        (found ≡ Dict.get key qc.entries)
        × (qc'.entries ≡ qc.entries)
        × IsValid qc'
        × (is_there found ≡ true → (older : List GoString) × (qc'.lru_list ≡ key ∷ older))
  unfolding get
  get-newest key qc v = elim (Option-cases (Dict.get key qc.entries)) [
    | inl missing ↦
        rw (missing, get)
          (
            refl,
            refl,
            record { distinct = v.distinct; agree = v.agree; bounded = v.bounded; room = v.room },
            λ h. absurd (ground arith),
          )
    | inr (results, there) ↦
        let there_too : mem key qc.lru_list ≡ true = v.agree key ∙ ap is_there there in
        let m = move_to_front-Moved key qc.lru_list v.distinct there_too in
        rw (there, get)
          (
            refl,
            refl,
            record {
              distinct = m.distinct;
              agree = λ j. m.same_keys j ∙ v.agree j;
              bounded = omega (arith, m.same_length, v.bounded);
              room = v.room;
            },
            λ h. (unfold move_to_front in (_, refl)),
          )
  ]

-- ===== src/Cache/Evict.antt =====
-- The eviction loop: how much fuel it needs, what it evicts, and when it does not end.
use magpie_db.Common.{
  ℕ, zero, suc, ◌≤◌, ◌<◌, ◌≡◌, refl, sym, ap, ◌∙◌, inl, inr, Bool, true, false, not, ◌&&◌, Option,
  none, some, List, [], ◌∷◌, arith, ltb, if◌then◌else◌, lt→ltb, Bool-cases, GoString, ◌==◌, ℕ-Eq,
  GoString-Eq, length,
}
use mathlib.Core.Path.{subst}
use magpie_db.Dict
use magpie_db.Dict.{Dict}
use magpie_db.Dict.Laws.{get-delete}
use magpie_db.Cache.{QueryCache, split_back, evict, evict_oldest}
use magpie_db.Cache.Keys.{mem, NoDup, split_back-Split}

abbrev pub is_there {ℓ} : {A : Type ℓ} → Option A → Bool
is_there none = false
is_there (some a) = true

-- The last key of a list.
abbrev pub last : List GoString → Option GoString
last [] = none
last (x ∷ xs) = elim (last xs) [ none ↦ some x | some y ↦ some y ]

last-split_back : (x : GoString) (xs : List GoString) → last (x ∷ xs) ≡ some (split_back x xs).1
unfolding split_back
last-split_back x [] = refl
last-split_back x (y ∷ ys) = rw (last-split_back y ys)

-- An entry of the key `j`, unless that is the key that has to go.
abbrev pub kept {ℓ} : {A : Type ℓ} → Option GoString → GoString → Option A → Option A
kept none j o = o
kept (some k) j o = if k == j then none else o

module _ {A : Type 0} where
  -- The list has each key of the map once and no other, and no more than fit.
  pub record IsValid (qc : QueryCache A) : Type 0 where
    pub distinct : NoDup qc.lru_list
    pub agree : (j : GoString) → mem j qc.lru_list ≡ is_there (Dict.get j qc.entries)
    pub bounded : length qc.lru_list ≤ qc.max_size
    pub room : 0 < qc.max_size

  there-kept :
      (k j : GoString) (b : Bool) (o : Option A)
      → b ≡ is_there o
      → (not (k == j) && b) ≡ is_there (if k == j then none else o)
  there-kept k j b o h = ground arith

  -- A full cache after one round of the eviction loop.
  evicted :
      (qc : QueryCache A) (x : GoString) (xs : List GoString)
      → qc.lru_list ≡ x ∷ xs
      → IsValid qc
      → IsValid (record qc {
        entries = Dict.delete (split_back x xs).1 qc.entries;
        lru_list = (split_back x xs).0;
      })
  evicted qc x xs e v =
      let s = split_back-Split x xs (subst NoDup e v.distinct) in
      let back = (split_back x xs).1 in
      record {
        distinct = s.distinct;
        agree = λ j.
            s.rest j
            ∙ there-kept back j (mem j (x ∷ xs)) (Dict.get j qc.entries)
                (ap (mem j) (sym e) ∙ v.agree j)
            ∙ ap is_there (sym (get-delete back j qc.entries));
        bounded = omega (arith, s.shorter, ap length e, v.bounded);
        room = v.room;
      }

  -- The cache with room for a key.
  pub record Room (qc room : QueryCache A) : Type 0 where
    pub valid : IsValid room
    pub short : length room.lru_list < room.max_size
    pub entries :
        (j : GoString)
        → Dict.get j room.entries
          ≡ kept
              (if ltb (length qc.lru_list) qc.max_size then none else last qc.lru_list)
              j
              (Dict.get j qc.entries)

  evict_oldest_lem :
      (qc : QueryCache A) (x : GoString) (xs : List GoString)
      → qc.lru_list ≡ x ∷ xs
      → evict_oldest qc ≡ record qc {
        entries = Dict.delete (split_back x xs).1 qc.entries;
        lru_list = (split_back x xs).0;
      }
  unfolding evict_oldest
  evict_oldest_lem qc x xs e = rw (e, evict_oldest)

  full_Room :
      (qc : QueryCache A) (l : List GoString)
      → qc.lru_list ≡ l
      → IsValid qc
      → ltb (length qc.lru_list) qc.max_size ≡ false
      → Room qc (evict_oldest qc)
  full_Room qc [] e v full =
      let none_left : length qc.lru_list ≡ 0 = ap length e in absurd (ground (arith, v.room))
  full_Room qc (x ∷ xs) e v full =
      let s = split_back-Split x xs (subst NoDup e v.distinct) in
      subst (Room qc) (sym (evict_oldest_lem qc x xs e)) (record {
        valid = evicted qc x xs e v;
        short = omega (arith, s.shorter, ap length e, v.bounded);
        entries =
            λ j. rw (full, e, last-split_back x xs) (get-delete (split_back x xs).1 j qc.entries);
      })

  pub evict-Room :
      (n : ℕ) (qc : QueryCache A)
      → IsValid qc
      → (room : QueryCache A) × (evict (suc (suc n)) qc ≡ some room) × Room qc room
  unfolding evict
  evict-Room n qc v = elim (Bool-cases (ltb (length qc.lru_list) qc.max_size)) [
    | inl short ↦
        (qc, rw short, record { valid = v; short = ground arith; entries = λ j. rw short })
    | inr full ↦
        let r = full_Room qc qc.lru_list refl v full in
        let fits = lt→ltb (length (evict_oldest qc).lru_list) (evict_oldest qc).max_size r.short in
        (evict_oldest qc, rw (full, fits), r)
  ]

  evict_oldest-max_size :
      (qc : QueryCache A) (l : List GoString)
      → qc.lru_list ≡ l
      → (evict_oldest qc).max_size ≡ qc.max_size
  unfolding evict_oldest
  evict_oldest-max_size qc [] e = rw (e, evict_oldest)
  evict_oldest-max_size qc (x ∷ xs) e = rw (e, evict_oldest)

  pub evict_never : (fuel : ℕ) (qc : QueryCache A) → qc.max_size ≡ 0 → evict fuel qc ≡ none
  unfolding evict
  evict_never zero qc h = refl
  evict_never (suc fuel) qc h =
      let full : ltb (length qc.lru_list) qc.max_size ≡ false = ground arith in
      rw full (evict_never fuel (evict_oldest qc) (evict_oldest-max_size qc qc.lru_list refl ∙ h))

-- ===== src/Cache.antt =====
-- The query cache: cache.go. `lru_list` holds the keys of the list's elements, its front first; a
-- cache entry is its results, of type `A`, since the key and the element that it points to are the
-- map's key and the list's element with that key. The counters are 64-bit patterns. A negative
-- `maxSize` acts as 0 does. `GenerateCacheKey` is a hash of floating-point values and is left out.
pub mod Keys
pub mod Evict
pub mod Laws
mod Tests
use magpie_db.Common.{
  ℕ, zero, suc, ◌+◌, ◌-◌, ◌*◌, ◌/◌, ◌%◌, ◌^◌, ◌≤◌, ◌<◌, ◌≡◌, refl, sym, ap, ◌∙◌, fun_ext, ◌≢◌, ◌↔◌,
  ◌⊎◌, inl, inr, Bool, true, false, not, ◌&&◌, ◌||◌, Option, none, some, List, [], ◌∷◌, ◌++◌, map,
  arith, ltb, leb, if◌then◌else◌, ltb→lt, lt→ltb, leb→le, le→leb, nat_eq, nat_eq_iff, Bool-cases,
  Option-cases, GoString, string_eq, string_eq_iff, Eq, ◌==◌, eq_refl, eq_false, ℕ-Eq, GoString-Eq,
  length, get_elem?, take, drop, replicate, All, length-append, length-take, length-drop,
  length-replicate, take-append_length, drop-append_length, take_all, take-append-drop, length-map,
  Error, Result, ok, err, panic, ◌>>=◌, ◌>>◌, reject, in_range, >>=-eq-ok, Result-cases, codes,
}
use magpie_db.Dict
use magpie_db.Dict.{Dict}

pub record QueryCache (A : Type 0) : Type 0 where
  pub entries : Dict GoString A
  pub lru_list : List GoString
  pub max_size : ℕ
  pub hit_count : ℕ
  pub miss_count : ℕ

-- `lruList.Remove` of the element with the key.
unfoldable pub remove_key : GoString → List GoString → List GoString
remove_key k [] = []
remove_key k (x ∷ xs) = let rest = remove_key k xs in if x == k then xs else x ∷ rest

-- `lruList.MoveToFront`
unfoldable pub move_to_front : GoString → List GoString → List GoString
move_to_front k keys = k ∷ remove_key k keys

-- `lruList.Back`, and the list without it.
unfoldable pub split_back : GoString → List GoString → List GoString × GoString
split_back x [] = ([], x)
split_back x (y ∷ ys) = let (keys, back) = split_back y ys in (x ∷ keys, back)

module _ {A : Type 0} where
  unfoldable pub new_query_cache : ℕ → QueryCache A
  new_query_cache max_size = record {
    entries = [];
    lru_list = [];
    max_size = max_size;
    hit_count = 0;
    miss_count = 0;
  }

  unfoldable pub get : GoString → QueryCache A → Option A × QueryCache A
  get key qc = elim (Dict.get key qc.entries) [
    | none ↦ (none, record qc { miss_count = (qc.miss_count + 1) % 2 ^ 64 })
    | some results ↦ (
      some results,
      record qc {
        lru_list = move_to_front key qc.lru_list;
        hit_count = (qc.hit_count + 1) % 2 ^ 64;
      },
    )
  ]

  -- One round of the eviction loop.
  unfoldable pub evict_oldest : QueryCache A → QueryCache A
  evict_oldest qc = elim qc.lru_list [
    | [] ↦ qc
    | x ∷ xs ↦
        let (keys, old_key) = split_back x xs in
        record qc { entries = Dict.delete old_key qc.entries; lru_list = keys }
  ]

  -- `for qc.lruList.Len() >= qc.maxSize`, on fuel: `none` when the fuel runs out.
  unfoldable pub evict : ℕ → QueryCache A → Option (QueryCache A)
  unfolding evict_oldest
  evict zero qc = none
  evict (suc fuel) qc =
      let rest = evict fuel (evict_oldest qc) in
      if ltb (length qc.lru_list) qc.max_size then some qc else rest

  push : GoString → A → QueryCache A → QueryCache A
  push key results qc = record qc {
    entries = Dict.put key results qc.entries;
    lru_list = key ∷ qc.lru_list;
  }

  unfoldable pub put : ℕ → GoString → A → QueryCache A → Option (QueryCache A)
  unfolding push
  put fuel key results qc = elim (Dict.get key qc.entries) [
    | some old ↦ some (record qc {
      lru_list = move_to_front key qc.lru_list;
      entries = Dict.put key results qc.entries;
    })
    | none ↦ elim (evict fuel qc) [ none ↦ none | some room ↦ some (push key results room) ]
  ]

  unfoldable pub invalidate : QueryCache A → QueryCache A
  invalidate qc = record qc { entries = []; lru_list = [] }

  unfoldable pub size : QueryCache A → ℕ
  size qc = length qc.entries

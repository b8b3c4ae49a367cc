-- ===== src/Cache/Tests.antt =====
-- A cache of two entries.
use magpie_db.Common.{ℕ, ◌≡◌, refl, none, some, [], ◌∷◌, arith, GoString, ℕ-Eq, GoString-Eq, codes}
use magpie_db.Dict
use magpie_db.Cache.{QueryCache, new_query_cache, put, evict, split_back}
use magpie_db.Cache.Evict.{IsValid}
use magpie_db.Cache.Laws.{Cached, put-Cached}

abbrev a : GoString
a = codes "a"

abbrev b : GoString
b = codes "b"

abbrev c : GoString
c = codes "c"

abbrev full : QueryCache ℕ
full = record {
  entries = (a, 1) ∷ (b, 2) ∷ [];
  lru_list = b ∷ a ∷ [];
  max_size = 2;
  hit_count = 0;
  miss_count = 0;
}

full-IsValid : IsValid full
unfolding Dict.get
full-IsValid = record {
  distinct = (refl, (refl, tt));
  agree = λ j. ground arith;
  bounded = omega arith;
  room = omega arith;
}

evicts_oldest :
    put 3 c 3 full ≡ some (record full { entries = (b, 2) ∷ (c, 3) ∷ []; lru_list = c ∷ b ∷ [] })
unfolding put evict Dict.get Dict.put Dict.delete split_back
evicts_oldest = refl

put-Cached_example : (qc' : QueryCache ℕ) × (put 2 c 3 full ≡ some qc') × Cached c 3 full qc'
put-Cached_example = put-Cached 0 c 3 full full-IsValid

missing : Dict.get c (new_query_cache {A = ℕ} 0).entries ≡ none
unfolding new_query_cache Dict.get
missing = refl

no_room : (new_query_cache {A = ℕ} 0).max_size ≡ 0
unfolding new_query_cache
no_room = refl

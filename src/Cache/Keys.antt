-- ===== src/Cache/Keys.antt =====
-- The keys of the cache's list: membership, and what the list operations do to it.
use magpie_db.Common.{
  suc, ◌≡◌, refl, ap, inl, inr, Bool, true, false, not, ◌&&◌, ◌||◌, List, [], ◌∷◌, ◌++◌, arith,
  Bool-cases, GoString, string_eq_iff, ◌==◌, eq_refl, ℕ-Eq, GoString-Eq, length,
}
use magpie_db.Cache.{remove_key, move_to_front, split_back}

abbrev pub mem : GoString → List GoString → Bool
mem k [] = false
mem k (x ∷ xs) = x == k || mem k xs

abbrev pub NoDup : List GoString → Type 0
NoDup [] = Unit
NoDup (x ∷ xs) = (mem x xs ≡ false) × NoDup xs

same_key : (j k : GoString) → (j == k) ≡ true → j ≡ k
same_key j k = (string_eq_iff j k).0

mem-remove_key :
    (k j : GoString) (keys : List GoString)
    → NoDup keys
    → mem j (remove_key k keys) ≡ (not (k == j) && mem j keys)
unfolding remove_key
mem-remove_key k j [] d = ground arith
mem-remove_key k j (x ∷ keys) d = ground (
  arith,
  string_eq_iff k j,
  string_eq_iff x k,
  string_eq_iff x j,
  d.0,
  mem-remove_key k j keys d.1,
)

NoDup-remove_key : (k : GoString) (keys : List GoString) → NoDup keys → NoDup (remove_key k keys)
unfolding remove_key
NoDup-remove_key k [] d = tt
NoDup-remove_key k (x ∷ keys) d = elim (Bool-cases (x == k)) [
  | inl here ↦ rw here d.1
  | inr there ↦
      rw there (ground (arith, mem-remove_key k x keys d.1, d.0), NoDup-remove_key k keys d.1)
]

length-remove_key :
    (k : GoString) (keys : List GoString)
    → mem k keys ≡ true
    → suc (length (remove_key k keys)) ≡ length keys
unfolding remove_key
length-remove_key k [] h = absurd (ground arith)
length-remove_key k (x ∷ keys) h = ground (arith, length-remove_key k keys)

-- A key that is there, moved to the front.
pub record Moved (k : GoString) (keys moved : List GoString) : Type 0 where
  pub distinct : NoDup moved
  pub same_keys : (j : GoString) → mem j moved ≡ mem j keys
  pub same_length : length moved ≡ length keys

pub move_to_front-Moved :
    (k : GoString) (keys : List GoString)
    → NoDup keys
    → mem k keys ≡ true
    → Moved k keys (move_to_front k keys)
unfolding move_to_front
move_to_front-Moved k keys d h = record {
  distinct = (ground (arith, mem-remove_key k k keys d, eq_refl k), NoDup-remove_key k keys d);
  same_keys = λ j. ground (arith, mem-remove_key k j keys d, string_eq_iff k j, h);
  same_length = length-remove_key k keys h;
}

-- A list without its last key.
pub record Split (x : GoString) (xs front : List GoString) (back : GoString) : Type 0 where
  pub whole : x ∷ xs ≡ front ++ (back ∷ [])
  pub distinct : NoDup front
  pub rest : (j : GoString) → mem j front ≡ (not (back == j) && mem j (x ∷ xs))
  pub there : mem back (x ∷ xs) ≡ true
  pub shorter : suc (length front) ≡ length (x ∷ xs)

pub split_back-Split :
    (x : GoString) (xs : List GoString)
    → NoDup (x ∷ xs)
    → Split x xs (split_back x xs).0 (split_back x xs).1
unfolding split_back
split_back-Split x [] d = record {
  whole = refl;
  distinct = tt;
  rest = λ j. ground arith;
  there = ground (arith, eq_refl x);
  shorter = refl;
}
split_back-Split x (y ∷ ys) d =
    let deeper = split_back-Split y ys d.1 in
    let keys = (split_back y ys).0 in
    let back = (split_back y ys).1 in
    record {
      whole = ap (◌∷◌ x) deeper.whole;
      distinct = (ground (arith, deeper.rest x, d.0), deeper.distinct);
      rest = λ j. ground (
        arith,
        deeper.rest j,
        deeper.there,
        d.0,
        string_eq_iff x j,
        string_eq_iff back j,
        string_eq_iff back x,
      );
      there = ground (arith, deeper.there);
      shorter = ap suc deeper.shorter;
    }

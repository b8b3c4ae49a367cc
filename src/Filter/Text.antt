-- ===== src/Filter/Text.antt =====
-- What filter.go uses of package strings: `HasPrefix`, `HasSuffix` and `Contains`.
use magpie_db.Common.{
  ◌-◌, ◌≡◌, refl, ap, inl, inr, Bool, true, false, ◌&&◌, ◌||◌, [], ◌∷◌, ◌++◌, arith, leb, nat_eq,
  Bool-cases, GoString, string_eq, string_eq_iff, ℕ-Eq, GoString-Eq, length, take, drop,
  length-append, drop-append_length, take-append-drop,
}

unfoldable pub has_prefix : GoString → GoString → Bool
has_prefix s [] = true
has_prefix [] (p ∷ ps) = false
has_prefix (c ∷ s) (p ∷ ps) = nat_eq c p && has_prefix s ps

-- `len(s) >= len(suffix) && s[len(s)-len(suffix):] == suffix`
unfoldable pub has_suffix : GoString → GoString → Bool
has_suffix s t = leb (length t) (length s) && string_eq (drop (length s - length t) s) t

unfoldable pub has_substring : GoString → GoString → Bool
unfolding has_prefix
has_substring [] sub = has_prefix [] sub
has_substring (c ∷ s) sub = has_prefix (c ∷ s) sub || has_substring s sub

pub has_prefix_sound : (s p : GoString) → has_prefix s p ≡ true → (r : GoString) × (s ≡ p ++ r)
unfolding has_prefix
has_prefix_sound s [] h = (s, refl)
has_prefix_sound [] (p ∷ ps) h = absurd (ground arith)
has_prefix_sound (c ∷ s) (p ∷ ps) h =
    let (r, e) = has_prefix_sound s ps (ground arith) in (r, ground arith)

pub has_prefix_complete : (p r : GoString) → has_prefix (p ++ r) p ≡ true
unfolding has_prefix
has_prefix_complete [] r = refl
has_prefix_complete (c ∷ p) r = ground (arith, has_prefix_complete p r)

pub has_suffix_sound : (s t : GoString) → has_suffix s t ≡ true → (r : GoString) × (s ≡ r ++ t)
unfolding has_suffix
has_suffix_sound s t h = (
  take (length s - length t) s,
  ground (
    arith,
    string_eq_iff (drop (length s - length t) s) t,
    take-append-drop (length s - length t) s,
  ),
)

pub has_suffix_complete : (r t : GoString) → has_suffix (r ++ t) t ≡ true
unfolding has_suffix
has_suffix_complete r t = ground (
  arith,
  string_eq_iff (drop (length (r ++ t) - length t) (r ++ t)) t,
  length-append {0} r t,
  drop-append_length r t (length (r ++ t) - length t),
)

pub has_substring_sound :
    (s sub : GoString)
    → has_substring s sub ≡ true
    → (a : GoString) × (b : GoString) × (s ≡ a ++ (sub ++ b))
unfolding has_substring
has_substring_sound [] sub h = let (r, e) = has_prefix_sound [] sub h in ([], r, e)
has_substring_sound (c ∷ s) sub h = elim (Bool-cases (has_prefix (c ∷ s) sub)) [
  | inl here ↦ let (r, e) = has_prefix_sound (c ∷ s) sub here in ([], r, e)
  | inr later ↦ let (a, b, e) = has_substring_sound s sub (ground arith) in (c ∷ a, b, ap (◌∷◌ c) e)
]

pub has_substring_complete : (a sub b : GoString) → has_substring (a ++ (sub ++ b)) sub ≡ true
unfolding has_substring
has_substring_complete [] [] [] = refl
has_substring_complete [] [] (c ∷ b) = refl
has_substring_complete [] (c ∷ sub) b = ground (arith, has_prefix_complete (c ∷ sub) b)
has_substring_complete (c ∷ a) sub b = ground (arith, has_substring_complete a sub b)

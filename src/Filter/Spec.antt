-- ===== src/Filter/Spec.antt =====
-- What a filter means, read as a predicate on the metadata, and that `Match` decides it.
use magpie_db.Common.{
  ◌≡◌, refl, sym, ◌⊎◌, inl, inr, Bool, true, false, not, ◌&&◌, Option, none, some, List, [], ◌∷◌,
  ◌++◌, arith, GoString, ℕ-Eq, GoString-Eq, Result, ok, err, panic, ◌>>=◌,
}
use magpie_db.Dict
use mathlib.Core.Option.{some-injective}
use mathlib.Core.Path.{subst}
use magpie_db.Filter.Text.{
  has_prefix, has_suffix, has_substring, has_prefix_sound, has_prefix_complete, has_suffix_sound,
  has_suffix_complete, has_substring_sound, has_substring_complete,
}
use magpie_db.Filter.{
  GoLib, Value, string, Metadata, Filter, Filters, simple_filter, equals_filter, not_equals_filter,
  in_filter, range_filter, exists_filter, not_exists_filter, contains_filter, starts_with_filter,
  ends_with_filter, regex_filter, not_filter, all_filter, any_filter, and_filter, or_filter, nil,
  cons, iface_eq, number, text, equals_value, not_equals_value, in_values, in_value, range_value,
  text_value, is_some, matches, match_all, match_any,
}

-- The key is there, with a value of which `P` holds.
abbrev pub AtKey : {g : GoLib} → GoString → Metadata g → (Value g → Type 0) → Type 0
AtKey {g} k md P = (v : Value g) × (Dict.get k md ≡ some v) × P v

abbrev pub AtText : {g : GoLib} → GoString → Metadata g → (GoString → Type 0) → Type 0
AtText {g} k md P = (s : GoString) × (Dict.get k md ≡ some (string s)) × P s

abbrev pub SameAsOne : {g : GoLib} → Value g → List (Value g) → Type 0
SameAsOne v [] = ⊥
SameAsOne v (w ∷ ws) = (iface_eq v w ≡ ok true) ⊎ SameAsOne v ws

abbrev mutual
  pub Holds : {g : GoLib} → Filter g → Metadata g → Type 0
  Holds (simple_filter k w) md = AtKey k md (λ v. iface_eq v w ≡ ok true)
  Holds (equals_filter k w) md = AtKey k md (λ v. iface_eq v w ≡ ok true)
  Holds (not_equals_filter k w) md = ¬ AtKey k md (λ v. iface_eq v w ≡ ok true)
  Holds (in_filter k ws) md = AtKey k md (λ v. SameAsOne v ws)
  Holds {g} (range_filter k lo hi) md =
      AtKey k md
        (λ v. (x : g.Float64) × (number v ≡ some x) × (g.le64 lo x ≡ true) × (g.le64 x hi ≡ true))
  Holds (exists_filter k) md = AtKey k md (λ v. Unit)
  Holds (not_exists_filter k) md = Dict.get k md ≡ none
  Holds (contains_filter k sub) md =
      AtText k md (λ s. (a : GoString) × (b : GoString) × (s ≡ a ++ (sub ++ b)))
  Holds (starts_with_filter k p) md = AtText k md (λ s. (r : GoString) × (s ≡ p ++ r))
  Holds (ends_with_filter k p) md = AtText k md (λ s. (r : GoString) × (s ≡ r ++ p))
  Holds {g} (regex_filter k p) md = AtText k md (λ s. g.match_string p s ≡ true)
  Holds (not_filter f) md = ¬ Holds f md
  Holds (all_filter fs) md = HoldsAll fs md
  Holds (any_filter fs) md = HoldsAny fs md
  Holds (and_filter fs) md = HoldsAll fs md
  Holds (or_filter fs) md = HoldsAny fs md

  pub HoldsAll : {g : GoLib} → Filters g → Metadata g → Type 0
  HoldsAll nil md = Unit
  HoldsAll (cons f fs) md = Holds f md × HoldsAll fs md

  pub HoldsAny : {g : GoLib} → Filters g → Metadata g → Type 0
  HoldsAny nil md = ⊥
  HoldsAny (cons f fs) md = Holds f md ⊎ HoldsAny fs md

-- A result that decides a type: no claim where the code panics.
abbrev pub Decides : Result Bool → Type 0 → Type 0
Decides r P = (r ≡ ok true → P) × (r ≡ ok false → ¬ P)

any_decides :
    {P Q : Type 0} (r s : Result Bool)
    → Decides r P
    → Decides s Q
    → Decides (r >>= λ b. elim b [ true ↦ ok true | false ↦ s ]) (P ⊎ Q)
any_decides (ok true) s p q = (λ h. inl (p.0 refl), λ h. absurd (ground arith))
any_decides (ok false) s p q =
    (λ h. inr (q.0 h), λ h x. elim x [ inl a ↦ p.1 refl a | inr b ↦ q.1 h b ])
any_decides (err e) s p q = (λ h. absurd (ground arith), λ h. absurd (ground arith))
any_decides panic s p q = (λ h. absurd (ground arith), λ h. absurd (ground arith))

all_decides :
    {P Q : Type 0} (r s : Result Bool)
    → Decides r P
    → Decides s Q
    → Decides (r >>= λ b. elim b [ true ↦ s | false ↦ ok false ]) (P × Q)
all_decides (ok true) s p q = (λ h. (p.0 refl, q.0 h), λ h x. q.1 h x.1)
all_decides (ok false) s p q = (λ h. absurd (ground arith), λ h x. p.1 refl x.0)
all_decides (err e) s p q = (λ h. absurd (ground arith), λ h. absurd (ground arith))
all_decides panic s p q = (λ h. absurd (ground arith), λ h. absurd (ground arith))

not_decides : {P : Type 0} (r : Result Bool) → Decides r P → Decides (r >>= λ b. ok (not b)) (¬ P)
not_decides (ok true) p = (λ h. absurd (ground arith), λ h n. n (p.0 refl))
not_decides (ok false) p = (λ h. p.1 refl, λ h. absurd (ground arith))
not_decides (err e) p = (λ h. absurd (ground arith), λ h. absurd (ground arith))
not_decides panic p = (λ h. absurd (ground arith), λ h. absurd (ground arith))

in_bounds :
    (g : GoLib) (o : Option g.Float64) (lo hi : g.Float64)
    → ◌≡◌ {A = Result Bool}
        (elim o [ none ↦ ok false | some x ↦ ok (g.le64 lo x && g.le64 x hi) ])
        (ok true)
    → (x : g.Float64) × (o ≡ some x) × (g.le64 lo x ≡ true) × (g.le64 x hi ≡ true)
in_bounds g none lo hi h = absurd (ground arith)
in_bounds g (some x) lo hi h = (x, refl, ground arith, ground arith)

module _ {g : GoLib} where
  equals_decides :
      (o : Option (Value g)) (w : Value g)
      → Decides (equals_value w o) ((v : Value g) × (o ≡ some v) × (iface_eq v w ≡ ok true))
  unfolding equals_value
  equals_decides none w = (λ h. absurd (ground arith), λ h p. ground arith)
  equals_decides (some v) w = (λ h. (v, refl, h), λ h p. ground arith)

  not_equals_decides :
      (o : Option (Value g)) (w : Value g)
      → Decides (not_equals_value w o) (¬ ((v : Value g) × (o ≡ some v) × (iface_eq v w ≡ ok true)))
  unfolding not_equals_value
  not_equals_decides none w = (λ h p. ground arith, λ h p. ground arith)
  not_equals_decides (some v) w = (λ h p. ground arith, λ h p. p (v, refl, ground arith))

  in_values_decides :
      (v : Value g) (ws : List (Value g)) → Decides (in_values v ws) (SameAsOne v ws)
  unfolding in_values
  in_values_decides v [] = (λ h. absurd (ground arith), λ h p. p)
  in_values_decides v (w ∷ ws) =
      any_decides (iface_eq v w) (in_values v ws) ((λ h. h), λ h p. ground arith)
        (in_values_decides v ws)

  in_decides :
      (o : Option (Value g)) (ws : List (Value g))
      → Decides (in_value ws o) ((v : Value g) × (o ≡ some v) × SameAsOne v ws)
  unfolding in_value
  in_decides none ws = (λ h. absurd (ground arith), λ h p. absurd (ground (arith, p.1)))
  in_decides (some v) ws = (
    λ h. (v, refl, (in_values_decides v ws).0 h),
    λ h p.
        (in_values_decides v ws).1 h
          (subst (λ u. SameAsOne u ws) (sym (some-injective v p.0 p.1)) p.2),
  )

  range_decides :
      (o : Option (Value g)) (lo hi : g.Float64)
      → Decides (range_value lo hi o) (
          (v : Value g) × (o ≡ some v)
          × ((x : g.Float64) × (number v ≡ some x) × (g.le64 lo x ≡ true) × (g.le64 x hi ≡ true)))
  unfolding range_value
  range_decides none lo hi = (λ h. absurd (ground arith), λ h p. absurd (ground (arith, p.1)))
  range_decides (some v) lo hi = (
    λ h. let (x, e, l, u) = in_bounds g (number v) lo hi h in (v, refl, (x, e, l, u)),
    λ h p. ground arith,
  )

  exists_decides :
      (o : Option (Value g)) → Decides (ok (is_some o)) ((v : Value g) × (o ≡ some v) × Unit {0})
  unfolding is_some
  exists_decides none = (λ h. absurd (ground arith), λ h p. absurd (ground (arith, p.1)))
  exists_decides (some v) = (λ h. (v, refl, tt), λ h p. ground arith)

  not_exists_decides : (o : Option (Value g)) → Decides (ok (not (is_some o))) (o ≡ none)
  unfolding is_some
  not_exists_decides none = (λ h. refl, λ h p. ground arith)
  not_exists_decides (some v) = (λ h. absurd (ground arith), λ h p. ground arith)

  text_decides :
      (o : Option (Value g)) (test : GoString → Bool) (P : GoString → Type 0)
      → ((s : GoString) → test s ≡ true → P s)
      → ((s : GoString) → P s → test s ≡ true)
      → Decides (text_value test o) ((s : GoString) × (o ≡ some (string s)) × P s)
  unfolding text_value text
  text_decides none test P sound complete =
      (λ h. absurd (ground arith), λ h p. absurd (ground (arith, p.1)))
  text_decides (some (string s)) test P sound complete =
      (λ h. (s, refl, sound s (ground arith)), λ h p. ground (arith, complete p.0 p.2))
  text_decides (some v) test P sound complete =
      (λ h. absurd (ground arith), λ h p. absurd (ground (arith, p.1)))

mutual
  unfolding matches Dict.get

  pub matches-decides :
      {g : GoLib} (f : Filter g) (md : Metadata g) → Decides (matches f md) (Holds f md)
  matches-decides (simple_filter k w) md = equals_decides (Dict.get k md) w
  matches-decides (equals_filter k w) md = equals_decides (Dict.get k md) w
  matches-decides (not_equals_filter k w) md = not_equals_decides (Dict.get k md) w
  matches-decides (in_filter k ws) md = in_decides (Dict.get k md) ws
  matches-decides {g} (range_filter k lo hi) md = range_decides (Dict.get k md) lo hi
  matches-decides (exists_filter k) md = exists_decides (Dict.get k md)
  matches-decides (not_exists_filter k) md = not_exists_decides (Dict.get k md)
  matches-decides (contains_filter k sub) md =
      text_decides (Dict.get k md) (λ s. has_substring s sub)
        (λ s. (a : GoString) × (b : GoString) × (s ≡ a ++ (sub ++ b)))
        (λ s. has_substring_sound s sub) (λ s p. rw p.2 (has_substring_complete p.0 sub p.1))
  matches-decides (starts_with_filter k p) md =
      text_decides (Dict.get k md) (λ s. has_prefix s p) (λ s. (r : GoString) × (s ≡ p ++ r))
        (λ s. has_prefix_sound s p) (λ s q. rw q.1 (has_prefix_complete p q.0))
  matches-decides (ends_with_filter k p) md =
      text_decides (Dict.get k md) (λ s. has_suffix s p) (λ s. (r : GoString) × (s ≡ r ++ p))
        (λ s. has_suffix_sound s p) (λ s q. rw q.1 (has_suffix_complete q.0 p))
  matches-decides {g} (regex_filter k p) md =
      text_decides (Dict.get k md) (g.match_string p) (λ s. g.match_string p s ≡ true) (λ s h. h)
        (λ s h. h)
  matches-decides (not_filter f) md = not_decides (matches f md) (matches-decides f md)
  matches-decides (all_filter fs) md = match_all-decides fs md
  matches-decides (any_filter fs) md = match_any-decides fs md
  matches-decides (and_filter fs) md = match_all-decides fs md
  matches-decides (or_filter fs) md = match_any-decides fs md

  pub match_all-decides :
      {g : GoLib} (fs : Filters g) (md : Metadata g) → Decides (match_all fs md) (HoldsAll fs md)
  match_all-decides nil md = (λ h. tt, λ h. absurd (ground arith))
  match_all-decides (cons f fs) md =
      all_decides (matches f md) (match_all fs md) (matches-decides f md) (match_all-decides fs md)

  pub match_any-decides :
      {g : GoLib} (fs : Filters g) (md : Metadata g) → Decides (match_any fs md) (HoldsAny fs md)
  match_any-decides nil md = (λ h. absurd (ground arith), λ h p. p)
  match_any-decides (cons f fs) md =
      any_decides (matches f md) (match_any fs md) (matches-decides f md) (match_any-decides fs md)

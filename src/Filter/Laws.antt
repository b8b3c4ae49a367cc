-- ===== src/Filter/Laws.antt =====
-- Laws of the filters: negation against the combinators, `InFilter` against equality filters, and
-- the absence of panics.
use magpie_db.Common.{
  ◌≡◌, refl, ap, ◌∙◌, inl, inr, Bool, true, false, not, Option, none, some, List, [], ◌∷◌, arith,
  Option-cases, GoString, ℕ-Eq, GoString-Eq, All, Result, ok, err, panic, ◌>>=◌,
}
use magpie_db.Dict
use magpie_db.Filter.{
  GoLib, Value, nil_value, bool, string, float64, float32, int, int64, other, uncomparable,
  Metadata, Filter, Filters, simple_filter, equals_filter, not_equals_filter, in_filter,
  range_filter, exists_filter, not_exists_filter, contains_filter, starts_with_filter,
  ends_with_filter, regex_filter, not_filter, all_filter, any_filter, and_filter, or_filter, nil,
  cons, iface_eq, number, text, equals_value, not_equals_value, in_values, in_value, range_value,
  text_value, matches, match_all, match_any,
}

abbrev pub negate_each : {g : GoLib} → Filters g → Filters g
negate_each nil = nil
negate_each (cons f fs) = cons (not_filter f) (negate_each fs)

abbrev pub each_equals : {g : GoLib} → GoString → List (Value g) → Filters g
each_equals k [] = nil
each_equals k (w ∷ ws) = cons (equals_filter k w) (each_equals k ws)

abbrev negated : Result Bool → Result Bool
negated r = r >>= λ b. ok (not b)

-- One round of the two loops.
negated_all :
    (r s : Result Bool)
    → negated (r >>= λ b. elim b [ true ↦ s | false ↦ ok false ])
      ≡ (negated r >>= λ b. elim b [ true ↦ ok true | false ↦ negated s ])
negated_all (ok true) s = refl
negated_all (ok false) s = refl
negated_all (err e) s = refl
negated_all panic s = refl

negated_any :
    (r s : Result Bool)
    → negated (r >>= λ b. elim b [ true ↦ ok true | false ↦ s ])
      ≡ (negated r >>= λ b. elim b [ true ↦ negated s | false ↦ ok false ])
negated_any (ok true) s = refl
negated_any (ok false) s = refl
negated_any (err e) s = refl
negated_any panic s = refl

match_all-negate :
    {g : GoLib} (fs : Filters g) (md : Metadata g)
    → negated (match_all fs md) ≡ match_any (negate_each fs) md
unfolding matches
match_all-negate nil md = refl
match_all-negate (cons f fs) md =
    negated_all (matches f md) (match_all fs md)
    ∙ ap (λ s. negated (matches f md) >>= λ b. elim b [ true ↦ ok true | false ↦ s ])
        (match_all-negate fs md)

match_any-negate :
    {g : GoLib} (fs : Filters g) (md : Metadata g)
    → negated (match_any fs md) ≡ match_all (negate_each fs) md
unfolding matches
match_any-negate nil md = refl
match_any-negate (cons f fs) md =
    negated_any (matches f md) (match_any fs md)
    ∙ ap (λ s. negated (matches f md) >>= λ b. elim b [ true ↦ s | false ↦ ok false ])
        (match_any-negate fs md)

-- Not(And(fs)) gives the result of Or of the negated filters, and Not(Or(fs)) that of And of them,
-- panics included.
pub de_morgan :
    {g : GoLib} (fs : Filters g) (md : Metadata g)
    → (matches (not_filter (all_filter fs)) md ≡ matches (any_filter (negate_each fs)) md)
      × (matches (not_filter (any_filter fs)) md ≡ matches (all_filter (negate_each fs)) md)
unfolding matches
de_morgan fs md = (match_all-negate fs md, match_any-negate fs md)

in_value-any :
    {g : GoLib} (k : GoString) (md : Metadata g) (o : Option (Value g)) (ws : List (Value g))
    → Dict.get k md ≡ o
    → in_value ws o ≡ match_any (each_equals k ws) md
unfolding matches in_value in_values equals_value
in_value-any k md none [] e = refl
in_value-any k md none (w ∷ ws) e = rw (e, equals_value) (in_value-any k md none ws e)
in_value-any k md (some v) [] e = refl
in_value-any k md (some v) (w ∷ ws) e =
    rw (e, equals_value)
      (ap (λ s. iface_eq v w >>= λ b. elim b [ true ↦ ok true | false ↦ s ])
        (in_value-any k md (some v) ws e))

-- In(key, ws...) gives the result of Or over Eq(key, w) for each w of ws, in that order: also
-- where the key is missing, and where a comparison panics.
pub in_filter-any :
    {g : GoLib} (k : GoString) (ws : List (Value g)) (md : Metadata g)
    → matches (in_filter k ws) md ≡ matches (any_filter (each_equals k ws)) md
unfolding matches
in_filter-any k ws md = in_value-any k md (Dict.get k md) ws refl

abbrev pub IsComparable : {g : GoLib} → Value g → Type 0
IsComparable (uncomparable t x) = ⊥
IsComparable _ = Unit

-- Every value that the filter compares with is of a comparable type.
abbrev mutual
  pub Compares : {g : GoLib} → Filter g → Type 0
  Compares (simple_filter k w) = IsComparable w
  Compares (equals_filter k w) = IsComparable w
  Compares (not_equals_filter k w) = IsComparable w
  Compares (in_filter k ws) = All IsComparable ws
  Compares (not_filter f) = Compares f
  Compares (all_filter fs) = CompareAll fs
  Compares (any_filter fs) = CompareAll fs
  Compares (and_filter fs) = CompareAll fs
  Compares (or_filter fs) = CompareAll fs
  Compares _ = Unit

  pub CompareAll : {g : GoLib} → Filters g → Type 0
  CompareAll nil = Unit
  CompareAll (cons f fs) = Compares f × CompareAll fs

abbrev Returns : Result Bool → Type 0
Returns r = (b : Bool) × (r ≡ ok b)

bind-Returns :
    (r : Result Bool) (f : Bool → Result Bool)
    → Returns r
    → ((b : Bool) → Returns (f b))
    → Returns (r >>= f)
bind-Returns (ok b) f p q = q b
bind-Returns (err e) f p q = absurd (ground (arith, p.1))
bind-Returns panic f p q = absurd (ground (arith, p.1))

module _ {g : GoLib} where
  iface_eq-Returns : (v w : Value g) → IsComparable w → Returns (iface_eq v w)
  unfolding iface_eq
  iface_eq-Returns nil_value nil_value c = (true, refl)
  iface_eq-Returns (bool a) (bool b) c = (_, refl)
  iface_eq-Returns (string s) (string t) c = (_, refl)
  iface_eq-Returns (float64 x) (float64 y) c = (_, refl)
  iface_eq-Returns (float32 x) (float32 y) c = (_, refl)
  iface_eq-Returns (int i) (int j) c = (_, refl)
  iface_eq-Returns (int64 i) (int64 j) c = (_, refl)
  iface_eq-Returns (other t x) (other u y) c = (_, refl)
  iface_eq-Returns (uncomparable t x) (uncomparable u y) c = absurd c
  iface_eq-Returns _ _ c = (false, refl)

  equals-Returns :
      (o : Option (Value g)) (w : Value g) → IsComparable w → Returns (equals_value w o)
  unfolding equals_value
  equals-Returns none w c = (false, refl)
  equals-Returns (some v) w c = iface_eq-Returns v w c

  not_equals-Returns :
      (o : Option (Value g)) (w : Value g) → IsComparable w → Returns (not_equals_value w o)
  unfolding not_equals_value
  not_equals-Returns none w c = (true, refl)
  not_equals-Returns (some v) w c =
      bind-Returns (iface_eq v w) (λ b. ok (not b)) (iface_eq-Returns v w c) (λ b. (not b, refl))

  in_values-Returns :
      (v : Value g) (ws : List (Value g)) → All IsComparable ws → Returns (in_values v ws)
  unfolding in_values
  in_values-Returns v [] c = (false, refl)
  in_values-Returns v (w ∷ ws) c =
      bind-Returns (iface_eq v w) (λ b. elim b [ true ↦ ok true | false ↦ in_values v ws ])
        (iface_eq-Returns v w c.0)
        (elim [ true ↦ (true, refl) | false ↦ in_values-Returns v ws c.1 ])

  in-Returns :
      (o : Option (Value g)) (ws : List (Value g)) → All IsComparable ws → Returns (in_value ws o)
  unfolding in_value
  in-Returns none ws c = (false, refl)
  in-Returns (some v) ws c = in_values-Returns v ws c

  range-Returns : (o : Option (Value g)) (lo hi : g.Float64) → Returns (range_value lo hi o)
  unfolding range_value
  range-Returns none lo hi = (false, refl)
  range-Returns (some v) lo hi = elim (Option-cases (number v)) [
    | inl e ↦ rw (e, range_value) (false, refl)
    | inr (x, e) ↦ rw (e, range_value) (_, refl)
  ]

  text-Returns : (o : Option (Value g)) (test : GoString → Bool) → Returns (text_value test o)
  unfolding text_value
  text-Returns none test = (false, refl)
  text-Returns (some v) test = elim (Option-cases (text v)) [
    | inl e ↦ rw (e, text_value) (false, refl)
    | inr (x, e) ↦ rw (e, text_value) (_, refl)
  ]

mutual
  unfolding matches

  matches-Returns :
      {g : GoLib} (f : Filter g) (md : Metadata g) → Compares f → Returns (matches f md)
  matches-Returns (simple_filter k w) md c = equals-Returns (Dict.get k md) w c
  matches-Returns (equals_filter k w) md c = equals-Returns (Dict.get k md) w c
  matches-Returns (not_equals_filter k w) md c = not_equals-Returns (Dict.get k md) w c
  matches-Returns (in_filter k ws) md c = in-Returns (Dict.get k md) ws c
  matches-Returns (range_filter k lo hi) md c = range-Returns (Dict.get k md) lo hi
  matches-Returns (exists_filter k) md c = (_, refl)
  matches-Returns (not_exists_filter k) md c = (_, refl)
  matches-Returns (contains_filter k t) md c = text-Returns (Dict.get k md) _
  matches-Returns (starts_with_filter k t) md c = text-Returns (Dict.get k md) _
  matches-Returns (ends_with_filter k t) md c = text-Returns (Dict.get k md) _
  matches-Returns {g} (regex_filter k p) md c = text-Returns (Dict.get k md) (g.match_string p)
  matches-Returns (not_filter f) md c =
      bind-Returns (matches f md) (λ b. ok (not b)) (matches-Returns f md c) (λ b. (not b, refl))
  matches-Returns (all_filter fs) md c = match_all-Returns fs md c
  matches-Returns (any_filter fs) md c = match_any-Returns fs md c
  matches-Returns (and_filter fs) md c = match_all-Returns fs md c
  matches-Returns (or_filter fs) md c = match_any-Returns fs md c

  match_all-Returns :
      {g : GoLib} (fs : Filters g) (md : Metadata g) → CompareAll fs → Returns (match_all fs md)
  match_all-Returns nil md c = (true, refl)
  match_all-Returns (cons f fs) md c =
      bind-Returns (matches f md) (λ b. elim b [ true ↦ match_all fs md | false ↦ ok false ])
        (matches-Returns f md c.0)
        (elim [ true ↦ match_all-Returns fs md c.1 | false ↦ (false, refl) ])

  match_any-Returns :
      {g : GoLib} (fs : Filters g) (md : Metadata g) → CompareAll fs → Returns (match_any fs md)
  match_any-Returns nil md c = (false, refl)
  match_any-Returns (cons f fs) md c =
      bind-Returns (matches f md) (λ b. elim b [ true ↦ ok true | false ↦ match_any fs md ])
        (matches-Returns f md c.0)
        (elim [ true ↦ (true, refl) | false ↦ match_any-Returns fs md c.1 ])

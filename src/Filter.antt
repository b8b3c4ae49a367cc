-- ===== src/Filter.antt =====
-- Metadata filters: filter.go, and the filter types of types.go.
pub mod Text
pub mod Spec
pub mod Laws
mod Tests
use magpie_db.Common.{
  ℕ, zero, suc, ◌+◌, ◌-◌, ◌*◌, ◌/◌, ◌%◌, ◌^◌, ◌≤◌, ◌<◌, ◌≡◌, refl, sym, ap, ◌∙◌, fun_ext, ◌≢◌, ◌↔◌,
  ◌⊎◌, inl, inr, Bool, true, false, not, ◌&&◌, ◌||◌, Option, none, some, List, [], ◌∷◌, ◌++◌, map,
  arith, ltb, leb, if◌then◌else◌, ltb→lt, lt→ltb, leb→le, le→leb, nat_eq, nat_eq_iff, Bool-cases,
  Option-cases, GoString, string_eq, string_eq_iff, Eq, ◌==◌, eq_refl, eq_false, ℕ-Eq, GoString-Eq,
  length, get_elem?, take, drop, replicate, All, length-append, length-take, length-drop,
  length-replicate, take-append_length, drop-append_length, take_all, take-append-drop, length-map,
  Error, Result, ok, err, panic, ◌>>=◌, ◌>>◌, reject, in_range, >>=-eq-ok,
}
use magpie_db.Dict
use magpie_db.Dict.{Dict}
use Text.{has_prefix, has_suffix, has_substring}

-- What the filters use of Go's floating-point numbers and of package regexp. `of_float32` and
-- `of_int` are the conversions to float64; an int or int64 is its 64-bit pattern.
pub record GoLib : Type 1 where
  pub Float64 : Type 0
  pub Float32 : Type 0
  pub eq64 : Float64 → Float64 → Bool
  pub eq32 : Float32 → Float32 → Bool
  pub le64 : Float64 → Float64 → Bool
  pub of_float32 : Float32 → Float64
  pub of_int : ℕ → Float64
  pub Pattern : Type 0
  pub compile : GoString → Option Pattern
  pub match_string : Pattern → GoString → Bool

-- An `interface{}` value. `other` is a value of any other comparable dynamic type (the first
-- number), and `uncomparable` one of a slice, map or function type (the first number).
pub data Value (g : GoLib) : Type 0 where
  nil_value : Value g
  bool : Bool → Value g
  string : GoString → Value g
  float64 : g.Float64 → Value g
  float32 : g.Float32 → Value g
  int int64 : ℕ → Value g
  other uncomparable : ℕ → ℕ → Value g

abbrev pub Metadata : GoLib → Type 0
Metadata g = Dict GoString (Value g)

mutual
  pub data Filter (g : GoLib) : Type 0 where
    simple_filter equals_filter not_equals_filter : GoString → Value g → Filter g
    in_filter : GoString → List (Value g) → Filter g
    range_filter : GoString → g.Float64 → g.Float64 → Filter g
    exists_filter not_exists_filter : GoString → Filter g
    contains_filter starts_with_filter ends_with_filter : GoString → GoString → Filter g
    regex_filter : GoString → g.Pattern → Filter g
    not_filter : Filter g → Filter g
    all_filter any_filter and_filter or_filter : Filters g → Filter g

  pub data Filters (g : GoLib) : Type 0 where
    nil : Filters g
    cons : Filter g → Filters g → Filters g

bool_eq : Bool → Bool → Bool
bool_eq true b = b
bool_eq false b = not b

module _ {g : GoLib} where
  -- `v == w` on interface values: two values of one uncomparable type panic.
  unfoldable pub iface_eq : Value g → Value g → Result Bool
  unfolding bool_eq
  iface_eq nil_value nil_value = ok true
  iface_eq (bool a) (bool b) = ok (bool_eq a b)
  iface_eq (string s) (string t) = ok (s == t)
  iface_eq (float64 x) (float64 y) = ok (g.eq64 x y)
  iface_eq (float32 x) (float32 y) = ok (g.eq32 x y)
  iface_eq (int i) (int j) = ok (i == j)
  iface_eq (int64 i) (int64 j) = ok (i == j)
  iface_eq (other t x) (other u y) = ok (t == u && x == y)
  iface_eq (uncomparable t x) (uncomparable u y) = if t == u then panic else ok false
  iface_eq _ _ = ok false

  -- The type switch of `RangeFilter.Match`.
  unfoldable pub number : Value g → Option g.Float64
  number (float64 x) = some x
  number (float32 x) = some (g.of_float32 x)
  number (int i) = some (g.of_int i)
  number (int64 i) = some (g.of_int i)
  number _ = none

  -- `v.(string)`
  unfoldable pub text : Value g → Option GoString
  text (string s) = some s
  text _ = none

  equals_value : Value g → Option (Value g) → Result Bool
  equals_value w none = ok false
  equals_value w (some v) = iface_eq v w

  not_equals_value : Value g → Option (Value g) → Result Bool
  not_equals_value w none = ok true
  not_equals_value w (some v) = do b ← iface_eq v w; ok (not b)

  -- The loop of `InFilter.Match`.
  unfoldable pub in_values : Value g → List (Value g) → Result Bool
  in_values v [] = ok false
  in_values v (w ∷ ws) = do b ← iface_eq v w; elim b [ true ↦ ok true | false ↦ in_values v ws ]

  in_value : List (Value g) → Option (Value g) → Result Bool
  in_value ws none = ok false
  in_value ws (some v) = in_values v ws

  range_value : g.Float64 → g.Float64 → Option (Value g) → Result Bool
  range_value lo hi none = ok false
  range_value lo hi (some v) = elim (number v) [
    | none ↦ ok false
    | some x ↦ ok (g.le64 lo x && g.le64 x hi)
  ]

  -- The string filters: a missing key or another dynamic type does not match.
  text_value : (GoString → Bool) → Option (Value g) → Result Bool
  text_value test none = ok false
  text_value test (some v) = elim (text v) [ none ↦ ok false | some s ↦ ok (test s) ]

  is_some : Option (Value g) → Bool
  is_some none = false
  is_some (some v) = true

unfoldable mutual
  unfolding equals_value not_equals_value in_value range_value text_value is_some

  -- The `Match` methods.
  pub matches : {g : GoLib} → Filter g → Metadata g → Result Bool
  matches (simple_filter k w) md = equals_value w (Dict.get k md)
  matches (equals_filter k w) md = equals_value w (Dict.get k md)
  matches (not_equals_filter k w) md = not_equals_value w (Dict.get k md)
  matches (in_filter k ws) md = in_value ws (Dict.get k md)
  matches {g} (range_filter k lo hi) md = range_value lo hi (Dict.get k md)
  matches (exists_filter k) md = ok (is_some (Dict.get k md))
  matches (not_exists_filter k) md = ok (not (is_some (Dict.get k md)))
  matches (contains_filter k sub) md = text_value (λ s. has_substring s sub) (Dict.get k md)
  matches (starts_with_filter k p) md = text_value (λ s. has_prefix s p) (Dict.get k md)
  matches (ends_with_filter k p) md = text_value (λ s. has_suffix s p) (Dict.get k md)
  matches {g} (regex_filter k p) md = text_value (g.match_string p) (Dict.get k md)
  matches (not_filter f) md = do b ← matches f md; ok (not b)
  matches (all_filter fs) md = match_all fs md
  matches (any_filter fs) md = match_any fs md
  matches (and_filter fs) md = match_all fs md
  matches (or_filter fs) md = match_any fs md

  -- `for ... { if !filter.Match(metadata) { return false } }; return true`
  pub match_all : {g : GoLib} → Filters g → Metadata g → Result Bool
  match_all nil md = ok true
  match_all (cons f fs) md = do
    b ← matches f md
    elim b [ true ↦ match_all fs md | false ↦ ok false ]

  pub match_any : {g : GoLib} → Filters g → Metadata g → Result Bool
  match_any nil md = ok false
  match_any (cons f fs) md = do
    b ← matches f md
    elim b [ true ↦ ok true | false ↦ match_any fs md ]

-- `NewRegexFilter`
unfoldable pub new_regex_filter : {g : GoLib} → GoString → GoString → Result (Filter g)
new_regex_filter {g} key pattern = elim (g.compile pattern) [
  | none ↦ err Error.invalid_pattern
  | some re ↦ ok (regex_filter key re)
]

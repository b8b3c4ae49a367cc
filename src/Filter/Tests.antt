-- ===== src/Filter/Tests.antt =====
-- Filters on a concrete record of metadata, with numbers in place of floating-point values and
-- strings in place of patterns.
use magpie_db.Common.{
  ℕ, ◌≡◌, refl, true, some, List, [], ◌∷◌, leb, GoString, ◌==◌, ℕ-Eq, GoString-Eq, ok, panic, codes,
}
use magpie_db.Dict
use magpie_db.Filter.{
  GoLib, Value, string, int, uncomparable, Metadata, Filter, Filters, equals_filter, range_filter,
  and_filter, nil, cons, matches, iface_eq, number,
}

abbrev go_lib : GoLib
go_lib = record {
  Float64 = ℕ;
  Float32 = ℕ;
  eq64 = λ x y. x == y;
  eq32 = λ x y. x == y;
  le64 = leb;
  of_float32 = λ x. x;
  of_int = λ i. i;
  Pattern = GoString;
  compile = λ s. some s;
  match_string = λ p s. p == s;
}

abbrev metadata : Metadata go_lib
metadata = (codes "kind", string (codes "book")) ∷ (codes "year", int 1999) ∷ []

abbrev is_book : Filter go_lib
is_book = equals_filter (codes "kind") (string (codes "book"))

abbrev nineties : Filter go_lib
nineties = range_filter (codes "year") 1990 1999

abbrev both : Filters go_lib
both = cons is_book (cons nineties nil)

matches_test : matches (and_filter both) metadata ≡ ok true
unfolding matches Dict.get iface_eq number
matches_test = refl

panics_test :
    matches {g = go_lib}
      (equals_filter (codes "tags") (uncomparable 0 1))
      ((codes "tags", uncomparable 0 2) ∷ [])
    ≡ panic
unfolding matches Dict.get iface_eq
panics_test = refl

abbrev years : List (Value go_lib)
years = int 1998 ∷ int 1999 ∷ []

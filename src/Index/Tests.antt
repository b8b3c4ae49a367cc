-- ===== src/Index/Tests.antt =====
-- The theorems on the index at one of two nodes, with vectors of one coordinate.
use mathlib.Core.List.{Permᴰ}
use mathlib.Core.List.Permᴰ
use magpie_db.Common.{
  true, ℕ, ◌+◌, ◌-◌, ◌/◌, ◌<◌, ◌≡◌, ◌&&◌, ◌||◌, leb, refl, inl, inr, Bool, Option, none, some, List,
  [], ◌∷◌, arith, ltb, if◌then◌else◌, Bool-cases, GoString, ℕ-Eq, GoString-Eq, ok,
}
use magpie_db.Dict
use magpie_db.Dict.{Dict, Distinct}
use magpie_db.Index.{Node, Index, Entry, SearchResult, new_index, entry_node, contains, change}
use magpie_db.Index.Graph.Search.{
  Geometry, HeapLib, search, search_layer, search_loop, descend, enter_points, visit_all, visit,
  offer, new_frontier, max_less, min_less, to_slice, sort_results, settle,
}
use magpie_db.Index.Graph.Insert.{
  add, insert_node, insert_layers, insert_layer, link_all, link_back, prune, measure,
  select_neighbors,
}
use magpie_db.Index.Graph.Remove.{remove, optimize_index}
use magpie_db.Index.Graph.Found.{IsHeapLib}
use magpie_db.Index.Graph.Sort.{IsOrdered}
use magpie_db.Index.Graph.Health.{diagnostics, diagnostics-optimize_index}
use magpie_db.Index.Graph.Results.{Finds, search-Finds}
use magpie_db.Index.Graph.Invariant.{IsValid}
use magpie_db.Index.Graph.Built.{start, adds, removes, Built-IsValid}
use magpie_db.Index.Codec.{serialize, deserialize}
use magpie_db.Index.Codec.Roundtrip.{Fits, deserialize-serialize}

abbrev coordinate : List ℕ → ℕ
coordinate [] = 0
coordinate (x ∷ xs) = x

abbrev pub line : Geometry
line = record {
  distance = λ a b. (coordinate a - coordinate b) + (coordinate b - coordinate a);
  less = λ x y. ltb x y;
  tenth_more = λ x. x + x / 10;
}

-- A heap as a sorted list.
pub insert :
    (SearchResult → SearchResult → Bool) → SearchResult → List SearchResult → List SearchResult
insert less r [] = r ∷ []
insert less r (s ∷ h) = let rest = insert less r h in if less r s then r ∷ s ∷ h else s ∷ rest

pub take_first : List SearchResult → Option (SearchResult × List SearchResult)
take_first [] = none
take_first (r ∷ h) = some (r, h)

abbrev pub sorted : HeapLib
sorted = record { push = insert; pop = λ less h. take_first h }

insert-Permᴰ :
    (less : SearchResult → SearchResult → Bool) (r : SearchResult) (h : List SearchResult)
    → Permᴰ (r ∷ h) (insert less r h)
unfolding insert
insert-Permᴰ less r [] = Permᴰ.refl (r ∷ [])
insert-Permᴰ less r (s ∷ h) = elim (Bool-cases (less r s)) [
  | inl before ↦ rw before (Permᴰ.refl (r ∷ s ∷ h))
  | inr behind ↦
      rw behind (Permᴰ.trans (Permᴰ.swap refl refl) (Permᴰ.cons refl (insert-Permᴰ less r h)))
]

sorted-IsHeapLib : IsHeapLib sorted
unfolding take_first
sorted-IsHeapLib = record {
  push_adds = insert-Permᴰ;
  pop_takes = λ less r h. ((r, h), refl, Permᴰ.refl (r ∷ h));
  pop_empty = λ less. refl;
}

-- The same up to the coordinate 500. 999 stands for NaN, which no comparison holds of.
abbrev measured : Geometry
measured = record line {
  distance =
      λ a b. if leb 500 (coordinate a) || leb 500 (coordinate b) then 999 else line.distance a b;
  less = λ x y. ltb x y && ltb y 999;
}

abbrev IsNumber : ℕ → Type 0
IsNumber n = n < 999

measured-IsOrdered : IsOrdered measured IsNumber
measured-IsOrdered = record {
  asym = λ x y _ _ h. ground (arith, h);
  trans = λ x y z a b c h k. ground (arith, a, b, c, h, k);
}

-- A distance that is NaN.
measured_far : measured.distance (500 ∷ []) (3 ∷ []) ≡ 999
measured_far = refl

abbrev pub id_a : GoString
id_a = 97 ∷ []

abbrev id_b : GoString
id_b = 98 ∷ []

abbrev node_a : Node
node_a = record { id = id_a; vector = 3 ∷ []; level = 0; neighbors = (id_b ∷ []) ∷ [] }

abbrev node_b : Node
node_b = record {
  id = id_b;
  vector = 7 ∷ [];
  level = 1;
  neighbors = (id_a ∷ []) ∷ (id_a ∷ []) ∷ [];
}

abbrev pub two_nodes : Index
two_nodes = record {
  nodes = (id_a, node_a) ∷ (id_b, node_b) ∷ [];
  entry_point = Entry.stored id_b;
  max_level = 1;
  m = 16;
  ef_construct = 200;
}

pub two_nodes-IsValid : IsValid two_nodes
unfolding Dict.get
two_nodes-IsValid = record {
  distinct = (refl, (refl, tt));
  each = ((refl, refl), ((refl, refl), tt));
  below = (omega arith, (omega arith, tt));
  entry = inr (id_b, record { id = id_b; vector = 7 ∷ []; level = 1; lists = 2 }, refl, refl, refl);
}

pub two_nodes-Fits : Fits two_nodes
two_nodes-Fits = record {
  count = omega arith;
  max_level = omega arith;
  m = omega arith;
  ef_construct = omega arith;
  each = (
    record {
      id = omega arith;
      level = omega arith;
      size = omega arith;
      vector = (omega arith, tt);
      lists = refl;
      neighbors = ((omega arith, (omega arith, tt)), tt);
    },
    (
      record {
        id = omega arith;
        level = omega arith;
        size = omega arith;
        vector = (omega arith, tt);
        lists = refl;
        neighbors = ((omega arith, (omega arith, tt)), ((omega arith, (omega arith, tt)), tt));
      },
      tt,
    ),
  );
}

deserialize-serialize_example : deserialize (serialize two_nodes) (new_index 16 200) ≡ ok two_nodes
deserialize-serialize_example =
    deserialize-serialize two_nodes 16 200 two_nodes-IsValid two_nodes-Fits

search-Finds_example :
    Finds measured sorted sorted-IsHeapLib IsNumber measured-IsOrdered
      (4 ∷ [])
      1
      two_nodes
      (search measured sorted (4 ∷ []) 1 two_nodes)
search-Finds_example =
    search-Finds measured sorted sorted-IsHeapLib IsNumber measured-IsOrdered (4 ∷ []) 1 two_nodes
      two_nodes-IsValid (omega arith, (omega arith, tt))

-- The nearest of two nodes is found.
search_nearest :
    search line sorted (4 ∷ []) 1 two_nodes
    ≡ record { id = id_a; vector = 3 ∷ []; distance = 1 } ∷ []
unfolding Dict.get Dict.put take_first insert search search_layer search_loop descend enter_points
    visit_all visit offer new_frontier max_less min_less contains to_slice sort_results settle
    entry_node
search_nearest = refl

abbrev added : Index
added = (add line sorted 1 id_b (7 ∷ []) (add line sorted 0 id_a (3 ∷ []) (new_index 16 200)).1).1

Built-IsValid_example : IsValid (remove id_a added).1
Built-IsValid_example =
    Built-IsValid {g = line} {heap = sorted} {m = 16} {ef = 200}
      (removes id_a (adds 1 id_b (7 ∷ []) (adds 0 id_a (3 ∷ []) start)))

-- The second node becomes the entry point, and is linked with the first one, in layer 1 as well,
-- which the first one does not have.
added_links : added ≡ two_nodes
unfolding Dict.get Dict.put take_first insert search search_layer search_loop descend enter_points
    visit_all visit offer new_frontier max_less min_less contains to_slice sort_results settle
    entry_node add insert_node insert_layers insert_layer link_all link_back prune measure
    select_neighbors change new_index
added_links = refl

-- The index with a link to an ID that it does not hold.
abbrev dangling : Index
dangling = record two_nodes {
  nodes = (id_a, record node_a { neighbors = (id_b ∷ (99 ∷ []) ∷ []) ∷ [] }) ∷ (id_b, node_b) ∷ [];
}

diagnostics-optimize_index_example :
    let d = diagnostics (optimize_index dangling) in
    (d.dangling_references ≡ 0)
    × (d.valid_entry ≡ true)
    × (d.node_count ≡ (diagnostics dangling).node_count)
    × IsValid (optimize_index dangling)
diagnostics-optimize_index_example = diagnostics-optimize_index dangling two_nodes-IsValid

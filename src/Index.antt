-- ===== src/Index.antt =====
-- The HNSW index: index.go, and hnsw.go for its search and its links. `nodes` is the map of the
-- nodes by their IDs; a change of a node through a pointer is `change` at its ID. A slice of
-- pointers that a search returns is the nodes as the search saw them: of them only the lists of
-- lower levels are read later, which have not changed by then.
pub mod Graph
pub mod Codec
pub mod Tests
use magpie_db.Common.{
  ℕ, zero, suc, ◌+◌, ◌-◌, ◌*◌, ◌/◌, ◌%◌, ◌^◌, ◌≤◌, ◌<◌, ◌≡◌, refl, sym, ap, ◌∙◌, fun_ext, ◌≢◌, ◌↔◌,
  ◌⊎◌, inl, inr, Bool, true, false, not, ◌&&◌, ◌||◌, Option, none, some, List, [], ◌∷◌, ◌++◌, map,
  arith, ltb, leb, if◌then◌else◌, ltb→lt, lt→ltb, leb→le, le→leb, nat_eq, nat_eq_iff, Bool-cases,
  Option-cases, GoString, string_eq, string_eq_iff, Eq, ◌==◌, eq_refl, eq_false, ℕ-Eq, GoString-Eq,
  length, get_elem?, take, drop, replicate, All, length-append, length-take, length-drop,
  length-replicate, take-append_length, drop-append_length, take_all, take-append-drop, length-map,
  Error, Result, ok, err, panic, ◌>>=◌, ◌>>◌, reject, in_range, >>=-eq-ok, Result-cases, codes,
}
use magpie_db.Dict
use magpie_db.Dict.{Dict, values}

-- `HSNWNode`; a float32 is its bit pattern.
pub record Node : Type 0 where
  pub id : GoString
  pub vector : List ℕ
  pub level : ℕ
  pub neighbors : List (List GoString)

abbrev pub Nodes : Type 0
Nodes = Dict GoString Node

-- The pointer `entryPoint`: nil, the node that is stored under an ID, or a node that the map does
-- not hold any more.
pub data Entry : Type 0 where
  no_entry : Entry
  stored : GoString → Entry
  detached : Node → Entry

-- `HSNWIndex`, without the distance function, which is a parameter where it is used.
pub record Index : Type 0 where
  pub nodes : Nodes
  pub entry_point : Entry
  pub max_level : ℕ
  pub m : ℕ
  pub ef_construct : ℕ

-- `SearchResult`; the distance is a bit pattern too.
pub record SearchResult : Type 0 where
  pub node : Node
  pub distance : ℕ

-- `NewHSNWIndex`
unfoldable pub new_index : ℕ → ℕ → Index
new_index m ef_construct = record {
  nodes = [];
  entry_point = no_entry;
  max_level = 0;
  m = m;
  ef_construct = ef_construct;
}

-- What the pointer `entryPoint` points to.
unfoldable pub entry_node : Index → Option Node
entry_node idx = elim idx.entry_point [
  | no_entry ↦ none
  | stored id ↦ Dict.get id idx.nodes
  | detached node ↦ some node
]

unfoldable pub get : GoString → Index → Option Node
get id idx = Dict.get id idx.nodes

unfoldable pub count : Index → ℕ
count idx = length idx.nodes

unfoldable pub clear : Index → Index
clear idx = record idx { nodes = []; entry_point = no_entry; max_level = 0 }

-- A write through the pointer to the node that is stored under an ID.
unfoldable pub change : GoString → (Node → Node) → Nodes → Nodes
change id f [] = []
change id f ((key, node) ∷ nodes) =
    let rest = change id f nodes in if key == id then (key, f node) ∷ nodes else (key, node) ∷ rest

-- `contains`
unfoldable pub contains : List GoString → GoString → Bool
contains [] value = false
contains (v ∷ ids) value = (v == value) || contains ids value

-- `removeFromSlice`
unfoldable pub remove_from_slice : List GoString → GoString → List GoString
remove_from_slice [] value = []
remove_from_slice (v ∷ ids) value =
    let rest = remove_from_slice ids value in if v == value then rest else v ∷ rest

-- `node.Neighbors[level]`, with no neighbors where there is no list.
abbrev pub list_at : ℕ → Node → List GoString
list_at level node = elim (get_elem? node.neighbors level) [ none ↦ [] | some ids ↦ ids ]

abbrev pub set_at : ℕ → List GoString → List (List GoString) → List (List GoString)
set_at level ids [] = []
set_at zero ids (old ∷ lists) = ids ∷ lists
set_at (suc level) ids (old ∷ lists) = old ∷ set_at level ids lists

-- `node.Neighbors[level] = ids`
abbrev pub with_list : ℕ → List GoString → Node → Node
with_list level ids node = record node { neighbors = set_at level ids node.neighbors }

-- A node without what its lists hold.
pub record Outline : Type 0 where
  pub id : GoString
  pub vector : List ℕ
  pub level : ℕ
  pub lists : ℕ

abbrev pub outline_of : Node → Outline
outline_of node = record {
  id = node.id;
  vector = node.vector;
  level = node.level;
  lists = length node.neighbors;
}

abbrev pub outline : Nodes → Dict GoString Outline
outline [] = []
outline ((key, node) ∷ nodes) = (key, outline_of node) ∷ outline nodes

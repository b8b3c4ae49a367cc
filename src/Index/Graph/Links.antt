-- ===== src/Index/Graph/Links.antt =====
-- What the operations on links leave as it was: every node but for what its lists hold.
use magpie_db.Common.{
  ℕ, zero, suc, ◌+◌, ◌≡◌, refl, ap, ◌∙◌, inl, inr, none, some, List, [], ◌∷◌, ltb, Bool-cases,
  Option-cases, GoString, ◌==◌, ℕ-Eq, GoString-Eq, length,
}
use magpie_db.Dict
use magpie_db.Dict.{Dict}
use magpie_db.Index.{
  Node, Nodes, Index, Outline, change, with_list, set_at, outline, outline_of, remove_from_slice,
}
use magpie_db.Index.Graph.Search.{Geometry, HeapLib}
use magpie_db.Index.Graph.Insert.{link_back, link_all, insert_layer, insert_layers, insert_node}
use magpie_db.Index.Graph.Remove.{
  each_list, with_lists, unlink, connect_node, has_level, reconnect_with, reconnect_neighbors,
  reconnect_levels, clean, existing,
}

length-set_at :
    (level : ℕ) (ids : List GoString) (lists : List (List GoString))
    → length (set_at level ids lists) ≡ length lists
length-set_at level ids [] = refl
length-set_at zero ids (old ∷ lists) = refl
length-set_at (suc level) ids (old ∷ lists) = ap suc (length-set_at level ids lists)

length-each_list :
    (f : List GoString → List GoString) (levels : ℕ) (lists : List (List GoString))
    → length (each_list f levels lists) ≡ length lists
unfolding each_list
length-each_list f levels [] = refl
length-each_list f zero (ids ∷ lists) = refl
length-each_list f (suc levels) (ids ∷ lists) = ap suc (length-each_list f levels lists)

with_length :
    (node : Node) (lists : List (List GoString))
    → length lists ≡ length node.neighbors
    → outline_of (record node { neighbors = lists }) ≡ outline_of node
with_length node lists h =
    ap (λ (n : ℕ). record { id = node.id; vector = node.vector; level = node.level; lists = n }) h

pub with_list-outline :
    (level : ℕ) (ids : List GoString) (node : Node)
    → outline_of (with_list level ids node) ≡ outline_of node
with_list-outline level ids node = with_length node _ (length-set_at level ids node.neighbors)

pub with_lists-outline :
    (f : List GoString → List GoString) (node : Node)
    → outline_of (with_lists f node) ≡ outline_of node
with_lists-outline f node = with_length node _ (length-each_list f (node.level + 1) node.neighbors)

pub change-outline :
    (id : GoString) (f : Node → Node) (nodes : Nodes)
    → ((node : Node) → outline_of (f node) ≡ outline_of node)
    → outline (change id f nodes) ≡ outline nodes
unfolding change
change-outline id f [] same = refl
change-outline id f ((key, node) ∷ nodes) same = elim (Bool-cases (key == id)) [
  | inl here ↦ rw here (ap (λ (o : Outline). (key, o) ∷ outline nodes) (same node))
  | inr there ↦ rw there (ap (◌∷◌ (key, outline_of node)) (change-outline id f nodes same))
]

module _ (g : Geometry) (heap : HeapLib) where
  link_back-outline :
      (m : ℕ) (id : GoString) (layer : ℕ) (neighbor_id : GoString) (nodes : Nodes)
      → outline (link_back g heap m id layer neighbor_id nodes) ≡ outline nodes
  unfolding link_back
  link_back-outline m id layer neighbor_id nodes =
      elim (Option-cases (Dict.get neighbor_id nodes)) [
        | inl missing ↦ rw (link_back, missing) refl
        | inr (neighbor, h) ↦
            rw (link_back, h)
              (elim (Bool-cases (ltb layer (length neighbor.neighbors))) [
                | inl has ↦ rw has (change-outline neighbor_id _ nodes (with_list-outline layer _))
                | inr lacks ↦ rw lacks refl
              ])
      ]

  link_all-outline :
      (m : ℕ) (id : GoString) (layer : ℕ) (ids : List GoString) (nodes : Nodes)
      → outline (link_all g heap m id layer ids nodes) ≡ outline nodes
  unfolding link_all
  link_all-outline m id layer [] nodes = refl
  link_all-outline m id layer (neighbor_id ∷ ids) nodes =
      link_all-outline m id layer ids _ ∙ link_back-outline m id layer neighbor_id nodes

  insert_layers-outline :
      (idx : Index) (node : Node) (n : ℕ) (nearest : List Node) (nodes : Nodes)
      → outline (insert_layers g heap idx node n nearest nodes) ≡ outline nodes
  unfolding insert_layers insert_layer
  insert_layers-outline idx node zero nearest nodes = refl
  insert_layers-outline idx node (suc layer) nearest nodes =
      insert_layers-outline idx node layer _ _
      ∙ link_all-outline idx.m node.id layer _ _
      ∙ change-outline node.id _ nodes (with_list-outline layer _)

  -- Inserting a node changes nothing but what the lists hold.
  pub insert_node-outline :
      (idx : Index) (node entry_point : Node) (nodes : Nodes)
      → outline (insert_node g heap idx node entry_point nodes) ≡ outline nodes
  unfolding insert_node
  insert_node-outline idx node entry_point nodes = insert_layers-outline idx node _ _ nodes

pub unlink-outline : (id : GoString) (nodes : Nodes) → outline (unlink id nodes) ≡ outline nodes
unfolding unlink
unlink-outline id [] = refl
unlink-outline id ((key, other) ∷ nodes) = elim (Bool-cases (other.id == id)) [
  | inl same ↦ rw same (ap (◌∷◌ (key, outline_of other)) (unlink-outline id nodes))
  | inr differs ↦
      rw (differs, with_lists-outline (λ ids. remove_from_slice ids id) other)
        (ap (◌∷◌ (key, outline_of other)) (unlink-outline id nodes))
]

connect_node-outline :
    (most level : ℕ) (id : GoString) (node : Node)
    → outline_of (connect_node most level id node) ≡ outline_of node
connect_node-outline most level id node = with_list-outline level _ node

reconnect_with-outline :
    (most level : ℕ) (id1 : GoString) (ids : List GoString) (nodes : Nodes)
    → outline (reconnect_with most level id1 ids nodes) ≡ outline nodes
unfolding reconnect_with
reconnect_with-outline most level id1 [] nodes = refl
reconnect_with-outline most level id1 (id2 ∷ ids) nodes =
    reconnect_with-outline most level id1 ids _ ∙ elim (Bool-cases (has_level level id2 nodes)) [
      | inl has ↦ rw has (
          change-outline id2 _ _ (connect_node-outline most level id1)
          ∙ change-outline id1 _ nodes (connect_node-outline most level id2))
      | inr lacks ↦ rw lacks refl
    ]

reconnect_neighbors-outline :
    (most level : ℕ) (ids : List GoString) (nodes : Nodes)
    → outline (reconnect_neighbors most level ids nodes) ≡ outline nodes
unfolding reconnect_neighbors
reconnect_neighbors-outline most level [] nodes = refl
reconnect_neighbors-outline most level (id1 ∷ ids) nodes =
    reconnect_neighbors-outline most level ids _ ∙ elim (Bool-cases (has_level level id1 nodes)) [
      | inl has ↦ rw has (reconnect_with-outline most level id1 ids nodes)
      | inr lacks ↦ rw lacks refl
    ]

pub reconnect_levels-outline :
    (most level : ℕ) (lists : List (List GoString)) (nodes : Nodes)
    → outline (reconnect_levels most level lists nodes) ≡ outline nodes
unfolding reconnect_levels
reconnect_levels-outline most level [] nodes = refl
reconnect_levels-outline most level (ids ∷ lists) nodes =
    reconnect_levels-outline most (level + 1) lists _
    ∙ reconnect_neighbors-outline most level ids nodes

pub clean-outline : (all nodes : Nodes) → outline (clean all nodes) ≡ outline nodes
unfolding clean
clean-outline all [] = refl
clean-outline all ((key, node) ∷ nodes) =
    rw (with_lists-outline (existing all) node)
      (ap (◌∷◌ (key, outline_of node)) (clean-outline all nodes))

-- The map without what the lists hold is read, written and cut like the map itself.
pub get-outline :
    (id : GoString) (nodes : Nodes)
    → Dict.get id (outline nodes)
      ≡ (elim (Dict.get id nodes) [ none ↦ none | some node ↦ some (outline_of node) ])
unfolding Dict.get
get-outline id [] = refl
get-outline id ((key, node) ∷ nodes) = elim (Bool-cases (key == id)) [
  | inl same ↦ rw same refl
  | inr differs ↦ rw differs (get-outline id nodes)
]

pub put-outline :
    (id : GoString) (node : Node) (nodes : Nodes)
    → outline (Dict.put id node nodes) ≡ Dict.put id (outline_of node) (outline nodes)
unfolding Dict.put
put-outline id node [] = refl
put-outline id node ((key, old) ∷ nodes) = elim (Bool-cases (key == id)) [
  | inl same ↦ rw same refl
  | inr differs ↦ rw differs (ap (◌∷◌ (key, outline_of old)) (put-outline id node nodes))
]

pub delete-outline :
    (id : GoString) (nodes : Nodes)
    → outline (Dict.delete id nodes) ≡ Dict.delete id (outline nodes)
unfolding Dict.delete
delete-outline id [] = refl
delete-outline id ((key, old) ∷ nodes) = elim (Bool-cases (key == id)) [
  | inl same ↦ rw same (delete-outline id nodes)
  | inr differs ↦ rw differs (ap (◌∷◌ (key, outline_of old)) (delete-outline id nodes))
]

-- ===== src/Index/Graph/Insert.antt =====
-- `Add` of index.go, and `insertNode` of hnsw.go. The level that `assignLevel` draws is an argument.
use magpie_db.Common.{
  ℕ, zero, suc, ◌+◌, ◌*◌, none, some, List, [], ◌∷◌, ◌++◌, map, ltb, if◌then◌else◌, GoString, ℕ-Eq,
  GoString-Eq, length, take, replicate, Error, Result, ok, err,
}
use magpie_db.Dict
use magpie_db.Dict.{Dict}
use magpie_db.Index.{
  Node, Nodes, Index, Entry, SearchResult, entry_node, change, list_at, with_list,
}
use magpie_db.Index.Graph.Search.{Geometry, HeapLib, search_layer, descend, to_slice, found}

-- `selectNeighbors`: the first m candidates, or all of them.
unfoldable pub select_neighbors : List SearchResult → ℕ → List GoString
select_neighbors candidates m = map (λ r. r.node.id) (take m candidates)

-- The connections of a node in a layer: `m`, and in layer 0 twice as many.
abbrev pub max_connections : ℕ → ℕ → ℕ
max_connections m zero = m * 2
max_connections m (suc layer) = m

-- The node that `Add` makes, with an empty list for each level.
abbrev pub new_node : GoString → List ℕ → ℕ → Node
new_node id vector level = record {
  id = id;
  vector = vector;
  level = level;
  neighbors = replicate (level + 1) [];
}

-- `currentNearest` for the next layer.
abbrev pub nodes_of : List Node → List SearchResult → List Node
nodes_of nearest [] = nearest
nodes_of nearest (r ∷ results) = map (λ (s : SearchResult). s.node) (r ∷ results)

module _ (g : Geometry) (heap : HeapLib) where
  -- The loop that fills `candidateResults`.
  unfoldable pub measure : Nodes → List ℕ → List GoString → List SearchResult
  measure nodes vector [] = []
  measure nodes vector (id ∷ ids) = elim (Dict.get id nodes) [
    | none ↦ measure nodes vector ids
    | some n ↦ found g heap vector n ∷ measure nodes vector ids
  ]

  -- The neighbors of a node that has too many.
  unfoldable pub prune : Nodes → ℕ → List ℕ → List GoString → List GoString
  prune nodes max vector ids =
      if ltb max (length ids)
      then select_neighbors (to_slice g (measure nodes vector ids)) max
      else ids

  -- The link from a neighbor back to the new node.
  unfoldable pub link_back : ℕ → GoString → ℕ → GoString → Nodes → Nodes
  link_back m id layer neighbor_id nodes = elim (Dict.get neighbor_id nodes) [
    | none ↦ nodes
    | some neighbor ↦
        let ids = list_at layer neighbor ++ (id ∷ []) in
        -- The candidates are looked up in the map after the new link is there.
        let linked = change neighbor_id (with_list layer ids) nodes in
        let kept = prune linked (max_connections m layer) neighbor.vector ids in
        if ltb layer (length neighbor.neighbors)
        then change neighbor_id (with_list layer kept) nodes
        else nodes
  ]

  unfoldable pub link_all : ℕ → GoString → ℕ → List GoString → Nodes → Nodes
  link_all m id layer [] nodes = nodes
  link_all m id layer (neighbor_id ∷ ids) nodes =
      link_all m id layer ids (link_back m id layer neighbor_id nodes)

  -- One round of the loop over the layers of the new node: the search, its neighbors, the links back.
  unfoldable pub insert_layer : Index → Node → ℕ → List Node → Nodes → List SearchResult × Nodes
  insert_layer idx node layer nearest nodes =
      let results = search_layer g heap nodes node.vector nearest idx.ef_construct layer in
      let neighbors = select_neighbors results (max_connections idx.m layer) in
      (
        results,
        link_all idx.m node.id layer neighbors (change node.id (with_list layer neighbors) nodes),
      )

  -- The loop, for the `n` lowest layers.
  unfoldable pub insert_layers : Index → Node → ℕ → List Node → Nodes → Nodes
  insert_layers idx node zero nearest nodes = nodes
  insert_layers idx node (suc layer) nearest nodes =
      let (results, nodes') = insert_layer idx node layer nearest nodes in
      insert_layers idx node layer (nodes_of nearest results) nodes'

  unfoldable pub insert_node : Index → Node → Node → Nodes → Nodes
  insert_node idx node entry_point nodes =
      let nearest = descend g heap nodes node.vector node.level idx.max_level (entry_point ∷ []) in
      insert_layers idx node (node.level + 1) nearest nodes

  unfoldable pub add : ℕ → GoString → List ℕ → Index → Result (Unit {0}) × Index
  add level id vector idx = elim (Dict.get id idx.nodes) [
    | some node ↦ (err Error.already_exists, idx)
    | none ↦
        let node = new_node id vector level in
        let nodes = Dict.put id node idx.nodes in
        elim (entry_node idx) [
          | none ↦ (
            ok tt,
            record idx { nodes = nodes; entry_point = Entry.stored id; max_level = level },
          )
          | some ep ↦
              let grown : Index = record idx { nodes = insert_node idx node ep nodes } in
              (
                ok tt,
                if ltb idx.max_level level
                    then record grown { entry_point = Entry.stored id; max_level = level }
                    else grown,
              )
        ]
  ]

-- ===== src/Index/Graph/Remove.antt =====
-- `Remove`, `OptimizeIndex` and their helpers in index.go. A list of a node is taken where the code
-- has one: its index expressions are in range, as every node has one list for each level.
use magpie_db.Common.{
  ℕ, zero, suc, ◌+◌, ◌*◌, Bool, true, false, not, ◌&&◌, Option, none, some, List, [], ◌∷◌, ◌++◌,
  ltb, leb, if◌then◌else◌, GoString, ◌==◌, ℕ-Eq, GoString-Eq, length, Error, Result, ok, err,
}
use magpie_db.Dict
use magpie_db.Dict.{Dict, values}
use magpie_db.Index.{
  Node, Nodes, Index, Entry, change, contains, remove_from_slice, list_at, with_list,
}

-- The loop over the levels of a node, up to its `Level`, that replaces each of its lists.
unfoldable pub each_list :
    (List GoString → List GoString) → ℕ → List (List GoString) → List (List GoString)
each_list f levels [] = []
each_list f zero (ids ∷ lists) = ids ∷ lists
each_list f (suc levels) (ids ∷ lists) = f ids ∷ each_list f levels lists

abbrev pub with_lists : (List GoString → List GoString) → Node → Node
with_lists f node = record node { neighbors = each_list f (node.level + 1) node.neighbors }

-- The first loop of `Remove`.
unfoldable pub unlink : GoString → Nodes → Nodes
unlink id [] = []
unlink id ((key, other) ∷ nodes) =
    (key, if other.id == id then other else with_lists (λ ids. remove_from_slice ids id) other)
    ∷ unlink id nodes

-- `append` under the guard of `reconnectNeighbors`.
unfoldable pub connect : ℕ → GoString → List GoString → List GoString
connect most id ids =
    if not (contains ids id) && ltb (length ids) most then ids ++ (id ∷ []) else ids

abbrev pub connect_node : ℕ → ℕ → GoString → Node → Node
connect_node most level id node = with_list level (connect most id (list_at level node)) node

abbrev pub has_level : ℕ → GoString → Nodes → Bool
has_level level id nodes = elim (Dict.get id nodes) [
  | none ↦ false
  | some node ↦ leb level node.level
]

-- The inner loop, for `id1` and the neighbors behind it.
unfoldable pub reconnect_with : ℕ → ℕ → GoString → List GoString → Nodes → Nodes
reconnect_with most level id1 [] nodes = nodes
reconnect_with most level id1 (id2 ∷ ids) nodes =
    let linked =
      change id2 (connect_node most level id1) (change id1 (connect_node most level id2) nodes) in
    reconnect_with most level id1 ids (if has_level level id2 nodes then linked else nodes)

-- `reconnectNeighbors`, with `idx.m*2` as `most`.
unfoldable pub reconnect_neighbors : ℕ → ℕ → List GoString → Nodes → Nodes
reconnect_neighbors most level [] nodes = nodes
reconnect_neighbors most level (id1 ∷ ids) nodes =
    reconnect_neighbors most level ids
      (if has_level level id1 nodes then reconnect_with most level id1 ids nodes else nodes)

-- The second loop of `Remove`, over the lists of the removed node from `level` on.
unfoldable pub reconnect_levels : ℕ → ℕ → List (List GoString) → Nodes → Nodes
reconnect_levels most level [] nodes = nodes
reconnect_levels most level (ids ∷ lists) nodes =
    reconnect_levels most (level + 1) lists (reconnect_neighbors most level ids nodes)

-- `selectNewEntryPoint`: the first node of the highest level. `best` is the best one so far.
unfoldable pub select_best : Option Node → List Node → Option Node
select_best best [] = best
select_best none (node ∷ nodes) = select_best (some node) nodes
select_best (some best) (node ∷ nodes) =
    select_best (some (if ltb best.level node.level then node else best)) nodes

unfoldable pub select_new_entry_point : Nodes → Option Node
select_new_entry_point nodes = select_best none (values nodes)

-- `idx.entryPoint != nil && idx.entryPoint.ID == id`
unfoldable pub is_entry : GoString → Index → Bool
is_entry id idx = elim idx.entry_point [
  | Entry.no_entry ↦ false
  | Entry.stored e ↦ e == id
  | Entry.detached node ↦ node.id == id
]

-- The new entry point after a removal.
unfoldable pub replace_entry : Index → Index
replace_entry idx = elim (select_new_entry_point idx.nodes) [
  | none ↦ record idx { entry_point = Entry.no_entry; max_level = 0 }
  | some best ↦ record idx { entry_point = Entry.stored best.id; max_level = best.level }
]

unfoldable pub remove : GoString → Index → Result (Unit {0}) × Index
remove id idx = elim (Dict.get id idx.nodes) [
  | none ↦ (err Error.vector_not_found, idx)
  | some node ↦
      let linked = reconnect_levels (idx.m * 2) 0 node.neighbors (unlink id idx.nodes) in
      let idx' : Index = record idx { nodes = Dict.delete id linked } in
      (ok tt, if is_entry id idx then replace_entry idx' else idx')
]

-- `optimizeEntryPoint`
unfoldable pub optimize_entry_point : Index → Index
optimize_entry_point idx = elim (select_new_entry_point idx.nodes) [
  | none ↦ idx
  | some best ↦ record idx { entry_point = Entry.stored best.id; max_level = best.level }
]

abbrev pub exists_in : Nodes → GoString → Bool
exists_in nodes id = elim (Dict.get id nodes) [ none ↦ false | some node ↦ true ]

-- The neighbors that exist.
unfoldable pub existing : Nodes → List GoString → List GoString
existing all [] = []
existing all (id ∷ ids) =
    let rest = existing all ids in if exists_in all id then id ∷ rest else rest

-- `cleanupDanglingReferences`: no key is added or taken out, so that the map to look in is `all`.
unfoldable pub clean : Nodes → Nodes → Nodes
clean all [] = []
clean all ((key, node) ∷ nodes) = (key, with_lists (existing all) node) ∷ clean all nodes

-- `OptimizeIndex`; it has no error.
unfoldable pub optimize_index : Index → Index
optimize_index idx =
    let idx' = optimize_entry_point idx in record idx' { nodes = clean idx'.nodes idx'.nodes }

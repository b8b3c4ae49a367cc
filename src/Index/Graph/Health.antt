-- ===== src/Index/Graph/Health.antt =====
-- `Diagnostics` and `Stats` of index.go, and what they report after `OptimizeIndex`.
use magpie_db.Common.{
  ℕ, zero, suc, ◌+◌, ◌*◌, ◌≡◌, refl, sym, ap, ◌∙◌, inl, inr, Bool, true, not, ◌&&◌, List, [], ◌∷◌,
  arith, if◌then◌else◌, Bool-cases, Option-cases, GoString, ◌==◌, ℕ-Eq, GoString-Eq, length, take,
}
use magpie_db.Dict
use magpie_db.Dict.{Dict}
use magpie_db.Index.{Nodes, Index, Entry, Outline, count, outline}
use magpie_db.Index.Graph.Remove.{
  each_list, exists_in, existing, clean, is_entry, optimize_index, optimize_entry_point,
  select_new_entry_point,
}
use magpie_db.Index.Graph.Links.{clean-outline, get-outline}
use magpie_db.Index.Graph.Invariant.{IsValid}
use magpie_db.Index.Graph.Built.{optimize-Valid}

-- The sum over the lists of every node, up to its level.
unfoldable pub over_lists : (List GoString → ℕ) → List (List GoString) → ℕ
over_lists f [] = 0
over_lists f (ids ∷ lists) = f ids + over_lists f lists

unfoldable pub over_nodes : (List GoString → ℕ) → Nodes → ℕ
over_nodes f [] = 0
over_nodes f ((key, node) ∷ nodes) =
    over_lists f (take (node.level + 1) node.neighbors) + over_nodes f nodes

unfoldable pub total_levels : Nodes → ℕ
total_levels [] = 0
total_levels ((key, node) ∷ nodes) = node.level + 1 + total_levels nodes

-- The neighbors that do not exist.
unfoldable pub dangling_in : Nodes → List GoString → ℕ
dangling_in all [] = 0
dangling_in all (id ∷ ids) =
    let rest = dangling_in all ids in if exists_in all id then rest else rest + 1

-- `incomingCounts[id]`, as far as one list adds to it.
unfoldable pub incoming_in : GoString → List GoString → ℕ
incoming_in id [] = 0
incoming_in id (other ∷ ids) =
    let rest = incoming_in id ids in if other == id then rest + 1 else rest

unfoldable pub orphaned : Index → Nodes → ℕ
orphaned idx [] = 0
orphaned idx ((key, node) ∷ nodes) =
    let rest = orphaned idx nodes in
    if over_nodes (incoming_in key) idx.nodes == 0 && not (is_entry key idx) then rest + 1 else rest

unfoldable pub entry_point_valid : Index → Bool
entry_point_valid idx = elim idx.entry_point [
  | Entry.no_entry ↦ count idx == 0
  | Entry.stored id ↦ exists_in idx.nodes id
  | Entry.detached node ↦ exists_in idx.nodes node.id
]

-- `IndexDiagnostics`; nothing sets DisconnectedNodes. An average is the pair of its sum and its number
-- of levels, of which the code returns the quotient, or 0 if there is none.
pub record IndexDiagnostics : Type 0 where
  pub node_count : ℕ
  pub max_level : ℕ
  pub avg_degree : ℕ × ℕ
  pub dangling_references : ℕ
  pub orphaned_nodes : ℕ
  pub disconnected_nodes : ℕ
  pub valid_entry : Bool

unfoldable pub diagnostics : Index → IndexDiagnostics
diagnostics idx = record {
  node_count = count idx;
  max_level = idx.max_level;
  avg_degree = (over_nodes (λ ids. length ids) idx.nodes, total_levels idx.nodes);
  dangling_references = over_nodes (dangling_in idx.nodes) idx.nodes;
  orphaned_nodes = orphaned idx idx.nodes;
  disconnected_nodes = 0;
  valid_entry = entry_point_valid idx;
}

unfoldable pub memory_usage : Nodes → ℕ
memory_usage [] = 0
memory_usage ((key, node) ∷ nodes) =
    length node.vector * 4
    + length node.id
    + over_lists (λ ids. length ids * 8) (take (node.level + 1) node.neighbors)
    + memory_usage nodes

-- `IndexStats`
pub record IndexStats : Type 0 where
  pub node_count : ℕ
  pub max_level : ℕ
  pub avg_neighbors : ℕ × ℕ
  pub memory : ℕ

unfoldable pub stats : Index → IndexStats
stats idx = record {
  node_count = count idx;
  max_level = idx.max_level;
  avg_neighbors = (over_nodes (λ ids. length ids) idx.nodes, total_levels idx.nodes);
  memory = memory_usage idx.nodes;
}

-- Two maps that differ in what the lists hold have the same IDs.
exists-outline :
    (a b : Nodes) (id : GoString) → outline a ≡ outline b → exists_in a id ≡ exists_in b id
exists-outline a b id same =
    let both = sym (get-outline id a) ∙ ap (Dict.get id) same ∙ get-outline id b in
    elim (Option-cases (Dict.get id a)) [
      | inl missing ↦ elim (Option-cases (Dict.get id b)) [
        | inl missing' ↦ rw (exists_in, missing, missing') refl
        | inr (node, there) ↦ absurd (let h = rw (missing, there) at both in ground arith)
      ]
      | inr (node, there) ↦ elim (Option-cases (Dict.get id b)) [
        | inl missing ↦ absurd (let h = rw (missing, there) at both in ground arith)
        | inr (node', there') ↦ rw (exists_in, there, there') refl
      ]
    ]

module _ (all all' : Nodes) (same : outline all' ≡ outline all) where
  none_dangle : (ids : List GoString) → dangling_in all' (existing all ids) ≡ 0
  unfolding dangling_in existing
  none_dangle [] = refl
  none_dangle (id ∷ ids) = elim (Bool-cases (exists_in all id)) [
    | inl there ↦ rw (there, dangling_in, exists-outline all' all id same ∙ there) (none_dangle ids)
    | inr missing ↦ rw missing (none_dangle ids)
  ]

  lists_clean :
      (n : ℕ) (lists : List (List GoString))
      → over_lists (dangling_in all') (take n (each_list (existing all) n lists)) ≡ 0
  unfolding over_lists each_list
  lists_clean zero lists = refl
  lists_clean (suc n) [] = refl
  lists_clean (suc n) (ids ∷ lists) = omega (arith, none_dangle ids, lists_clean n lists)

  nodes_clean : (nodes : Nodes) → over_nodes (dangling_in all') (clean all nodes) ≡ 0
  unfolding over_nodes clean
  nodes_clean [] = refl
  nodes_clean ((key, node) ∷ nodes) =
      omega (arith, lists_clean (node.level + 1) node.neighbors, nodes_clean nodes)

length-outline : (nodes : Nodes) → length (outline nodes) ≡ length nodes
length-outline [] = refl
length-outline (n ∷ nodes) = ap suc (length-outline nodes)

valid_entry-IsValid : (idx : Index) → IsValid idx → entry_point_valid idx ≡ true
unfolding entry_point_valid count
valid_entry-IsValid idx v = elim v.entry [
  | inl (empty, nil, _) ↦
      rw nil (
        ground
          (arith, length-outline idx.nodes, ap (λ (x : Dict GoString Outline). length x) empty))
  | inr (e, o, is, there, _) ↦ elim (Option-cases (Dict.get e idx.nodes)) [
    | inl missing ↦ absurd (let h = rw (get-outline e idx.nodes, missing) at there in ground arith)
    | inr (node, found) ↦ rw (entry_point_valid, is, exists_in, found) refl
  ]
]

same_nodes : (idx : Index) → (optimize_entry_point idx).nodes ≡ idx.nodes
unfolding optimize_entry_point
same_nodes idx = elim (Option-cases (select_new_entry_point idx.nodes)) [
  | inl nothing ↦ rw (optimize_entry_point, nothing) refl
  | inr (best, is) ↦ rw (optimize_entry_point, is) refl
]

-- After OptimizeIndex on an index that holds what `Built-IsValid` says, Diagnostics reports no
-- dangling reference and a valid entry point, the number of nodes is as before, and the index still
-- holds that.
pub diagnostics-optimize_index :
    (idx : Index)
    → IsValid idx
    → let d = diagnostics (optimize_index idx) in
      (d.dangling_references ≡ 0)
      × (d.valid_entry ≡ true)
      × (d.node_count ≡ (diagnostics idx).node_count)
      × IsValid (optimize_index idx)
unfolding diagnostics optimize_index count
diagnostics-optimize_index idx v =
    let idx' = optimize_entry_point idx in
    let v' = optimize-Valid idx v in
    (
      nodes_clean idx'.nodes (clean idx'.nodes idx'.nodes) (clean-outline idx'.nodes idx'.nodes)
          idx'.nodes,
      valid_entry-IsValid (optimize_index idx) v',
      sym (length-outline (clean idx'.nodes idx'.nodes))
          ∙ ap (λ (x : Dict GoString Outline). length x) (clean-outline idx'.nodes idx'.nodes)
          ∙ length-outline idx'.nodes
          ∙ ap (λ (x : Nodes). length x) (same_nodes idx),
      v',
    )

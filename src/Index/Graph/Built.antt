-- ===== src/Index/Graph/Built.antt =====
-- What holds of the index after any operations on a new one.
use magpie_db.Common.{
  ℕ, ◌+◌, ◌*◌, ◌≡◌, refl, ap, ◌∙◌, ◌≢◌, inl, inr, false, none, some, List, [], ◌∷◌, arith, ltb,
  Bool-cases, Option-cases, GoString, ◌==◌, eq_refl, ℕ-Eq, GoString-Eq, All, length-replicate,
}
use magpie_db.Dict
use magpie_db.Dict.{Dict, Distinct}
use magpie_db.Dict.Laws.{delete-Distinct, All-delete}
use magpie_db.Index.{Node, Nodes, Index, Entry, Outline, new_index, clear, outline, outline_of}
use magpie_db.Index.Graph.Search.{Geometry, HeapLib}
use magpie_db.Index.Graph.Insert.{add, new_node}
use magpie_db.Index.Graph.Remove.{
  remove, unlink, reconnect_levels, is_entry, replace_entry, optimize_index, optimize_entry_point,
}
use magpie_db.Index.Graph.Links.{
  insert_node-outline, unlink-outline, reconnect_levels-outline, clean-outline, get-outline,
  put-outline, delete-outline,
}
use magpie_db.Index.Graph.Best.{select-Highest}
use magpie_db.Index.Graph.Invariant.{
  IsNode, Valid, IsValid, empty-Valid, best-Valid, put-Valid, delete-Valid, entry-cases,
}

-- The states that an index reaches, with any levels drawn.
pub data Built (g : Geometry) (heap : HeapLib) (m ef : ℕ) : Index → Type 0 where
  start : Built g heap m ef (new_index m ef)
  adds :
      {idx : Index} (level : ℕ) (id : GoString) (vector : List ℕ)
      → Built g heap m ef idx
      → Built g heap m ef (add g heap level id vector idx).1
  removes :
      {idx : Index} (id : GoString) → Built g heap m ef idx → Built g heap m ef (remove id idx).1
  optimizes : {idx : Index} → Built g heap m ef idx → Built g heap m ef (optimize_index idx)
  clears : {idx : Index} → Built g heap m ef idx → Built g heap m ef (clear idx)

-- `replace_entry` makes an index valid that has valid nodes.
replace-Valid :
    (idx : Index)
    → Distinct (outline idx.nodes)
    → All IsNode (outline idx.nodes)
    → IsValid (replace_entry idx)
unfolding replace_entry
replace-Valid idx d each = elim (select-Highest idx.nodes) [
  | inl (empty, nothing) ↦ rw (replace_entry, nothing, empty) empty-Valid
  | inr (best, is, h) ↦ rw (replace_entry, is) (best-Valid idx.nodes best d each h)
]

pub optimize-Valid : (idx : Index) → IsValid idx → IsValid (optimize_index idx)
unfolding optimize_index optimize_entry_point
optimize-Valid idx v =
    rw (clean-outline (optimize_entry_point idx).nodes (optimize_entry_point idx).nodes)
      (elim (select-Highest idx.nodes) [
        | inl (empty, nothing) ↦ rw (optimize_entry_point, nothing) v
        | inr (best, is, h) ↦
            rw (optimize_entry_point, is) (best-Valid idx.nodes best v.distinct v.each h)
      ])

-- The nodes after a removal, but for the lists.
pub remaining :
    (m level : ℕ) (id : GoString) (lists : List (List GoString)) (nodes : Nodes)
    → outline (Dict.delete id (reconnect_levels m level lists (unlink id nodes)))
      ≡ Dict.delete id (outline nodes)
remaining m level id lists nodes =
    delete-outline id _
    ∙ ap (Dict.delete id)
        (reconnect_levels-outline m level lists (unlink id nodes) ∙ unlink-outline id nodes)

not_entry :
    (id : GoString) (idx : Index)
    → is_entry id idx ≡ false
    → (e : GoString) → idx.entry_point ≡ Entry.stored e
    → (e == id) ≡ false
unfolding is_entry
not_entry id idx h e is = rw is at h

pub remove-Valid : (id : GoString) (idx : Index) → IsValid idx → IsValid (remove id idx).1
unfolding remove
remove-Valid id idx v = elim (Option-cases (Dict.get id idx.nodes)) [
  | inl missing ↦ rw (remove, missing) v
  | inr (node, there) ↦
      let same = remaining (idx.m * 2) 0 id node.neighbors idx.nodes in
      elim (Bool-cases (is_entry id idx)) [
        | inl was ↦
            rw (remove, there, was)
              (replace-Valid _ (rw same (delete-Distinct id (outline idx.nodes) v.distinct))
                (rw same (All-delete IsNode id (outline idx.nodes) v.each)))
        | inr was_not ↦
            rw (remove, there, was_not, same)
              (delete-Valid (outline idx.nodes) idx.entry_point idx.max_level id v
                (not_entry id idx was_not))
      ]
]

first-Valid :
    (id : GoString) (node : Node)
    → IsNode (id, outline_of node)
    → Valid (outline (Dict.put id node [])) (Entry.stored id) node.level
unfolding Dict.put Dict.get
first-Valid id node own = record {
  distinct = (refl, tt);
  each = (own, tt);
  below = (omega arith, tt);
  entry = inr (id, outline_of node, refl, rw (eq_refl id) refl, refl);
}

-- The key of an entry point: a map that has one is not empty.
get-nonempty :
    (id : GoString) (o : Outline) (nodes : Dict GoString Outline)
    → Dict.get id nodes ≡ some o
    → nodes ≢ []
unfolding Dict.get
get-nonempty id o [] h e = ground arith
get-nonempty id o (n ∷ nodes) h e = ground arith

pub add-Valid :
    (g : Geometry) (heap : HeapLib) (level : ℕ) (id : GoString) (vector : List ℕ) (idx : Index)
    → IsValid idx
    → IsValid (add g heap level id vector idx).1
unfolding add
add-Valid g heap level id vector idx v = elim (Option-cases (Dict.get id idx.nodes)) [
  | inr (old, there) ↦ rw (add, there) v
  | inl missing ↦
      let node = new_node id vector level in
      let fresh : Dict.get id (outline idx.nodes) ≡ none =
        rw missing at (get-outline id idx.nodes) in
      let own : IsNode (id, outline_of node) =
        (refl, length-replicate {A = List GoString} (level + 1) []) in
      elim (entry-cases idx v) [
        | inl (empty, nil) ↦ rw (add, missing, nil, empty) (first-Valid id node own)
        | inr (ep, is, there, top) ↦
            let written =
              insert_node-outline g heap idx node ep (Dict.put id node idx.nodes)
              ∙ put-outline id node idx.nodes in
            let grown =
              put-Valid (outline idx.nodes) idx.entry_point idx.max_level id (outline_of node) v
                fresh own
                (get-nonempty ep.id (outline_of ep) (outline idx.nodes)
                  (get-outline ep.id idx.nodes ∙ rw there refl)) in
            elim (Bool-cases (ltb idx.max_level level)) [
              | inl higher ↦ rw (add, missing, is, higher, written) (rw higher at grown)
              | inr lower ↦ rw (add, missing, is, lower, written) (rw lower at grown)
            ]
      ]
]

-- After any additions, removals, optimizations and clearings of a new index, at whatever levels are
-- drawn: no ID has two nodes; every node is stored under its own ID, with one list of neighbors for
-- each of its levels; no node is above `maxLevel`; and the entry point is nil in an empty index,
-- with `maxLevel` 0, and else a stored node of level `maxLevel`.
pub Built-IsValid :
    {g : Geometry} {heap : HeapLib} {m ef : ℕ} {idx : Index} → Built g heap m ef idx → IsValid idx
unfolding new_index clear
Built-IsValid {g} {heap} start = empty-Valid
Built-IsValid {g} {heap} (adds {idx} level id vector r) =
    add-Valid g heap level id vector idx (Built-IsValid r)
Built-IsValid {g} {heap} (removes {idx} id r) = remove-Valid id idx (Built-IsValid r)
Built-IsValid {g} {heap} (optimizes {idx} r) = optimize-Valid idx (Built-IsValid r)
Built-IsValid {g} {heap} (clears r) = empty-Valid

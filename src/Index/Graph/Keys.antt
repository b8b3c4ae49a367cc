-- ===== src/Index/Graph/Keys.antt =====
-- Which IDs an index holds after an addition and after a removal.
use magpie_db.Common.{
  ℕ, ◌*◌, ◌≡◌, refl, sym, ap, ◌∙◌, inl, inr, true, false, none, some, List, ltb, if◌then◌else◌,
  Bool-cases, Option-cases, GoString, ◌==◌, ℕ-Eq, GoString-Eq,
}
use magpie_db.Dict
use magpie_db.Dict.{Dict}
use magpie_db.Dict.Laws.{get-put, get-delete}
use magpie_db.Index.{Nodes, Index, entry_node, outline, outline_of}
use magpie_db.Index.Graph.Search.{Geometry, HeapLib}
use magpie_db.Index.Graph.Insert.{add, new_node}
use magpie_db.Index.Graph.Remove.{
  remove, is_entry, replace_entry, select_new_entry_point, exists_in,
}
use magpie_db.Index.Graph.Links.{insert_node-outline, get-outline, put-outline}
use magpie_db.Index.Graph.Built.{remaining}

exists-get :
    (nodes : Nodes) (id : GoString)
    → exists_in nodes id ≡ (elim (Dict.get id (outline nodes)) [ none ↦ false | some o ↦ true ])
exists-get nodes id = elim (Option-cases (Dict.get id nodes)) [
  | inl missing ↦ rw (exists_in, get-outline id nodes, missing) refl
  | inr (node, there) ↦ rw (exists_in, get-outline id nodes, there) refl
]

replace_entry-nodes : (idx : Index) → (replace_entry idx).nodes ≡ idx.nodes
unfolding replace_entry
replace_entry-nodes idx = elim (Option-cases (select_new_entry_point idx.nodes)) [
  | inl nothing ↦ rw (replace_entry, nothing) refl
  | inr (best, is) ↦ rw (replace_entry, is) refl
]

-- Which IDs a removal and an addition leave.
pub get-remove :
    (id other : GoString) (idx : Index)
    → Dict.get other (outline (remove id idx).1.nodes)
      ≡ (if id == other then none else Dict.get other (outline idx.nodes))
unfolding remove
get-remove id other idx = elim (Option-cases (Dict.get id idx.nodes)) [
  | inl missing ↦
      rw (remove, missing)
        (let gone : Dict.get id (outline idx.nodes) ≡ none =
            rw missing at (get-outline id idx.nodes) in
          elim (Bool-cases (id == other)) [
            | inl same ↦ rw (same, sym ((GoString-Eq.beq_iff id other).0 same)) gone
            | inr differs ↦ rw differs refl
          ])
  | inr (node, there) ↦
      let same = remaining (idx.m * 2) 0 id node.neighbors idx.nodes in
      let law = get-delete id other (outline idx.nodes) in
      elim (Bool-cases (is_entry id idx)) [
        | inl was ↦ rw (remove, there, was) (rw (replace_entry-nodes _, same) law)
        | inr was_not ↦ rw (remove, there, was_not) (rw same law)
      ]
]

pub get-add :
    (g : Geometry) (heap : HeapLib) (level : ℕ) (id other : GoString) (vector : List ℕ)
    (idx : Index)
    → Dict.get id idx.nodes ≡ none
    → Dict.get other (outline (add g heap level id vector idx).1.nodes) ≡ (
        if id == other
        then some (outline_of (new_node id vector level))
        else Dict.get other (outline idx.nodes))
unfolding add
get-add g heap level id other vector idx missing =
    let node = new_node id vector level in
    let nodes = Dict.put id node idx.nodes in
    let put_law =
      ap (Dict.get other) (put-outline id node idx.nodes)
      ∙ get-put id other (outline_of node) (outline idx.nodes) in
    elim (Option-cases (entry_node idx)) [
      | inl nil ↦ rw (add, missing, nil) put_law
      | inr (ep, is) ↦
          let linked =
            ap (Dict.get other) (insert_node-outline g heap idx node ep nodes) ∙ put_law in
          elim (Bool-cases (ltb idx.max_level level)) [
            | inl higher ↦ rw (add, missing, is, higher) linked
            | inr lower ↦ rw (add, missing, is, lower) linked
          ]
    ]

pub exists-remove :
    (id other : GoString) (idx : Index)
    → exists_in (remove id idx).1.nodes other
      ≡ (if id == other then false else exists_in idx.nodes other)
exists-remove id other idx =
    exists-get (remove id idx).1.nodes other
    ∙ rw (get-remove id other idx) (elim (Bool-cases (id == other)) [
      | inl same ↦ rw same refl
      | inr differs ↦ rw differs (sym (exists-get idx.nodes other))
    ])

pub exists-add :
    (g : Geometry) (heap : HeapLib) (level : ℕ) (id other : GoString) (vector : List ℕ)
    (idx : Index)
    → exists_in (add g heap level id vector idx).1.nodes other
      ≡ (if id == other then true else exists_in idx.nodes other)
exists-add g heap level id other vector idx = elim (Option-cases (Dict.get id idx.nodes)) [
  | inl missing ↦
      exists-get (add g heap level id vector idx).1.nodes other
      ∙ rw (get-add g heap level id other vector idx missing) (elim (Bool-cases (id == other)) [
        | inl same ↦ rw same refl
        | inr differs ↦ rw differs (sym (exists-get idx.nodes other))
      ])
  | inr (node, there) ↦ elim (Bool-cases (id == other)) [
    | inl same ↦
        unfold add in
        rw (add, there, same, exists_in, sym ((GoString-Eq.beq_iff id other).0 same))
          (rw there refl)
    | inr differs ↦ unfold add in rw (add, there, differs) refl
  ]
]

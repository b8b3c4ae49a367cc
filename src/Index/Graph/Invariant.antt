-- ===== src/Index/Graph/Invariant.antt =====
-- When an index is valid, and what a change of one key does to that.
use mathlib.Core.Option.{some-injective}
use magpie_db.Common.{
  ℕ, ◌+◌, ◌≤◌, ◌≡◌, refl, sym, ap, ◌∙◌, ◌≢◌, ◌⊎◌, inl, inr, false, none, some, [], ◌∷◌, arith, ltb,
  if◌then◌else◌, Bool-cases, Option-cases, GoString, ◌==◌, eq_refl, eq_false, ℕ-Eq, GoString-Eq,
  All,
}
use magpie_db.Dict
use magpie_db.Dict.{Dict, Distinct}
use magpie_db.Dict.Laws.{
  get-put, get-delete, put-Distinct, delete-Distinct, All-put, All-delete, All-get, All-map,
}
use magpie_db.Index.{Node, Nodes, Index, Entry, Outline, entry_node, outline, outline_of}
use magpie_db.Index.Graph.Links.{get-outline}
use magpie_db.Index.Graph.Best.{Highest, get-Among}

-- A node is stored under its own ID, and has one list for each of its levels.
abbrev pub IsNode : GoString × Outline → Type 0
IsNode (key, o) = (o.id ≡ key) × (o.lists ≡ o.level + 1)

-- The entry point: nil in an empty index, and else a stored node of the highest level.
abbrev pub IsEntry : Dict GoString Outline → Entry → ℕ → Type 0
IsEntry nodes entry max =
    ((nodes ≡ []) × (entry ≡ Entry.no_entry) × (max ≡ 0))
    ⊎ ((id : GoString) × (o : Outline) × (entry ≡ Entry.stored id)
        × (Dict.get id nodes ≡ some o)
        × (o.level ≡ max))

pub record Valid (nodes : Dict GoString Outline) (at : Entry) (max : ℕ) : Type 0 where
  pub distinct : Distinct nodes
  pub each : All IsNode nodes
  pub below : All (λ p. p.1.level ≤ max) nodes
  pub entry : IsEntry nodes at max

abbrev pub IsValid : Index → Type 0
IsValid idx = Valid (outline idx.nodes) idx.entry_point idx.max_level

pub empty-Valid : Valid [] Entry.no_entry 0
empty-Valid = record { distinct = tt; each = tt; below = tt; entry = inl (refl, refl, refl) }

-- The entry point that `selectNewEntryPoint` finds.
pub best-Valid :
    (nodes : Nodes) (best : Node)
    → Distinct (outline nodes)
    → All IsNode (outline nodes)
    → Highest best nodes
    → Valid (outline nodes) (Entry.stored best.id) best.level
best-Valid nodes best d each h = record {
  distinct = d;
  each = each;
  below = lower nodes h.above;
  entry = inr (
    best.id,
    outline_of best,
    refl,
    get-Among best nodes d (All-map IsNode _ (outline nodes) (λ p q. q.0) each) h.among,
    refl,
  );
}
  where
    lower :
        (ns : Nodes)
        → All (λ (p : GoString × Node). p.1.level ≤ best.level) ns
        → All (λ (p : GoString × Outline). p.1.level ≤ best.level) (outline ns)
    lower [] a = tt
    lower ((k, n) ∷ ns) a = (a.0, lower ns a.1)

-- A key that is written and not the entry point's leaves the entry point; a new one of a higher
-- level takes its place.
pub put-Valid :
    (nodes : Dict GoString Outline) (entry : Entry) (max : ℕ) (id : GoString) (o : Outline)
    → Valid nodes entry max
    → Dict.get id nodes ≡ none
    → IsNode (id, o)
    → nodes ≢ []
    → Valid
        (Dict.put id o nodes)
        (if ltb max o.level then Entry.stored id else entry)
        (if ltb max o.level then o.level else max)
put-Valid nodes entry max id o v fresh is_node nonempty = record {
  distinct = put-Distinct id o nodes v.distinct;
  each = All-put IsNode id o nodes is_node v.each;
  below = elim (Bool-cases (ltb max o.level)) [
    | inl higher ↦ rw higher (
        All-put (λ p. p.1.level ≤ o.level) id o nodes (omega arith)
          (All-map (λ p. p.1.level ≤ max) _ nodes (λ p l. ground arith) v.below))
    | inr lower ↦ rw lower (All-put (λ p. p.1.level ≤ max) id o nodes (ground arith) v.below)
  ];
  entry = elim (Bool-cases (ltb max o.level)) [
    | inl higher ↦ rw higher (inr (id, o, refl, rw (get-put id id o nodes, eq_refl id) refl, refl))
    | inr lower ↦ rw lower (elim v.entry [
      | inl (none_there, _, _) ↦ absurd (nonempty none_there)
      | inr (e, o', is, there, level) ↦ inr (e, o', is, kept e o' there, level)
    ])
  ];
}
  where
    kept :
        (e : GoString) (o' : Outline)
        → Dict.get e nodes ≡ some o'
        → Dict.get e (Dict.put id o nodes) ≡ some o'
    kept e o' there = elim (Bool-cases (id == e)) [
      | inl same ↦ let k : id ≡ e = (GoString-Eq.beq_iff id e).0 same in cc (k, fresh, there)
      | inr other ↦ rw (get-put id e o nodes, other) there
    ]

pub delete-Valid :
    (nodes : Dict GoString Outline) (entry : Entry) (max : ℕ) (id : GoString)
    → Valid nodes entry max
    → ((e : GoString) → entry ≡ Entry.stored e → (e == id) ≡ false)
    → Valid (Dict.delete id nodes) entry max
delete-Valid nodes entry max id v other = record {
  distinct = delete-Distinct id nodes v.distinct;
  each = All-delete IsNode id nodes v.each;
  below = All-delete _ id nodes v.below;
  entry = elim v.entry [
    | inl (nothing, nil, zero_is) ↦ inl (rw nothing (unfold Dict.delete in refl), nil, zero_is)
    | inr (e, o, is, there, level) ↦ inr (e, o, is, kept e o is there, level)
  ];
}
  where
    kept :
        (e : GoString) (o : Outline)
        → entry ≡ Entry.stored e
        → Dict.get e nodes ≡ some o
        → Dict.get e (Dict.delete id nodes) ≡ some o
    kept e o is there =
        let differs : (id == e) ≡ false =
          eq_false id e
            (λ same. ground (arith, other e is, (GoString-Eq.beq_iff e id).1 (sym same))) in
        rw (get-delete id e nodes, differs) there

pub outline-empty : (nodes : Nodes) → outline nodes ≡ [] → nodes ≡ []
outline-empty [] h = refl
outline-empty (n ∷ nodes) h = absurd (ground arith)

-- The entry point of a valid index is there: nil in an empty one, and else its node.
pub entry-cases :
    (idx : Index)
    → IsValid idx
    → ((idx.nodes ≡ []) × (entry_node idx ≡ none))
      ⊎ ((node : Node) × (entry_node idx ≡ some node)
          × (Dict.get node.id idx.nodes ≡ some node)
          × (node.level ≡ idx.max_level))
unfolding entry_node
entry-cases idx v = elim v.entry [
  | inl (empty, nil, _) ↦ inl (outline-empty idx.nodes empty, rw nil refl)
  | inr (e, o, is, there, level) ↦ elim (Option-cases (Dict.get e idx.nodes)) [
    | inl missing ↦ absurd (impossible e o there missing)
    | inr (node, found) ↦
        let outlined : some (outline_of node) ≡ some o =
          sym (rw found at (get-outline e idx.nodes)) ∙ there in
        let own =
          (All-get IsNode e (outline_of node) (outline idx.nodes) v.each
            (rw found at (get-outline e idx.nodes))).0 in
        inr (
          node,
          rw (is, found) refl,
          ap (λ k. Dict.get k idx.nodes) own ∙ found,
          ap (λ (x : Outline). x.level) (some-injective (outline_of node) o outlined) ∙ level,
        )
  ]
]
  where
    impossible :
        (e : GoString) (o : Outline)
        → Dict.get e (outline idx.nodes) ≡ some o
        → Dict.get e idx.nodes ≡ none
        → ⊥
    impossible e o there missing = cc (there, rw missing at (get-outline e idx.nodes))

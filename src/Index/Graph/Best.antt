-- ===== src/Index/Graph/Best.antt =====
-- The node that `selectNewEntryPoint` chooses: a stored one, of the highest level.
use magpie_db.Common.{
  ◌≤◌, ◌<◌, ◌≡◌, refl, sym, ap, ◌⊎◌, inl, inr, true, none, some, [], ◌∷◌, arith, ltb, Bool-cases,
  GoString, ◌==◌, ℕ-Eq, GoString-Eq, All,
}
use magpie_db.Dict
use magpie_db.Dict.{Dict, values, Distinct}
use magpie_db.Index.{Node, Nodes, Outline, outline, outline_of}
use magpie_db.Index.Graph.Remove.{select_best, select_new_entry_point}

abbrev Among : Node → Nodes → Type 0
Among node [] = ⊥
Among node ((key, other) ∷ nodes) = (node ≡ other) ⊎ Among node nodes

-- A node of the map, and none of a higher level in it.
pub record Highest (best : Node) (nodes : Nodes) : Type 0 where
  pub among : Among best nodes
  pub above : All (λ p. p.1.level ≤ best.level) nodes

record Best (before : Node) (nodes : Nodes) (best : Node) : Type 0 where
  chosen : (best ≡ before) ⊎ Among best nodes
  rises : before.level ≤ best.level
  above : All (λ p. p.1.level ≤ best.level) nodes

pick :
    (before : Node) (nodes : Nodes)
    → (best : Node) × (select_best (some before) (values nodes) ≡ some best)
      × Best before nodes best
unfolding select_best values
pick before [] = (before, refl, record { chosen = inl refl; rises = omega arith; above = tt })
pick before ((key, node) ∷ nodes) = elim (Bool-cases (ltb before.level node.level)) [
  | inl higher ↦
      let (best, eq, b) = pick node nodes in
      let up : before.level < node.level = ground arith in
      (
        best,
        rw (select_best, higher) eq,
        record {
          chosen = inr b.chosen;
          rises = omega (arith, b.rises, up);
          above = (b.rises, b.above);
        },
      )
  | inr lower ↦
      let (best, eq, b) = pick before nodes in
      let down : node.level ≤ before.level = ground arith in
      (
        best,
        rw (select_best, lower) eq,
        record {
          chosen = elim b.chosen [ inl e ↦ inl e | inr a ↦ inr (inr a) ];
          rises = b.rises;
          above = (omega (arith, b.rises, down), b.above);
        },
      )
]

pub select-Highest :
    (nodes : Nodes)
    → ((nodes ≡ []) × (select_new_entry_point nodes ≡ none))
      ⊎ ((best : Node) × (select_new_entry_point nodes ≡ some best) × Highest best nodes)
unfolding select_new_entry_point select_best values
select-Highest [] = inl (refl, refl)
select-Highest ((key, node) ∷ nodes) =
    let (best, eq, b) = pick node nodes in
    inr (best, eq, record { among = b.chosen; above = (b.rises, b.above) })

-- A node of a map without two entries for a key, stored under its own ID, is found there.
pub get-Among :
    (node : Node) (nodes : Nodes)
    → Distinct (outline nodes)
    → All (λ (p : GoString × Outline). p.1.id ≡ p.0) (outline nodes)
    → Among node nodes
    → Dict.get node.id (outline nodes) ≡ some (outline_of node)
unfolding Dict.get
get-Among node [] d own a = absurd a
get-Among node ((key, other) ∷ nodes) d own (inl same) =
    let here : (key == node.id) ≡ true =
      rw same ((GoString-Eq.beq_iff key other.id).1 (sym own.0)) in
    rw here (ap (λ (n : Node). some (outline_of n)) (sym same))
get-Among node ((key, other) ∷ nodes) d own (inr later) =
    let found = get-Among node nodes d.1 own.1 later in
    elim (Bool-cases (key == node.id)) [
      | inl same ↦ absurd (absent ((GoString-Eq.beq_iff key node.id).0 same) found)
      | inr differs ↦ rw differs found
    ]
  where
    absent : key ≡ node.id → Dict.get node.id (outline nodes) ≡ some (outline_of node) → ⊥
    absent e found = cc (d.0, e, found)

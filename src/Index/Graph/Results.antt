-- ===== src/Index/Graph/Results.antt =====
-- What a search returns.
use mathlib.Core.Path.{subst}
use magpie_db.Common.{
  ℕ, zero, suc, ◌*◌, ◌≤◌, ◌≡◌, refl, sym, ◌∙◌, ◌≢◌, inl, inr, true, some, List, [], ◌∷◌, map, arith,
  ltb, if◌then◌else◌, Bool-cases, GoString, ◌==◌, ℕ-Eq, GoString-Eq, length, take, All, length-take,
  length-map,
}
use magpie_db.Dict
use magpie_db.Dict.{Dict}
use magpie_db.Dict.Laws.{All-map, All-get}
use magpie_db.Index.{Node, Nodes, Index, outline_of, SearchResult, contains, get, outline}
use magpie_db.Index.Graph.Search.{
  Geometry, HeapLib, Treasure, new_frontier, offer, found, mark, enter_points, search_loop,
  search_layer, descend, search, treasure_of,
}
use magpie_db.Index.Graph.Sort.{
  All-Permᴰ, length-Permᴰ, Different, Different-Permᴰ, IsOrdered, Ascending, to_slice-Permᴰ,
  to_slice-Ascending, All-take, Different-take, Ascending-take, All-of-map, Different-map,
  Ascending-map,
}
use magpie_db.Index.Graph.Found.{IsHeapLib, id_of, Good, Sound, offer-Sound, loop-Sound}
use magpie_db.Index.Graph.Invariant.{IsValid, IsNode, entry-cases}
use magpie_db.Index.Graph.Links.{get-outline}

module _ (g : Geometry) (heap : HeapLib) (heap_laws : IsHeapLib heap) (IsNumber : ℕ → Type 0)
    (order : IsOrdered g IsNumber) where
  module _ (nodes : Nodes)
      (own : (id : GoString) (node : Node) → Dict.get id nodes ≡ some node → node.id ≡ id) where
    -- What a search of a layer returns.
    record Nearest (query : List ℕ) (ef : ℕ) (rs : List SearchResult) : Type 0 where
      good : All (Good g heap heap_laws nodes query) rs
      differ : Different id_of rs
      ascending : Ascending g (λ (r : SearchResult). r.distance) rs
      least : 1 ≤ length rs
      most : length rs ≤ ef

    -- No distance from the query to a node is NaN.
    abbrev AllNumbers : List ℕ → Type 0
    AllNumbers query = All (λ (p : GoString × Node). IsNumber (g.distance query p.1.vector)) nodes

    empty-Sound : (query : List ℕ) (ef : ℕ) → Sound g heap heap_laws nodes query ef 0 new_frontier
    unfolding new_frontier
    empty-Sound query ef = record {
      candidates = tt;
      results = tt;
      seen = tt;
      differ = tt;
      least = omega arith;
      most = omega arith;
    }

    search_layer-Nearest :
        (query : List ℕ) (ep : Node) (ef layer : ℕ)
        → 1 ≤ ef
        → AllNumbers query
        → Dict.get ep.id nodes ≡ some ep
        → Nearest query ef (search_layer g heap nodes query (ep ∷ []) ef layer)
    unfolding search_layer enter_points
    search_layer-Nearest query ep ef layer room numbers there =
        let entered =
          offer-Sound g heap heap_laws nodes query ef 0 ep new_frontier room there
            (unfold new_frontier contains in refl) (empty-Sound query ef) in
        let s = loop-Sound g heap heap_laws nodes own query ef layer (ef * 3) _ room entered in
        let st =
          search_loop g heap nodes query ef layer (ef * 3)
            (offer g heap ef (found g heap query ep) (mark g heap ep.id new_frontier)) in
        let perm = to_slice-Permᴰ g IsNumber order st.results in
        let measured : All (λ (r : SearchResult). IsNumber r.distance) st.results =
          All-map (Good g heap heap_laws nodes query) _ st.results
            (λ r good. subst IsNumber (sym good.1) (
              All-get (λ (p : GoString × Node). IsNumber (g.distance query p.1.vector)) r.node.id
                r.node nodes numbers good.0))
            s.results in
        record {
          good = All-Permᴰ (Good g heap heap_laws nodes query) perm s.results;
          differ = Different-Permᴰ id_of perm s.differ;
          ascending = to_slice-Ascending g IsNumber order st.results measured;
          least = omega (arith, length-Permᴰ perm, s.least);
          most = omega (arith, length-Permᴰ perm, s.most);
        }

    -- Each layer ends with one node of the map.
    descend-one :
        (query : List ℕ) (bottom level : ℕ) (ep : Node)
        → AllNumbers query
        → Dict.get ep.id nodes ≡ some ep
        → (node : Node) × (descend g heap nodes query bottom level (ep ∷ []) ≡ node ∷ [])
          × (Dict.get node.id nodes ≡ some node)
    unfolding descend
    descend-one query bottom zero ep numbers there = (ep, refl, there)
    descend-one query bottom (suc level) ep numbers there =
        elim (Bool-cases (ltb bottom (suc level))) [
          | inr done ↦ (ep, rw done refl, there)
          | inl further ↦
              step (λ node. descend-one query bottom level node numbers)
                (search_layer g heap nodes query (ep ∷ []) 1 (suc level)) refl
                (search_layer-Nearest query ep 1 (suc level) (omega arith) numbers there) further
        ]
      where
        step :
            ((node : Node)
              → Dict.get node.id nodes ≡ some node
              → (last : Node) × (descend g heap nodes query bottom level (node ∷ []) ≡ last ∷ [])
                × (Dict.get last.id nodes ≡ some last))
            → (rs : List SearchResult)
            → search_layer g heap nodes query (ep ∷ []) 1 (suc level) ≡ rs
            → Nearest query 1 rs
            → ltb bottom (suc level) ≡ true
            → (node : Node) × (descend g heap nodes query bottom (suc level) (ep ∷ []) ≡ node ∷ [])
              × (Dict.get node.id nodes ≡ some node)
        step lower [] same near further = absurd (let l = near.least in omega arith)
        step lower (r ∷ rs) same near further =
            let (node, eq, found_there) = lower r.node near.good.0.0 in
            (node, rw (descend, same, further) eq, found_there)

  -- What a search of an index promises.
  pub record Finds (query : List ℕ) (k : ℕ) (idx : Index) (ts : List Treasure) : Type 0 where
    pub at_most : length ts ≤ k
    pub stands :
        All
          (λ (t : Treasure).
            (node : Node) × (get t.id idx ≡ some node)
            × (t.vector ≡ node.vector)
            × (t.distance ≡ g.distance query node.vector))
          ts
    pub differ : Different (λ (t : Treasure). t.id) ts
    pub ascending : Ascending g (λ (t : Treasure). t.distance) ts
    pub answers : idx.nodes ≢ [] → 1 ≤ k → 1 ≤ length ts

  own_ids :
      (idx : Index)
      → IsValid idx
      → (id : GoString) (node : Node) → Dict.get id idx.nodes ≡ some node
      → node.id ≡ id
  own_ids idx v id node there =
      (All-get IsNode id (outline_of node) (outline idx.nodes) v.each
        (get-outline id idx.nodes ∙ rw there refl)).0

  Nearest-Finds :
      (query : List ℕ) (k ef : ℕ) (idx : Index) (v : IsValid idx) (rs : List SearchResult)
      → Nearest idx.nodes (own_ids idx v) query ef rs
      → Finds query k idx (map (treasure_of g heap) (take k rs))
  unfolding get
  Nearest-Finds query k ef idx v rs near = record {
    at_most = omega (arith, length-map (treasure_of g heap) (take k rs), length-take k rs);
    stands =
        All-of-map _ (treasure_of g heap) (take k rs) (λ r good. (r.node, good.0, refl, good.1))
          (All-take _ k rs near.good);
    differ =
        Different-map (λ (t : Treasure). t.id) (treasure_of g heap) (take k rs)
          (Different-take id_of k rs near.differ);
    ascending =
        Ascending-map g (λ (t : Treasure). t.distance) (treasure_of g heap) (take k rs)
          (Ascending-take g (λ (r : SearchResult). r.distance) k rs near.ascending);
    answers = λ _ some_k.
        omega (arith, length-map (treasure_of g heap) (take k rs), length-take k rs, near.least);
  }

  zero-Finds :
      (query : List ℕ) (k : ℕ) (idx : Index) (rs : List SearchResult)
      → k ≡ 0
      → Finds query k idx (map (treasure_of g heap) (take k rs))
  zero-Finds query k idx rs none_wanted = rw none_wanted (record {
    at_most = omega arith;
    stands = tt;
    differ = tt;
    ascending = tt;
    answers = λ _ some_k. absurd (omega (arith, some_k));
  })

  -- A search of an index that holds what `Built-IsValid` says, for k results: at most k, each of a
  -- stored node, with its vector and its distance to the query, no ID twice, in ascending distance,
  -- and at least one if the index is not empty and k is not 0. The heap operations keep the elements,
  -- as those of container/heap do; `<` orders the numbers, and the distances from the query to the
  -- stored vectors are numbers, not NaN. The distances of other vectors may be NaN.
  pub search-Finds :
      (query : List ℕ) (k : ℕ) (idx : Index)
      → IsValid idx
      → All (λ p. IsNumber (g.distance query p.1.vector)) idx.nodes
      → Finds query k idx (search g heap query k idx)
  unfolding search
  search-Finds query k idx v numbers = elim (entry-cases idx v) [
    | inl (empty, nil) ↦
        rw (search, nil)
          (record {
            at_most = omega arith;
            stands = tt;
            differ = tt;
            ascending = tt;
            answers = λ some_nodes _. absurd (some_nodes empty);
          })
    | inr (ep, is, there, _) ↦
        let ef = if ltb idx.ef_construct k then k else idx.ef_construct in
        let wide : k ≤ ef = ground arith in
        let own = own_ids idx v in
        let (node, eq, found_there) =
          descend-one idx.nodes own query 0 idx.max_level ep numbers there in
        rw (search, is, eq)
          (elim (Bool-cases (ef == 0)) [
            | inl zero_is ↦ zero-Finds query k idx _ (ground (arith, wide))
            | inr some_room ↦
                Nearest-Finds query k ef idx v
                  (search_layer g heap idx.nodes query (node ∷ []) ef 0)
                  (search_layer-Nearest idx.nodes own query node ef 0 (ground arith) numbers
                    found_there)
          ])
  ]

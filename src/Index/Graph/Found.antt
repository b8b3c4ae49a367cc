-- ===== src/Index/Graph/Found.antt =====
-- What holds of the heaps between the rounds of a search.
use mathlib.Core.List.{Permᴰ}
use mathlib.Core.Option.{some-injective}
use mathlib.Core.Path.{subst}
use magpie_db.Common.{
  if_either, ℕ, zero, suc, ◌≤◌, ◌<◌, ◌≡◌, refl, sym, ap, ◌∙◌, ◌≢◌, inl, inr, Bool, true, false,
  ◌&&◌, ◌||◌, none, some, List, [], ◌∷◌, arith, ltb, leb, Bool-cases, Option-cases, GoString,
  eq_refl, ℕ-Eq, GoString-Eq, length, get_elem?, All,
}
use magpie_db.Dict
use magpie_db.Dict.{Dict}
use magpie_db.Dict.Laws.{All-map}
use magpie_db.Index.{Node, Nodes, SearchResult, contains}
use magpie_db.Index.Graph.Search.{
  Geometry, HeapLib, Frontier, min_less, max_less, offer, found, mark, visit, visit_all,
  search_loop, peek_test,
}
use magpie_db.Index.Graph.Sort.{All-Permᴰ, length-Permᴰ, Different, Different-Permᴰ}

-- `Push` adds the element, and `Pop` takes one out of a heap that is not empty.
pub record IsHeapLib (heap : HeapLib) : Type 0 where
  pub push_adds :
      (less : SearchResult → SearchResult → Bool) (r : SearchResult) (h : List SearchResult)
      → Permᴰ (r ∷ h) (heap.push less r h)
  pub pop_takes :
      (less : SearchResult → SearchResult → Bool) (r : SearchResult) (h : List SearchResult)
      → (p : SearchResult × List SearchResult) × (heap.pop less (r ∷ h) ≡ some p)
        × Permᴰ (r ∷ h) (p.0 ∷ p.1)
  pub pop_empty : (less : SearchResult → SearchResult → Bool) → heap.pop less [] ≡ none

abbrev pub id_of : SearchResult → GoString
id_of r = r.node.id

module _ (g : Geometry) (heap : HeapLib) (heap_laws : IsHeapLib heap) (nodes : Nodes) where
  -- A result is a node of the map, under its own ID, with its distance to the query.
  abbrev pub Good : List ℕ → SearchResult → Type 0
  Good query r =
      (Dict.get r.node.id nodes ≡ some r.node) × (r.distance ≡ g.distance query r.node.vector)

  -- What holds between the rounds: at least `few` results and at most `ef`, of different IDs, all
  -- of which are visited.
  pub record Sound (query : List ℕ) (ef few : ℕ) (st : Frontier) : Type 0 where
    pub candidates : All (Good query) st.candidates
    pub results : All (Good query) st.results
    pub seen : All (λ r. contains st.visited (id_of r) ≡ true) st.results
    pub differ : Different id_of st.results
    pub least : few ≤ length st.results
    pub most : length st.results ≤ ef

  -- A heap after a pop.
  record Popped (h : List SearchResult) (q : List SearchResult) : Type 0 where
    top : SearchResult
    order : Permᴰ h (top ∷ q)

  pop_results :
      (less : SearchResult → SearchResult → Bool) (h : List SearchResult)
      → 1 ≤ length h
      → Popped h (elim (heap.pop less h) [ none ↦ [] | some p ↦ p.1 ])
  pop_results less [] long = absurd (omega arith)
  pop_results less (r ∷ h) long =
      let (p, eq, order) = heap_laws.pop_takes less r h in
      rw eq (record { top = p.0; order = order })

  unseen :
      (visited : List GoString) (id : GoString) (rs : List SearchResult)
      → contains visited id ≡ false
      → All (λ r. contains visited (id_of r) ≡ true) rs
      → All (λ r. id ≢ id_of r) rs
  unseen visited id [] fresh seen = tt
  unseen visited id (r ∷ rs) fresh seen =
      (λ same. absurd (cc (same, fresh, seen.0)), unseen visited id rs fresh seen.1)

  still_seen :
      (visited : List GoString) (id : GoString) (rs : List SearchResult)
      → All (λ r. contains visited (id_of r) ≡ true) rs
      → All (λ r. contains (id ∷ visited) (id_of r) ≡ true) rs
  unfolding contains
  still_seen visited id rs seen = All-map _ _ rs (λ r c. ground (arith, c)) seen

  pub offer-Sound :
      (query : List ℕ) (ef few : ℕ) (node : Node) (st : Frontier)
      → 1 ≤ ef
      → Dict.get node.id nodes ≡ some node
      → contains st.visited node.id ≡ false
      → Sound query ef few st
      → Sound query ef 1 (offer g heap ef (found g heap query node) (mark g heap node.id st))
  unfolding offer contains
  offer-Sound query ef few node st some_room there fresh s =
      let r = found g heap query node in
      let pushed = heap_laws.push_adds (max_less g) r st.results in
      let cands =
        All-Permᴰ (Good query) (heap_laws.push_adds (min_less g) r st.candidates)
          ((there, refl), s.candidates) in
      let good = All-Permᴰ (Good query) pushed ((there, refl), s.results) in
      let seen =
        All-Permᴰ (λ q. contains (node.id ∷ st.visited) (id_of q) ≡ true) pushed
          (ground (arith, eq_refl node.id), still_seen st.visited node.id st.results s.seen) in
      let differ =
        Different-Permᴰ id_of pushed
          (unseen st.visited node.id st.results fresh s.seen, s.differ) in
      let size = length-Permᴰ pushed in
      elim (Bool-cases (ltb ef (length (heap.push (max_less g) r st.results)))) [
        | inr fits ↦ rw fits (record {
          candidates = cands;
          results = good;
          seen = seen;
          differ = differ;
          least = omega (arith, size);
          most = ground arith;
        })
        | inl over ↦
            let pop =
              pop_results (max_less g) (heap.push (max_less g) r st.results)
                (omega (arith, size)) in
            let order = pop.order in
            let above : ef < length (heap.push (max_less g) r st.results) = ground arith in
            rw over (record {
              candidates = cands;
              results = (All-Permᴰ (Good query) order good).1;
              seen =
                  (All-Permᴰ (λ q. contains (node.id ∷ st.visited) (id_of q) ≡ true) order seen).1;
              differ = (Different-Permᴰ id_of order differ).1;
              least = omega (arith, length-Permᴰ order, above);
              most = omega (arith, length-Permᴰ order, size, s.most);
            })
      ]

  -- A step that only marks an ID, or drops candidates.
  mark-Sound :
      (query : List ℕ) (ef few : ℕ) (id : GoString) (st : Frontier)
      → Sound query ef few st
      → Sound query ef few (mark g heap id st)
  mark-Sound query ef few id st s = record {
    candidates = s.candidates;
    results = s.results;
    seen = still_seen st.visited id st.results s.seen;
    differ = s.differ;
    least = s.least;
    most = s.most;
  }

  module _
      (own : (id : GoString) (node : Node) → Dict.get id nodes ≡ some node → node.id ≡ id) where
    visit-Sound :
        (query : List ℕ) (ef : ℕ) (id : GoString) (st : Frontier)
        → 1 ≤ ef
        → Sound query ef 1 st
        → Sound query ef 1 (visit g heap nodes query ef id st)
    unfolding visit
    visit-Sound query ef id st room s = elim (Bool-cases (contains st.visited id)) [
      | inl visited ↦ rw (visit, visited) s
      | inr fresh ↦ elim (Option-cases (Dict.get id nodes)) [
        | inl missing ↦ rw (visit, fresh, missing) (mark-Sound query ef 1 id st s)
        | inr (node, there) ↦
            let name = own id node there in
            let next : Sound query ef 1
                (offer g heap ef (found g heap query node) (mark g heap id st)) =
              subst
                (λ i.
                  Sound query ef 1 (offer g heap ef (found g heap query node) (mark g heap i st)))
                name
                (offer-Sound query ef 1 node st room (ap (λ i. Dict.get i nodes) name ∙ there)
                  (ap (contains st.visited) name ∙ fresh) s) in
            elim (Bool-cases (
              ltb (length st.results) ef
              || peek_test (λ worst. g.less (g.distance query node.vector) worst) st.results)) [
                | inl nearer ↦ rw (visit, fresh, there, nearer) next
                | inr farther ↦ rw (visit, fresh, there, farther) (mark-Sound query ef 1 id st s)
              ]
      ]
    ]

    visit_all-Sound :
        (query : List ℕ) (ef : ℕ) (ids : List GoString) (st : Frontier)
        → 1 ≤ ef
        → Sound query ef 1 st
        → Sound query ef 1 (visit_all g heap nodes query ef ids st)
    unfolding visit_all
    visit_all-Sound query ef [] st room s = s
    visit_all-Sound query ef (id ∷ ids) st room s =
        visit_all-Sound query ef ids _ room (visit-Sound query ef id st room s)

    -- The candidates after a pop.
    rest-Sound :
        (query : List ℕ) (ef : ℕ) (p : SearchResult × List SearchResult) (st : Frontier)
        → heap.pop (min_less g) st.candidates ≡ some p
        → Sound query ef 1 st
        → Sound query ef 1 (record st { candidates = p.1 })
    rest-Sound query ef p st h s = record {
      candidates = popped st.candidates s.candidates h;
      results = s.results;
      seen = s.seen;
      differ = s.differ;
      least = s.least;
      most = s.most;
    }
      where
        popped :
            (c : List SearchResult)
            → All (Good query) c
            → heap.pop (min_less g) c ≡ some p
            → All (Good query) p.1
        popped [] good h = absurd (let e = heap_laws.pop_empty (min_less g) in ground arith)
        popped (r ∷ c) good h =
            let (q, eq, order) = heap_laws.pop_takes (min_less g) r c in
            let same = some-injective q p (sym eq ∙ h) in
            subst (λ (x : SearchResult × List SearchResult). All (Good query) x.1) same
              (All-Permᴰ (Good query) order good).1

    pub loop-Sound :
        (query : List ℕ) (ef layer visits : ℕ) (st : Frontier)
        → 1 ≤ ef
        → Sound query ef 1 st
        → Sound query ef 1 (search_loop g heap nodes query ef layer visits st)
    unfolding search_loop
    loop-Sound query ef layer zero st room s = s
    loop-Sound query ef layer (suc visits) st room s =
        elim (Option-cases (heap.pop (min_less g) st.candidates)) [
          | inl empty ↦ rw (search_loop, empty) s
          | inr (p, popped) ↦
              let next = rest-Sound query ef p st popped s in
              let skipped = loop-Sound query ef layer visits _ room next in
              let full = leb ef (length st.results) in
              let far =
                full && peek_test (λ worst. g.less (g.tenth_more worst) p.0.distance) st.results in
              let beyond = full && peek_test (λ worst. g.less worst p.0.distance) st.results in
              elim (Option-cases (get_elem? p.0.node.neighbors layer)) [
                | inl no_layer ↦
                    rw (search_loop, popped, no_layer)
                      (if_either (Sound query ef 1) far s
                        (if_either (Sound query ef 1) beyond skipped skipped))
                | inr (ids, here) ↦
                    let visited =
                      loop-Sound query ef layer visits _ room
                        (visit_all-Sound query ef ids _ room next) in
                    rw (search_loop, popped, here)
                      (if_either (Sound query ef 1) far s
                        (if_either (Sound query ef 1) beyond skipped visited))
              ]
        ]

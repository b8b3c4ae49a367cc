-- ===== src/Index/Graph/Search.antt =====
-- `searchLayer` of hnsw.go, and `Search` of index.go. The rounds of the search loop are counted by
-- `visitCount`, up to `visitThreshold`: the recursion is on the visits that are left.
use magpie_db.Common.{
  ℕ, zero, suc, ◌*◌, Bool, false, ◌&&◌, ◌||◌, Option, none, some, List, [], ◌∷◌, map, ltb, leb,
  if◌then◌else◌, GoString, ℕ-Eq, GoString-Eq, length, get_elem?, take,
}
use magpie_db.Dict
use magpie_db.Dict.{Dict}
use magpie_db.Index.{Node, Nodes, Index, SearchResult, entry_node, contains}

-- What the search uses of floating-point numbers: the distance function, `<` on float32, and `* 1.1`.
pub record Geometry : Type 0 where
  pub distance : List ℕ → List ℕ → ℕ
  pub less : ℕ → ℕ → Bool
  pub tenth_more : ℕ → ℕ

-- `heap.Push` and `heap.Pop` of container/heap, for a given `Less`; `Pop` of an empty heap has no
-- result.
pub record HeapLib : Type 0 where
  pub push :
      (SearchResult → SearchResult → Bool) → SearchResult → List SearchResult → List SearchResult
  pub pop :
      (SearchResult → SearchResult → Bool)
      → List SearchResult
      → Option (SearchResult × List SearchResult)

-- The local variables of `searchLayer`. `visited` holds the IDs whose entry of the map is true.
pub record Frontier : Type 0 where
  pub visited : List GoString
  pub candidates : List SearchResult
  pub results : List SearchResult

-- `Treasure`, as the search fills it.
pub record Treasure : Type 0 where
  pub id : GoString
  pub vector : List ℕ
  pub distance : ℕ

unfoldable pub new_frontier : Frontier
new_frontier = record { visited = []; candidates = []; results = [] }

-- `MinHeap.Less` and `MaxHeap.Less`
unfoldable pub min_less : Geometry → SearchResult → SearchResult → Bool
min_less g a b = g.less a.distance b.distance

unfoldable pub max_less : Geometry → SearchResult → SearchResult → Bool
max_less g a b = g.less b.distance a.distance

-- The test of `Peek().Distance` below; with `ef` 0 no round of the loop comes this far.
abbrev pub peek_test : (ℕ → Bool) → List SearchResult → Bool
peek_test test [] = false
peek_test test (worst ∷ results) = test worst.distance

-- The inner loop of `ToSlice`: `x` is the element at i, against those behind it.
unfoldable pub settle :
    Geometry → SearchResult → List SearchResult → SearchResult × List SearchResult
settle g x [] = (x, [])
settle g x (y ∷ ys) =
    let swapped = settle g y ys in
    let kept = settle g x ys in
    if g.less y.distance x.distance then (swapped.0, x ∷ swapped.1) else (kept.0, y ∷ kept.1)

-- The outer loop, for the `n` elements from i on.
unfoldable pub sort_results : Geometry → ℕ → List SearchResult → List SearchResult
sort_results g zero xs = xs
sort_results g (suc n) [] = []
sort_results g (suc n) (x ∷ xs) = let (least, rest) = settle g x xs in least ∷ sort_results g n rest

-- `ToSlice`
unfoldable pub to_slice : Geometry → List SearchResult → List SearchResult
to_slice g h = sort_results g (length h) h

module _ (g : Geometry) (heap : HeapLib) where
  -- `heap.Push` on both heaps, and `heap.Pop` of the results above `ef` of them.
  unfoldable pub offer : ℕ → SearchResult → Frontier → Frontier
  offer ef r st =
      let results = heap.push (max_less g) r st.results in
      let popped : List SearchResult = elim (heap.pop (max_less g) results) [
        | none ↦ []
        | some p ↦ p.1
      ] in
      record st {
        candidates = heap.push (min_less g) r st.candidates;
        results = if ltb ef (length results) then popped else results;
      }

  abbrev pub found : List ℕ → Node → SearchResult
  found query node = record { node = node; distance = g.distance query node.vector }

  abbrev pub mark : GoString → Frontier → Frontier
  mark id st = record st { visited = id ∷ st.visited }

  unfoldable pub enter_points : List ℕ → ℕ → List Node → Frontier → Frontier
  enter_points query ef [] st = st
  enter_points query ef (ep ∷ eps) st =
      enter_points query ef eps (offer ef (found query ep) (mark ep.id st))

  -- One round of the inner loop over the neighbors.
  unfoldable pub visit : Nodes → List ℕ → ℕ → GoString → Frontier → Frontier
  visit nodes query ef id st = if contains st.visited id then st else elim (Dict.get id nodes) [
    | none ↦ mark id st
    | some neighbor ↦
        let r = found query neighbor in
        if ltb (length st.results) ef || peek_test (λ worst. g.less r.distance worst) st.results
        then offer ef r (mark id st)
        else mark id st
  ]

  unfoldable pub visit_all : Nodes → List ℕ → ℕ → List GoString → Frontier → Frontier
  visit_all nodes query ef [] st = st
  visit_all nodes query ef (id ∷ ids) st = visit_all nodes query ef ids (visit nodes query ef id st)

  -- The search loop, for the given number of further visits.
  unfoldable pub search_loop : Nodes → List ℕ → ℕ → ℕ → ℕ → Frontier → Frontier
  search_loop nodes query ef layer zero st = st
  search_loop nodes query ef layer (suc visits) st = elim (heap.pop (min_less g) st.candidates) [
    | none ↦ st
    | some (current, rest) ↦
        let full = leb ef (length st.results) in
        let next : Frontier = record st { candidates = rest } in
        let skipped = search_loop nodes query ef layer visits next in
        let visited : Frontier = elim (get_elem? current.node.neighbors layer) [
          | none ↦ skipped
          | some ids ↦ search_loop nodes query ef layer visits (visit_all nodes query ef ids next)
        ] in
        if full && peek_test (λ worst. g.less (g.tenth_more worst) current.distance) st.results
        then st
        else if full && peek_test (λ worst. g.less worst current.distance) st.results
        then skipped
        else visited
  ]

  unfoldable pub search_layer : Nodes → List ℕ → List Node → ℕ → ℕ → List SearchResult
  search_layer nodes query entry_points ef layer =
      let visit_threshold = ef * 3 in
      let st = enter_points query ef entry_points new_frontier in
      to_slice g (search_loop nodes query ef layer visit_threshold st).results

  -- The loop over the layers from `level` down to the one above `bottom`.
  unfoldable pub descend : Nodes → List ℕ → ℕ → ℕ → List Node → List Node
  descend nodes query bottom zero nearest = nearest
  descend nodes query bottom (suc level) nearest =
      let nearest' : List Node = elim (search_layer nodes query nearest 1 (suc level)) [
        | [] ↦ nearest
        | r ∷ results ↦ r.node ∷ []
      ] in
      let lower = descend nodes query bottom level nearest' in
      if ltb bottom (suc level) then lower else nearest

  abbrev pub treasure_of : SearchResult → Treasure
  treasure_of r = record { id = r.node.id; vector = r.node.vector; distance = r.distance }

  unfoldable pub search : List ℕ → ℕ → Index → List Treasure
  search query k idx = elim (entry_node idx) [
    | none ↦ []
    | some ep ↦
        let ef = if ltb idx.ef_construct k then k else idx.ef_construct in
        let nearest = descend idx.nodes query 0 idx.max_level (ep ∷ []) in
        map treasure_of (take k (search_layer idx.nodes query nearest ef 0))
  ]

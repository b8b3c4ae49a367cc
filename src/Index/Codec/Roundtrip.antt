-- ===== src/Index/Codec/Roundtrip.antt =====
-- An index that is written is read back.
use mathlib.Core.List.{append-nil, append_assoc}
use magpie_db.Common.{
  ℕ, ◌+◌, ◌-◌, ◌%◌, ◌^◌, ◌<◌, ◌≡◌, refl, sym, ap, ◌∙◌, inl, inr, false, none, some, List, [], ◌∷◌,
  ◌++◌, arith, ltb, if◌then◌else◌, Bool-cases, Option-cases, GoString, ◌==◌, eq_false, ℕ-Eq,
  GoString-Eq, length, All, length-append, take-append_length, drop-append_length, take_all, ok,
}
use magpie_db.Dict
use magpie_db.Dict.{Dict, Distinct, values}
use magpie_db.Dict.Laws.{get-put, All-map, All-get}
use magpie_db.Bytes.{Bytes, put_uint}
use magpie_db.Bytes.Endian.{length-put_uint, uint-put_uint}
use magpie_db.Index.{Node, Nodes, Index, Entry, Outline, entry_node, new_index, outline}
use magpie_db.Index.Graph.Invariant.{IsValid, IsNode, outline-empty}
use magpie_db.Index.Graph.Links.{get-outline}
use magpie_db.Index.Codec.{
  write_u32, write_string, write_floats, write_strings, write_lists, write_node, write_nodes,
  entry_id, serialize, read_u32, read_bytes, read_string, read_floats, read_strings, read_lists,
  read_node, read_nodes, old_entry, deserialize,
}

abbrev pub IsU32 : ℕ → Type 0
IsU32 n = n < 2 ^ 32

-- The lengths of the strings and of the list fit a uint32.
abbrev pub FitStrings : List GoString → Type 0
FitStrings ids = IsU32 (length ids) × All (λ (id : GoString). IsU32 (length id)) ids

-- The numbers of a node that are written fit a uint32, and it has one list for each level.
pub record FitsNode (node : Node) : Type 0 where
  pub id : IsU32 (length node.id)
  pub level : IsU32 (node.level + 1)
  pub size : IsU32 (length node.vector)
  pub vector : All IsU32 node.vector
  pub lists : length node.neighbors ≡ node.level + 1
  pub neighbors : All FitStrings node.neighbors

pub record Fits (idx : Index) : Type 0 where
  pub count : IsU32 (length idx.nodes)
  pub max_level : IsU32 idx.max_level
  pub m : IsU32 idx.m
  pub ef_construct : IsU32 idx.ef_construct
  pub each : All (λ p. FitsNode p.1) idx.nodes

read-write_u32 : (v : ℕ) (rest : Bytes) → IsU32 v → read_u32 (write_u32 v rest) ≡ (v, rest)
unfolding read_u32 write_u32
read-write_u32 v rest h =
    let small : v % 2 ^ 32 ≡ v = omega arith in
    let four = length-put_uint 4 v in
    let long : ltb (length (put_uint 4 v ++ rest)) 4 ≡ false =
      ground (arith, length-append {0} (put_uint 4 v) rest, four) in
    rw
      (
        small,
        long,
        take-append_length (put_uint 4 v) rest 4 four,
        drop-append_length (put_uint 4 v) rest 4 four,
        uint-put_uint 4 v (omega arith),
      )
      refl

read-write_string :
    (s : GoString) (rest : Bytes) → IsU32 (length s) → read_string (write_string s rest) ≡ (s, rest)
unfolding read_string write_string read_bytes
read-write_string s rest h =
    let none_missing : length s - length (s ++ rest) ≡ 0 =
      omega (arith, length-append {0} s rest) in
    rw
      (
        read-write_u32 (length s) (s ++ rest) h,
        none_missing,
        take-append_length s rest (length s) refl,
        drop-append_length s rest (length s) refl,
        append-nil s,
      )
      refl

read-write_floats :
    (vector : List ℕ) (rest : Bytes)
    → All IsU32 vector
    → read_floats (length vector) (write_floats vector rest) ≡ (vector, rest)
unfolding read_floats write_floats
read-write_floats [] rest h = refl
read-write_floats (v ∷ vector) rest h =
    rw (read-write_u32 v (write_floats vector rest) h.0, read-write_floats vector rest h.1) refl

read-write_strings :
    (ids : List GoString) (rest : Bytes)
    → All (λ (id : GoString). IsU32 (length id)) ids
    → read_strings (length ids) (write_strings ids rest) ≡ (ids, rest)
unfolding read_strings write_strings
read-write_strings [] rest h = refl
read-write_strings (id ∷ ids) rest h =
    rw (read-write_string id (write_strings ids rest) h.0, read-write_strings ids rest h.1) refl

read-write_lists :
    (lists : List (List GoString)) (rest : Bytes)
    → All FitStrings lists
    → read_lists (length lists) (write_lists lists rest) ≡ (lists, rest)
unfolding read_lists write_lists
read-write_lists [] rest h = refl
read-write_lists (ids ∷ lists) rest h =
    rw
      (
        read-write_u32 (length ids) (write_strings ids (write_lists lists rest)) h.0.0,
        read-write_strings ids (write_lists lists rest) h.0.1,
        read-write_lists lists rest h.1,
      )
      refl

read-write_node :
    (node : Node) (rest : Bytes)
    → FitsNode node
    → read_node (write_node node rest) ≡ ok (node, rest)
unfolding read_node write_node
read-write_node node rest f =
    let low : (node.level == 2 ^ 32 - 1) ≡ false = ground (arith, f.level) in
    let behind = write_lists node.neighbors rest in
    let lists : read_lists (node.level + 1) behind ≡ (node.neighbors, rest) =
      ap (λ (n : ℕ). read_lists n behind) (sym f.lists)
      ∙ read-write_lists node.neighbors rest f.neighbors in
    simp (
      take_all (node.level + 1) node.neighbors (omega (arith, f.lists)),
      read-write_string node.id _ f.id,
      read-write_u32 node.level _ (omega (arith, f.level)),
      read-write_u32 (length node.vector) _ f.size,
      read-write_floats node.vector behind f.vector,
      low,
      lists,
    )

-- The entry point after the nodes of a map have been read.
entry_after : GoString → Nodes → Entry → Entry
entry_after id [] entry = entry
entry_after id ((key, node) ∷ nodes) entry =
    entry_after id nodes (if key == id then Entry.stored key else entry)

entry_after-stored :
    (id : GoString) (nodes : Nodes) → entry_after id nodes (Entry.stored id) ≡ Entry.stored id
unfolding entry_after
entry_after-stored id [] = refl
entry_after-stored id ((key, node) ∷ nodes) = elim (Bool-cases (key == id)) [
  | inl same ↦ rw (same, (GoString-Eq.beq_iff key id).0 same) (entry_after-stored id nodes)
  | inr other ↦ rw other (entry_after-stored id nodes)
]

entry_after-get :
    (id : GoString) (node : Node) (nodes : Nodes) (entry : Entry)
    → Dict.get id nodes ≡ some node
    → entry_after id nodes entry ≡ Entry.stored id
unfolding entry_after Dict.get
entry_after-get id node [] entry h = absurd (ground arith)
entry_after-get id node ((key, other) ∷ nodes) entry h = elim (Bool-cases (key == id)) [
  | inl same ↦ rw (same, (GoString-Eq.beq_iff key id).0 same) (entry_after-stored id nodes)
  | inr differs ↦ rw differs (entry_after-get id node nodes entry (rw differs at h))
]

put_fresh :
    (id : GoString) (node : Node) (nodes : Nodes)
    → Dict.get id nodes ≡ none
    → Dict.put id node nodes ≡ nodes ++ ((id, node) ∷ [])
unfolding Dict.put Dict.get
put_fresh id node [] h = refl
put_fresh id node ((key, old) ∷ nodes) h = elim (Bool-cases (key == id)) [
  | inl same ↦ absurd (let h' = rw same at h in ground arith)
  | inr differs ↦ rw differs (ap (◌∷◌ (key, old)) (put_fresh id node nodes (rw differs at h)))
]

-- None of the keys is in the map.
abbrev Fresh : Nodes → Nodes → Type 0
Fresh done = All (λ p. Dict.get p.0 done ≡ none)

put-Fresh :
    (id : GoString) (node : Node) (done nodes : Nodes)
    → Dict.get id nodes ≡ none
    → Fresh done nodes
    → Fresh (Dict.put id node done) nodes
unfolding Dict.get
put-Fresh id node done [] h f = tt
put-Fresh id node done ((key, other) ∷ nodes) h f = elim (Bool-cases (key == id)) [
  | inl same ↦ absurd (let h' = rw same at h in ground arith)
  | inr differs ↦
      let id_differs : (id == key) ≡ false =
        eq_false id key (λ e. ground (arith, (GoString-Eq.beq_iff key id).1 (sym e))) in
      (
        rw (get-put id key node done, id_differs) f.0,
        put-Fresh id node done nodes (rw differs at h) f.1,
      )
]

read-write_nodes :
    (nodes done : Nodes) (id : GoString) (entry : Entry)
    → All (λ p. FitsNode p.1) nodes
    → All (λ p. p.1.id ≡ p.0) nodes
    → Distinct nodes
    → Fresh done nodes
    → read_nodes (length nodes) id (write_nodes (values nodes) []) done entry
      ≡ ok (done ++ nodes, entry_after id nodes entry)
unfolding read_nodes write_nodes values entry_after
read-write_nodes [] done id entry fit own d f = rw (append-nil done) refl
read-write_nodes ((key, node) ∷ nodes) done id entry fit own d f =
    rw (read-write_node node (write_nodes (values nodes) []) fit.0) (
      ap
        (λ (k : GoString).
          read_nodes (length nodes) id (write_nodes (values nodes) []) (Dict.put k node done)
            (if k == id then Entry.stored k else entry))
        own.0
      ∙ read-write_nodes nodes (Dict.put key node done) id _ fit.1 own.1 d.1
          (put-Fresh key node done nodes d.0 f.1)
      ∙ ap
          (λ (ns : Nodes).
            ok (ns, entry_after id nodes (if key == id then Entry.stored key else entry)))
          (rw (put_fresh key node done f.0) (append_assoc done ((key, node) ∷ []) nodes)))

missing_key :
    (id : GoString) (nodes : Nodes) → Dict.get id (outline nodes) ≡ none → Dict.get id nodes ≡ none
missing_key id nodes h = elim (Option-cases (Dict.get id nodes)) [
  | inl missing ↦ missing
  | inr (node, there) ↦ absurd (let h' = rw (get-outline id nodes, there) at h in ground arith)
]

-- The map itself, from what holds of it without its lists.
Distinct-outline : (nodes : Nodes) → Distinct (outline nodes) → Distinct nodes
Distinct-outline [] d = tt
Distinct-outline ((key, node) ∷ nodes) d = (missing_key key nodes d.0, Distinct-outline nodes d.1)

own-outline :
    (nodes : Nodes)
    → All (λ (p : GoString × Outline). p.1.id ≡ p.0) (outline nodes)
    → All (λ (p : GoString × Node). p.1.id ≡ p.0) nodes
own-outline [] a = tt
own-outline ((key, node) ∷ nodes) a = (a.0, own-outline nodes a.1)

all_Fresh : (nodes : Nodes) → Fresh [] nodes
unfolding Dict.get
all_Fresh [] = tt
all_Fresh (entry ∷ nodes) = (refl, all_Fresh nodes)

record EntryBack (idx : Index) : Type 0 where
  small : IsU32 (length (entry_id idx))
  back : entry_after (entry_id idx) idx.nodes Entry.no_entry ≡ idx.entry_point

entry-EntryBack : (idx : Index) → IsValid idx → Fits idx → EntryBack idx
unfolding entry_id entry_after
entry-EntryBack idx v f = elim v.entry [
  | inl (empty, nil, _) ↦ record {
    small = rw nil (omega arith);
    back = rw (nil, outline-empty idx.nodes empty) refl;
  }
  | inr (e, o, is, there, _) ↦ elim (Option-cases (Dict.get e idx.nodes)) [
    | inl missing ↦
        absurd (let there' = rw (get-outline e idx.nodes, missing) at there in ground arith)
    | inr (node, found) ↦
        let own : node.id ≡ e =
          All-get (λ (p : GoString × Node). p.1.id ≡ p.0) e node idx.nodes
            (own-outline idx.nodes (All-map IsNode _ (outline idx.nodes) (λ p q. q.0) v.each))
            found in
        let fits = All-get (λ (p : GoString × Node). FitsNode p.1) e node idx.nodes f.each found in
        record {
          small = rw (is, sym own) fits.id;
          back = rw is (entry_after-get e node idx.nodes Entry.no_entry found);
        }
  ]
]

-- An index that is serialized and read into a new one is the same again, with the entry point and the
-- order of its nodes, if it holds what `Built-IsValid` says of it and its numbers and lengths fit a
-- uint32.
pub deserialize-serialize :
    (idx : Index) (m ef : ℕ)
    → IsValid idx
    → Fits idx
    → deserialize (serialize idx) (new_index m ef) ≡ ok idx
unfolding deserialize serialize old_entry entry_node new_index
deserialize-serialize idx m ef v f =
    let nodes_back =
      read-write_nodes idx.nodes [] (entry_id idx) Entry.no_entry f.each
        (own-outline idx.nodes (All-map IsNode _ (outline idx.nodes) (λ p q. q.0) v.each))
        (Distinct-outline idx.nodes v.distinct) (all_Fresh idx.nodes) in
    simp (
      read-write_u32 (length idx.nodes) _ f.count,
      read-write_u32 idx.max_level _ f.max_level,
      read-write_u32 idx.m _ f.m,
      read-write_u32 idx.ef_construct _ f.ef_construct,
      read-write_string (entry_id idx) _ (entry-EntryBack idx v f).small,
      nodes_back,
      (entry-EntryBack idx v f).back,
    )

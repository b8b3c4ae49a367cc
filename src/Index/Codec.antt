-- ===== src/Index/Codec.antt =====
-- `Serialize` and `Deserialize` of index.go. A writer puts its bytes before `rest`, what is written
-- behind it; a reader returns what it read and what is left. The errors of `binary.Read` and `Read`
-- are ignored, as in the code.
pub mod Roundtrip
use magpie_db.Common.{
  ℕ, zero, suc, ◌+◌, ◌-◌, ◌*◌, ◌/◌, ◌%◌, ◌^◌, ◌≤◌, ◌<◌, ◌≡◌, refl, sym, ap, ◌∙◌, fun_ext, ◌≢◌, ◌↔◌,
  ◌⊎◌, inl, inr, Bool, true, false, not, ◌&&◌, ◌||◌, Option, none, some, List, [], ◌∷◌, ◌++◌, map,
  arith, ltb, leb, if◌then◌else◌, ltb→lt, lt→ltb, leb→le, le→leb, nat_eq, nat_eq_iff, Bool-cases,
  Option-cases, GoString, string_eq, string_eq_iff, Eq, ◌==◌, eq_refl, eq_false, ℕ-Eq, GoString-Eq,
  length, get_elem?, take, drop, replicate, All, length-append, length-take, length-drop,
  length-replicate, take-append_length, drop-append_length, take_all, take-append-drop, length-map,
  Error, Result, ok, err, panic, ◌>>=◌, ◌>>◌, reject, in_range, >>=-eq-ok, Result-cases, codes,
}
use magpie_db.Dict
use magpie_db.Dict.{Dict, values}
use magpie_db.Bytes.{Bytes, put_uint, uint}
use magpie_db.Index.{Node, Nodes, Index, Entry, entry_node}

-- `binary.Write(buf, binary.LittleEndian, uint32(v))`
unfoldable pub write_u32 : ℕ → Bytes → Bytes
write_u32 v rest = put_uint 4 (v % 2 ^ 32) ++ rest

-- A length and a string behind it.
unfoldable pub write_string : GoString → Bytes → Bytes
write_string s rest = write_u32 (length s) (s ++ rest)

unfoldable pub write_floats : List ℕ → Bytes → Bytes
write_floats [] rest = rest
write_floats (v ∷ vector) rest = write_u32 v (write_floats vector rest)

unfoldable pub write_strings : List GoString → Bytes → Bytes
write_strings [] rest = rest
write_strings (id ∷ ids) rest = write_string id (write_strings ids rest)

-- The neighbor lists, up to the node's level: there is one for each level.
unfoldable pub write_lists : List (List GoString) → Bytes → Bytes
write_lists [] rest = rest
write_lists (ids ∷ lists) rest = write_u32 (length ids) (write_strings ids (write_lists lists rest))

unfoldable pub write_node : Node → Bytes → Bytes
write_node node rest = write_string node.id (
    write_u32 node.level (
      write_u32 (length node.vector)
        (write_floats node.vector (write_lists (take (node.level + 1) node.neighbors) rest))))

unfoldable pub write_nodes : List Node → Bytes → Bytes
write_nodes [] rest = rest
write_nodes (node ∷ nodes) rest = write_node node (write_nodes nodes rest)

unfoldable pub entry_id : Index → GoString
entry_id idx = elim idx.entry_point [
  | Entry.no_entry ↦ []
  | Entry.stored id ↦ id
  | Entry.detached node ↦ node.id
]

unfoldable pub serialize : Index → Bytes
serialize idx = write_u32 (length idx.nodes) (
    write_u32 idx.max_level (
      write_u32 idx.m (
        write_u32 idx.ef_construct
          (write_string (entry_id idx) (write_nodes (values idx.nodes) [])))))

-- `binary.Read` into a uint32 or a float32 that is 0: fewer than 4 bytes are taken, and leave it 0.
unfoldable pub read_u32 : Bytes → ℕ × Bytes
read_u32 buf = if ltb (length buf) 4 then (0, []) else (uint (take 4 buf), drop 4 buf)

-- `buf.Read` into `n` new bytes: those that are not there stay 0.
unfoldable pub read_bytes : ℕ → Bytes → Bytes × Bytes
read_bytes n buf = (take n buf ++ replicate (n - length buf) 0, drop n buf)

unfoldable pub read_string : Bytes → GoString × Bytes
read_string buf = let (n, buf') = read_u32 buf in read_bytes n buf'

unfoldable pub read_floats : ℕ → Bytes → List ℕ × Bytes
read_floats zero buf = ([], buf)
read_floats (suc n) buf =
    let (v, buf') = read_u32 buf in let (vector, rest) = read_floats n buf' in (v ∷ vector, rest)

unfoldable pub read_strings : ℕ → Bytes → List GoString × Bytes
read_strings zero buf = ([], buf)
read_strings (suc n) buf =
    let (id, buf') = read_string buf in let (ids, rest) = read_strings n buf' in (id ∷ ids, rest)

unfoldable pub read_lists : ℕ → Bytes → List (List GoString) × Bytes
read_lists zero buf = ([], buf)
read_lists (suc n) buf =
    let (size, buf') = read_u32 buf in
    let (ids, buf'') = read_strings size buf' in
    let (lists, rest) = read_lists n buf'' in (ids ∷ lists, rest)

-- One node. At the level 2^32 - 1, `level+1` is 0, and the first assignment to a list panics.
unfoldable pub read_node : Bytes → Result (Node × Bytes)
read_node buf =
    let (id, buf1) = read_string buf in
    let (level, buf2) = read_u32 buf1 in
    let (vec_len, buf3) = read_u32 buf2 in
    let (vector, buf4) = read_floats vec_len buf3 in
    if level == 2 ^ 32 - 1
    then panic
    else let (lists, rest) = read_lists (level + 1) buf4 in
      ok (record { id = id; vector = vector; level = level; neighbors = lists }, rest)

-- The loop over the nodes, which fills the map and sets the entry point.
unfoldable pub read_nodes : ℕ → GoString → Bytes → Nodes → Entry → Result (Nodes × Entry)
read_nodes zero entry_id buf nodes entry = ok (nodes, entry)
read_nodes (suc n) entry_id buf nodes entry = do
  one ← read_node buf
  read_nodes n entry_id one.1 (Dict.put one.0.id one.0 nodes)
      (if one.0.id == entry_id then Entry.stored one.0.id else entry)

-- The pointer `entryPoint` after its node has left the map.
unfoldable pub old_entry : Index → Entry
old_entry idx = elim (entry_node idx) [ none ↦ Entry.no_entry | some node ↦ Entry.detached node ]

unfoldable pub deserialize : Bytes → Index → Result Index
deserialize bytes idx =
    let (node_count, buf1) = read_u32 bytes in
    let (max_level, buf2) = read_u32 buf1 in
    let (m, buf3) = read_u32 buf2 in
    let (ef_construct, buf4) = read_u32 buf3 in
    let (entry, buf5) = read_string buf4 in
    do
      loaded ← read_nodes node_count entry buf5 [] (old_entry idx)
      ok (record {
        nodes = loaded.0;
        entry_point = loaded.1;
        max_level = max_level;
        m = m;
        ef_construct = ef_construct;
      })

-- ===== src/Wal.antt =====
-- The write-ahead log: wal.go. `file` is the content of the open file: every write is at its end
-- (O_APPEND) and every reading loop starts at its beginning, so that its position is left out. A
-- read of a regular file returns as many bytes as are there. The buffer pool only saves memory.
pub mod Entry
pub mod Cut
pub mod Frames
pub mod Fuel
pub mod Log
pub mod Append
pub mod Torn
pub mod Replay
mod Tests
use magpie_db.Common.{
  ℕ, zero, suc, ◌+◌, ◌-◌, ◌*◌, ◌/◌, ◌%◌, ◌^◌, ◌≤◌, ◌<◌, ◌≡◌, refl, sym, ap, ◌∙◌, fun_ext, ◌≢◌, ◌↔◌,
  ◌⊎◌, inl, inr, Bool, true, false, not, ◌&&◌, ◌||◌, Option, none, some, List, [], ◌∷◌, ◌++◌, map,
  arith, ltb, leb, if◌then◌else◌, ltb→lt, lt→ltb, leb→le, le→leb, nat_eq, nat_eq_iff, Bool-cases,
  Option-cases, GoString, string_eq, string_eq_iff, Eq, ◌==◌, eq_refl, eq_false, ℕ-Eq, GoString-Eq,
  length, get_elem?, take, drop, replicate, All, length-append, length-take, length-drop,
  length-replicate, take-append_length, drop-append_length, take_all, take-append-drop, length-map,
  Error, Result, ok, err, panic, ◌>>=◌, ◌>>◌, reject, in_range, >>=-eq-ok, Result-cases, codes,
}
use magpie_db.Bytes.{Bytes, put_uint, uint}
use magpie_db.Page.{serialize_vector, deserialize_vector}

-- WAL operation types.
abbrev pub wal_insert : ℕ
wal_insert = 1

abbrev pub wal_delete : ℕ
wal_delete = 2

abbrev pub wal_update : ℕ
wal_update = 3

-- `WALEntry`; the field `Type` is `kind` here. A nil vector and an empty one are the same.
pub record WalEntry (M : Type 0) : Type 0 where
  pub sequence : ℕ
  pub kind : ℕ
  pub id : GoString
  pub vector : List ℕ
  pub metadata : Option M
  pub checksum : ℕ

-- What the log uses of encoding/json and hash/crc32: `unmarshal` sets a map, which JSON's `null`
-- makes nil.
pub record WalLib (M : Type 0) : Type 0 where
  pub marshal : M → Option Bytes
  pub unmarshal : Bytes → Option (Option M)
  pub crc32 : Bytes → ℕ

pub record Wal (M : Type 0) : Type 0 where
  pub file : Option Bytes
  pub buffer : List (WalEntry M)
  pub seq : ℕ
  pub disabled : Bool

-- What the system calls answer. A `Write` that fails has written its first `written` bytes.
pub record WalCalls : Type 0 where
  pub open_file : Bool
  pub seek : Bool
  pub write : Bool
  pub written : ℕ
  pub sync : Bool
  pub truncate : Bool
  pub close_file : Bool
  pub stat : Bool

-- `data[offset : offset+n]` of what is left from the offset on, and what is left behind it.
unfoldable pub next_bytes : ℕ → Bytes → Result (Bytes × Bytes)
next_bytes n rest = if leb n (length rest) then ok (take n rest, drop n rest) else panic

abbrev pub is_empty : Bytes → Bool
is_empty [] = true
is_empty (b ∷ bs) = false

abbrev pub max_entry : ℕ
max_entry = 10 * 1024 * 1024

-- The parts of an entry one behind the other, around the JSON of its metadata.
unfoldable pub layout : {M : Type 0} → WalEntry M → Bytes → Bytes
layout entry meta =
    put_uint 8 entry.sequence
    ++ ((entry.kind ∷ [])
        ++ (put_uint 4 (length entry.id)
            ++ (entry.id
                ++ (put_uint 4 (length entry.vector)
                    ++ (serialize_vector entry.vector
                        ++ (put_uint 4 (length meta) ++ (meta ++ put_uint 4 entry.checksum)))))))

-- An entry with its length before it.
unfoldable pub frame_bytes : Bytes → Bytes
frame_bytes bytes = put_uint 4 (length bytes) ++ bytes

abbrev pub or_empty : Result Bytes → Bytes
or_empty (ok bytes) = bytes
or_empty (err e) = []
or_empty panic = []

-- An entry that is read, and what the rounds behind it give; `none` is a loop out of fuel.
unfoldable pub following :
    {M : Type 0}
    → Result (WalEntry M)
    → Option (Result (List (WalEntry M)))
    → Option (Result (List (WalEntry M)))
following (err e) rest = some (err e)
following panic rest = some panic
following (ok entry) none = none
following (ok entry) (some rest) = some (rest >>= λ entries. ok (entry ∷ entries))

module _ {M : Type 0} (lib : WalLib M) where
  -- The JSON of the metadata, and no bytes for a nil map.
  unfoldable pub metadata_bytes : Option M → Result Bytes
  metadata_bytes none = ok []
  metadata_bytes (some m) = elim (lib.marshal m) [
    | none ↦ err Error.json_error
    | some bytes ↦ ok bytes
  ]

  unfoldable pub serialize_entry : WalEntry M → Result Bytes
  serialize_entry entry = do meta ← metadata_bytes entry.metadata; ok (layout entry meta)

  -- `json.Unmarshal` into the entry, for metadata of at least one byte.
  unfoldable pub read_metadata : Bytes → Result (Option M)
  read_metadata [] = ok none
  read_metadata (b ∷ bytes) = elim (lib.unmarshal (b ∷ bytes)) [
    | none ↦ err Error.json_error
    | some metadata ↦ ok metadata
  ]

  unfoldable pub deserialize_entry : Bytes → Result (WalEntry M)
  deserialize_entry bytes = do
    reject (ltb (length bytes) 25) Error.entry_too_small
    sequence ← next_bytes 8 bytes
    kind ← next_bytes 1 sequence.1
    id_len ← next_bytes 4 kind.1
    id ← next_bytes (uint id_len.0) id_len.1
    vec_len ← next_bytes 4 id.1
    vector ← next_bytes (uint vec_len.0 * 4) vec_len.1
    meta_len ← next_bytes 4 vector.1
    meta ← next_bytes (uint meta_len.0) meta_len.1
    metadata ← read_metadata meta.0
    checksum ← next_bytes 4 meta.1
    ok (record {
      sequence = uint sequence.0;
      kind = uint kind.0;
      id = id.0;
      vector = deserialize_vector vector.0;
      metadata = metadata;
      checksum = uint checksum.0;
    })

  -- The bytes that an entry's checksum is taken of: the entry with the checksum 0.
  unfoldable pub checked_bytes : WalEntry M → Result Bytes
  checked_bytes entry = serialize_entry (record entry { checksum = 0 })

  -- The loop of `flushLocked` that fills the batch.
  unfoldable pub batch : List (WalEntry M) → Result Bytes
  batch [] = ok []
  batch (entry ∷ entries) = do
    bytes ← serialize_entry entry
    rest ← batch entries
    ok (frame_bytes bytes ++ rest)

  unfoldable pub flush : WalCalls → Wal M → Result (Unit {0}) × Wal M
  flush os w = elim w.file [
    | none ↦ (ok tt, w)
    | some file ↦ elim w.buffer [
      | [] ↦ (ok tt, w)
      | entry ∷ entries ↦ elim (batch (entry ∷ entries)) [
        | err e ↦ (err e, w)
        | panic ↦ (panic, w)
        | ok bytes ↦
            if not os.write
            then (err Error.io_error, record w { file = some (file ++ take os.written bytes) })
            else if not os.sync
            then (err Error.io_error, record w { file = some (file ++ bytes) })
            else (ok tt, record w { file = some (file ++ bytes); buffer = [] })
      ]
    ]
  ]

  -- The entry is buffered under the next sequence number, with its checksum.
  buffered : WalCalls → WalEntry M → Bytes → Wal M → Result (Unit {0}) × Wal M
  buffered os entry bytes w =
      let w' : Wal M = record w {
        buffer = w.buffer ++ (record entry { checksum = lib.crc32 bytes } ∷ []);
      } in
      if leb 100 (length w'.buffer) then flush os w' else (ok tt, w')

  append_entry : WalCalls → WalEntry M → Wal M → Result (Unit {0}) × Wal M
  unfolding buffered
  append_entry os entry w = elim (serialize_entry entry) [
    | err e ↦ (err e, w)
    | panic ↦ (panic, w)
    | ok bytes ↦ buffered os entry bytes w
  ]

  unfoldable pub append : WalCalls → WalEntry M → Wal M → Result (Unit {0}) × Wal M
  unfolding append_entry
  append os entry w = if w.disabled then (ok tt, w) else elim w.file [
    | none ↦ (err Error.wal_not_opened, w)
    | some file ↦
        let seq = (w.seq + 1) % 2 ^ 64 in
        append_entry os (record entry { sequence = seq }) (record w { seq = seq })
  ]

  -- An entry that is read: its checksum has to be that of its bytes with the checksum 0. The error
  -- of the second `serializeEntry` is ignored, and the checksum is then that of no bytes.
  unfoldable pub read_entry : Bytes → Result (WalEntry M)
  read_entry bytes = do
    entry ← deserialize_entry bytes
    reject (not (entry.checksum == lib.crc32 (or_empty (checked_bytes entry))))
        Error.checksum_mismatch
    ok entry

  -- The loop of `readAllLocked`, on fuel: every round but the last takes at least 5 bytes off the
  -- file. Out of fuel there is no result.
  unfoldable pub read_entries : ℕ → Bytes → Option (Result (List (WalEntry M)))
  unfolding following
  read_entries zero file = none
  read_entries (suc fuel) file =
      let size = uint (take 4 file) in
      let rest = drop 4 file in
      let more = following (read_entry (take size rest)) (read_entries fuel (drop size rest)) in
      if ltb (length file) 4 || size == 0 || ltb max_entry size
      then some (ok [])
      else if is_empty rest
      then some (err Error.io_error)
      else if ltb (length rest) size
      then some (ok [])
      else more

  unfoldable pub read_all : WalCalls → Wal M → Option (Result (List (WalEntry M)))
  read_all os w = elim w.file [
    | none ↦ some (err Error.wal_not_opened)
    | some file ↦
        if not os.seek then some (err Error.io_error) else read_entries (suc (length file)) file
  ]

  -- The same without ignoring that error, in `readLastSequenceLocked`.
  unfoldable pub try_entry : Bytes → Result (WalEntry M)
  try_entry bytes = do
    entry ← deserialize_entry bytes
    expected ← checked_bytes entry
    reject (not (entry.checksum == lib.crc32 expected)) Error.checksum_mismatch
    ok entry

  -- The loop of `readLastSequenceLocked`, on the same fuel: it ends at the first thing that is wrong.
  unfoldable pub last_sequence : ℕ → ℕ → Bytes → Option (Result ℕ)
  last_sequence zero last file = none
  last_sequence (suc fuel) last file =
      let size = uint (take 4 file) in
      let rest = drop 4 file in
      let more : Option (Result ℕ) = elim (try_entry (take size rest)) [
        | ok entry ↦ last_sequence fuel entry.sequence (drop size rest)
        | err e ↦ some (ok last)
        | panic ↦ some panic
      ] in
      if ltb (length file) 4 || size == 0 || ltb max_entry size
      then some (ok last)
      else if ltb (length rest) size
      then some (ok last)
      else more

  -- `Open`, of a file with the given content. The loop does not run out of this fuel, and
  -- the case for it, which is taken for a panic, does not come up (Wal/Fuel).
  unfoldable pub open_wal : WalCalls → Bytes → Wal M → Result (Unit {0}) × Wal M
  open_wal os file w =
      if not os.open_file
      then (err Error.io_error, w)
      else let opened : Wal M = record w { file = some file } in
        if not os.seek
        then (err Error.io_error, opened)
        else elim (last_sequence (suc (length file)) 0 file) [
          | none ↦ (panic, opened)
          | some (ok seq) ↦ (ok tt, record opened { seq = seq })
          | some (err e) ↦ (err e, opened)
          | some panic ↦ (panic, opened)
        ]

  unfoldable pub close_wal : WalCalls → Wal M → Result (Unit {0}) × Wal M
  close_wal os w =
      let (r, w') = flush os w in
      elim r [
        | err e ↦ (err e, w')
        | panic ↦ (panic, w')
        | ok _ ↦ elim w'.file [
          | none ↦ (ok tt, w')
          | some file ↦
              if os.close_file then (ok tt, record w' { file = none }) else (err Error.io_error, w')
        ]
      ]

module _ {M : Type 0} where
  unfoldable pub new_wal : Wal M
  new_wal = record { file = none; buffer = []; seq = 0; disabled = false }

  unfoldable pub truncate : WalCalls → Wal M → Result (Unit {0}) × Wal M
  truncate os w = elim w.file [
    | none ↦ (err Error.wal_not_opened, w)
    | some file ↦
        if not os.truncate
        then (err Error.io_error, w)
        else if not os.seek
        then (err Error.io_error, record w { file = some [] })
        else (ok tt, record w { file = some []; buffer = [] })
  ]

  unfoldable pub wal_size : WalCalls → Wal M → ℕ
  wal_size os w = elim w.file [ none ↦ 0 | some file ↦ if os.stat then length file else 0 ]

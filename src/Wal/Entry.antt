-- ===== src/Wal/Entry.antt =====
-- One entry of the log as bytes: `deserializeEntry` after `serializeEntry`.
use magpie_db.Common.{
  ℕ, ◌+◌, ◌*◌, ◌^◌, ◌≤◌, ◌<◌, ◌≡◌, refl, sym, ap, ◌∙◌, false, Option, none, some, [], ◌∷◌, ◌++◌,
  arith, ltb, eq_refl, ℕ-Eq, GoString-Eq, length, length-append, take-append_length,
  drop-append_length, ok,
}
use mathlib.Core.List.{append-nil}
use magpie_db.Bytes.{Bytes, put_uint, uint}
use magpie_db.Bytes.Endian.{length-put_uint, uint-put_uint}
use magpie_db.Page.{serialize_vector}
use magpie_db.Page.Vector.{AreFloats, length-serialize_vector, deserialize-serialize_vector}
use magpie_db.Wal.{
  WalEntry, WalLib, max_entry, metadata_bytes, layout, serialize_entry, next_bytes, read_metadata,
  deserialize_entry, checked_bytes, read_entry, try_entry,
}

pub length-layout :
    {M : Type 0} (e : WalEntry M) (meta : Bytes)
    → length (layout e meta) ≡ 25 + length e.id + 4 * length e.vector + length meta
unfolding layout
length-layout e meta = omega (arith, length-append {0}, length-put_uint, length-serialize_vector)

next_bytes-append : (n : ℕ) (xs ys : Bytes) → length xs ≡ n → next_bytes n (xs ++ ys) ≡ ok (xs, ys)
unfolding next_bytes
next_bytes-append n xs ys h =
    rw (take-append_length xs ys n h, drop-append_length xs ys n h)
      (ground (arith, length-append {0} xs ys, h))

next_bytes_all : (n : ℕ) (xs : Bytes) → length xs ≡ n → next_bytes n xs ≡ ok (xs, [])
next_bytes_all n xs h =
    let whole : xs ++ [] ≡ xs = append-nil xs in
    ap (next_bytes n) (sym whole) ∙ next_bytes-append n xs [] h

uint_one : (b : ℕ) → uint (b ∷ []) ≡ b
unfolding uint
uint_one b = omega arith

-- What JSON makes of the metadata `m` when it has been written and read: `m'`, which is written
-- with the same bytes. A nil map stays nil.
abbrev pub Survives : {M : Type 0} → WalLib M → Option M → Option M → Bytes → Type 0
Survives lib none m' bytes = (m' ≡ none) × (bytes ≡ [])
Survives lib (some m) m' bytes =
    (0 < length bytes)
    × (lib.marshal m ≡ some bytes)
    × (lib.unmarshal bytes ≡ some m')
    × (metadata_bytes lib m' ≡ ok bytes)

-- The fields have the ranges of their Go types, and the entry is no longer than the log reads.
pub record Fits {M : Type 0} (e : WalEntry M) (meta : Bytes) : Type 0 where
  pub sequence : e.sequence < 2 ^ 64
  pub kind : e.kind < 2 ^ 8
  pub vector : AreFloats e.vector
  pub checksum : e.checksum < 2 ^ 32
  pub short : 25 + length e.id + 4 * length e.vector + length meta ≤ max_entry

module _ {M : Type 0} (lib : WalLib M) where
  read_metadata-Survives :
      (m m' : Option M) (bytes : Bytes) → Survives lib m m' bytes → read_metadata lib bytes ≡ ok m'
  unfolding read_metadata
  read_metadata-Survives none m' [] s = ap ok (sym s.0)
  read_metadata-Survives none m' (b ∷ bytes) s = absurd (ground (arith, s.1))
  read_metadata-Survives (some m) m' [] s = absurd (omega (arith, s.0))
  read_metadata-Survives (some m) m' (b ∷ bytes) s = rw (s.2, read_metadata)

  pub metadata_bytes-Survives :
      (m m' : Option M) (bytes : Bytes)
      → Survives lib m m' bytes
      → (metadata_bytes lib m ≡ ok bytes) × (metadata_bytes lib m' ≡ ok bytes)
  unfolding metadata_bytes
  metadata_bytes-Survives none m' bytes s = (ap ok (sym s.1), rw (s.0, s.1))
  metadata_bytes-Survives (some m) m' bytes s = (rw (s.1, metadata_bytes), s.3)

  deserialize-layout :
      (e : WalEntry M) (m' : Option M) (meta : Bytes)
      → Fits e meta
      → Survives lib e.metadata m' meta
      → deserialize_entry lib (layout e meta) ≡ ok (record e { metadata = m' })
  unfolding deserialize_entry layout
  deserialize-layout e m' meta f s =
      let long : ltb (length (layout e meta)) 25 ≡ false = ground (arith, length-layout e meta) in
      let n1 = uint-put_uint 8 e.sequence f.sequence in
      let n2 = uint-put_uint 4 (length e.id) (omega (arith, f.short)) in
      let n3 = uint-put_uint 4 (length e.vector) (omega (arith, f.short)) in
      let n4 = uint-put_uint 4 (length meta) (omega (arith, f.short)) in
      let n5 = uint-put_uint 4 e.checksum f.checksum in
      let v : length (serialize_vector e.vector) ≡ length e.vector * 4 =
        omega (arith, length-serialize_vector e.vector) in
      rw (
        deserialize_entry,
        long,
        next_bytes-append 8 (put_uint 8 e.sequence) _ (length-put_uint 8 e.sequence),
        next_bytes-append 1 (e.kind ∷ []) _ refl,
        next_bytes-append 4 (put_uint 4 (length e.id)) _ (length-put_uint 4 (length e.id)),
        n2,
        next_bytes-append (length e.id) e.id _ refl,
        next_bytes-append 4 (put_uint 4 (length e.vector)) _ (length-put_uint 4 (length e.vector)),
        n3,
        next_bytes-append (length e.vector * 4) (serialize_vector e.vector) _ v,
        next_bytes-append 4 (put_uint 4 (length meta)) _ (length-put_uint 4 (length meta)),
        n4,
        next_bytes-append (length meta) meta _ refl,
        read_metadata-Survives e.metadata m' meta s,
        next_bytes_all 4 (put_uint 4 e.checksum) (length-put_uint 4 e.checksum),
        n1,
        n5,
        deserialize-serialize_vector e.vector f.vector,
        uint_one e.kind,
      )

  -- An entry is read back from the bytes that it is written as, for fields in the ranges of their Go
  -- types, a length that the log reads, and metadata that JSON can write, read and write again: with
  -- the metadata as JSON gives it back, and all else unchanged.
  pub deserialize-serialize_entry :
      (e : WalEntry M) (m' : Option M) (meta : Bytes)
      → Fits e meta
      → Survives lib e.metadata m' meta
      → (bytes : Bytes) × (serialize_entry lib e ≡ ok bytes)
        × (length bytes ≤ max_entry)
        × (deserialize_entry lib bytes ≡ ok (record e { metadata = m' }))
  unfolding serialize_entry
  deserialize-serialize_entry e m' meta f s = (
    layout e meta,
    rw (metadata_bytes-Survives e.metadata m' meta s).0,
    omega (arith, length-layout e meta, f.short),
    deserialize-layout e m' meta f s,
  )

  -- Bytes that both readers of the log accept as the entry `e`.
  pub record IsFrame (bytes : Bytes) (e : WalEntry M) : Type 0 where
    pub nonempty : 25 ≤ length bytes
    pub short : length bytes ≤ max_entry
    pub reads : read_entry lib bytes ≡ ok e
    pub tries : try_entry lib bytes ≡ ok e

  -- What `Append` makes of an entry: its checksum is that of its bytes with the checksum 0.
  abbrev pub stamp : Bytes → WalEntry M → WalEntry M
  stamp meta e = record e { checksum = lib.crc32 (layout e meta) }

  checked_bytes-stamp :
      (e : WalEntry M) (m' : Option M) (meta : Bytes)
      → e.checksum ≡ 0
      → metadata_bytes lib m' ≡ ok meta
      → checked_bytes lib (record (stamp meta e) { metadata = m' }) ≡ ok (layout e meta)
  unfolding checked_bytes serialize_entry layout
  checked_bytes-stamp e m' meta z h = rw (h, z)

  pub stamp-IsFrame :
      (e : WalEntry M) (m' : Option M) (meta : Bytes)
      → ((bytes : Bytes) → lib.crc32 bytes < 2 ^ 32)
      → e.checksum ≡ 0
      → Fits e meta
      → Survives lib e.metadata m' meta
      → IsFrame (layout (stamp meta e) meta) (record (stamp meta e) { metadata = m' })
  unfolding read_entry try_entry
  stamp-IsFrame e m' meta bounded z f s =
      let sum = lib.crc32 (layout e meta) in
      let back =
        deserialize-layout (stamp meta e) m' meta
          (record {
            sequence = f.sequence;
            kind = f.kind;
            vector = f.vector;
            checksum = bounded (layout e meta);
            short = f.short;
          })
          s in
      let checked =
        checked_bytes-stamp e m' meta z (metadata_bytes-Survives e.metadata m' meta s).1 in
      let size = length-layout (stamp meta e) meta in
      record {
        nonempty = omega (arith, size);
        short = omega (arith, size, f.short);
        reads = rw (back, checked) (ground (arith, eq_refl sum));
        tries = rw (back, checked) (ground (arith, eq_refl sum));
      }

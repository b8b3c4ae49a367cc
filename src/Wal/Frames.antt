-- ===== src/Wal/Frames.antt =====
-- Frames one behind the other, as the two reading loops see them: whole ones, and a last one that
-- was cut off by a crash.
use magpie_db.Common.{
  ℕ, zero, suc, ◌+◌, ◌-◌, ◌≤◌, ◌<◌, ◌≡◌, refl, inl, inr, true, false, List, [], ◌∷◌, ◌++◌, arith,
  ltb, if◌then◌else◌, ltb→lt, Bool-cases, some, ◌==◌, ℕ-Eq, GoString-Eq, length, take, All,
  length-append, length-take, take-append_length, drop-append_length, Error, Result, ok, err,
}
use mathlib.Core.List.{append_assoc}
use magpie_db.Bytes.{Bytes, put_uint}
use magpie_db.Wal.{
  WalEntry, WalLib, max_entry, is_empty, frame_bytes, following, read_entries, last_sequence,
}
use magpie_db.Wal.Entry.{IsFrame}
use magpie_db.Wal.Cut.{nonempty_test, is_empty_eq, Head-size, cut_early, cut_late, length-frame}

-- A frame, and the entry that is read from it.
abbrev pub Frame : Type 0 → Type 0
Frame M = Bytes × WalEntry M

abbrev pub encode : {M : Type 0} → List (Frame M) → Bytes
encode [] = []
encode ((bytes, e) ∷ fs) = frame_bytes bytes ++ encode fs

abbrev pub entries_of : {M : Type 0} → List (Frame M) → List (WalEntry M)
entries_of [] = []
entries_of ((bytes, e) ∷ fs) = e ∷ entries_of fs

-- The sequence number of the last frame, or a given number.
abbrev pub last_of : {M : Type 0} → ℕ → List (Frame M) → ℕ
last_of last [] = last
last_of last ((bytes, e) ∷ fs) = last_of e.sequence fs

abbrev pub AreFrames : {M : Type 0} → WalLib M → List (Frame M) → Type 0
AreFrames lib = All (λ f. IsFrame lib f.0 f.1)

module _ {M : Type 0} (lib : WalLib M) where
  -- One round of each loop, at a whole frame.
  read_frame :
      (fuel : ℕ) (bytes rest : Bytes) (e : WalEntry M)
      → IsFrame lib bytes e
      → read_entries lib (suc fuel) (frame_bytes bytes ++ rest)
        ≡ following (ok e) (read_entries lib fuel rest)
  unfolding read_entries frame_bytes
  read_frame fuel bytes rest e f =
      let h = Head-size (length bytes) (bytes ++ rest) f.nonempty f.short in
      let there : is_empty (bytes ++ rest) ≡ false =
        nonempty_test (bytes ++ rest) (omega (arith, f.nonempty, length-append {0} bytes rest)) in
      let whole : ltb (length (bytes ++ rest)) (length bytes) ≡ false =
        ground (arith, length-append {0} bytes rest) in
      rw (
        append_assoc (put_uint 4 (length bytes)) bytes rest,
        h.long,
        h.prefix,
        h.bounds,
        h.behind,
        there,
        whole,
        take-append_length bytes rest (length bytes) refl,
        drop-append_length bytes rest (length bytes) refl,
        f.reads,
      )

  last_frame :
      (fuel last : ℕ) (bytes rest : Bytes) (e : WalEntry M)
      → IsFrame lib bytes e
      → last_sequence lib (suc fuel) last (frame_bytes bytes ++ rest)
        ≡ last_sequence lib fuel e.sequence rest
  unfolding last_sequence frame_bytes
  last_frame fuel last bytes rest e f =
      let h = Head-size (length bytes) (bytes ++ rest) f.nonempty f.short in
      let whole : ltb (length (bytes ++ rest)) (length bytes) ≡ false =
        ground (arith, length-append {0} bytes rest) in
      rw (
        append_assoc (put_uint 4 (length bytes)) bytes rest,
        h.long,
        h.prefix,
        h.bounds,
        h.behind,
        whole,
        take-append_length bytes rest (length bytes) refl,
        f.tries,
        append_assoc (put_uint 4 (length bytes)) bytes rest,
        h.prefix,
        h.behind,
        drop-append_length bytes rest (length bytes) refl,
      )

  -- What reading gives when the file ends `k` bytes into a frame.
  abbrev pub torn_result : ℕ → List (WalEntry M) → Result (List (WalEntry M))
  torn_result k es = if k == 4 then err Error.io_error else ok es

  -- The loops at a frame that was cut off, or at the end of the file.
  read_torn :
      (fuel k : ℕ) (bytes : Bytes)
      → 25 ≤ length bytes
      → length bytes ≤ max_entry
      → k < 4 + length bytes
      → k < fuel
      → read_entries lib fuel (take k (frame_bytes bytes)) ≡ some (torn_result k [])
  unfolding read_entries
  read_torn zero k bytes h s c f = absurd (omega arith)
  read_torn (suc fuel) k bytes h s c f = elim (Bool-cases (ltb k 4)) [
    | inl early ↦
        let four : (k == 4) ≡ false = ground arith in
        rw (cut_early k bytes (ltb→lt k 4 early), four)
    | inr late ↦
        let part = take (k - 4) bytes in
        let size : length part ≡ k - 4 = omega (arith, length-take {0} (k - 4) bytes, ltb→lt) in
        let head = Head-size (length bytes) part h s in
        let short : ltb (length part) (length bytes) ≡ true = ground arith in
        rw
          (
            cut_late k bytes (ground arith),
            head.long,
            head.prefix,
            head.bounds,
            head.behind,
            short,
            is_empty_eq part,
            size,
          )
          (ground arith)
  ]

  last_torn :
      (fuel last k : ℕ) (bytes : Bytes)
      → 25 ≤ length bytes
      → length bytes ≤ max_entry
      → k < 4 + length bytes
      → 0 < fuel
      → last_sequence lib fuel last (take k (frame_bytes bytes)) ≡ some (ok last)
  unfolding last_sequence
  last_torn zero last k bytes h s c f = absurd (omega arith)
  last_torn (suc fuel) last k bytes h s c f = elim (Bool-cases (ltb k 4)) [
    | inl early ↦ rw (cut_early k bytes (ltb→lt k 4 early))
    | inr late ↦
        let part = take (k - 4) bytes in
        let size : length part ≡ k - 4 = omega (arith, length-take {0} (k - 4) bytes, ltb→lt) in
        let head = Head-size (length bytes) part h s in
        let short : ltb (length part) (length bytes) ≡ true = ground arith in
        rw
          (cut_late k bytes (ground arith), head.long, head.prefix, head.bounds, head.behind, short)
  ]

  torn_result-cons :
      (k : ℕ) (e : WalEntry M) (es : List (WalEntry M))
      → following (ok e) (some (torn_result k es)) ≡ some (torn_result k (e ∷ es))
  unfolding following
  torn_result-cons k e es = elim (Bool-cases (k == 4)) [ inl four ↦ rw four | inr other ↦ rw other ]

  -- Reading a file that ends `k` bytes into a frame, behind whole ones, gives the entries of the whole
  -- frames, as an incomplete entry is passed over; but it is an error when the file ends right behind
  -- the length prefix, at `k ≡ 4`. Frames are byte strings that are read as an entry and have 25 bytes
  -- to 10 MB, and the fuel is above the length of the file, so that the loop does not run out of it.
  pub read_entries-torn :
      (fs : List (Frame M)) (fuel k : ℕ) (bytes : Bytes)
      → AreFrames lib fs
      → 25 ≤ length bytes
      → length bytes ≤ max_entry
      → k < 4 + length bytes
      → length (encode fs) + k < fuel
      → read_entries lib fuel (encode fs ++ take k (frame_bytes bytes))
        ≡ some (torn_result k (entries_of fs))
  read_entries-torn [] fuel k bytes all h s c f = read_torn fuel k bytes h s c (omega (arith, f))
  read_entries-torn ((b, e) ∷ fs) zero k bytes all h s c f =
      absurd (omega (arith, length-frame b (encode fs), all.0.nonempty))
  read_entries-torn ((b, e) ∷ fs) (suc fuel) k bytes all h s c f =
      let rest = encode fs ++ take k (frame_bytes bytes) in
      let ih =
        read_entries-torn fs fuel k bytes all.1 h s c (omega (arith, length-frame b (encode fs))) in
      rw
        (
          append_assoc (frame_bytes b) (encode fs) (take k (frame_bytes bytes)),
          read_frame fuel b rest e all.0,
          ih,
        )
        (torn_result-cons k e (entries_of fs))

  pub last_sequence-torn :
      (fs : List (Frame M)) (fuel last k : ℕ) (bytes : Bytes)
      → AreFrames lib fs
      → 25 ≤ length bytes
      → length bytes ≤ max_entry
      → k < 4 + length bytes
      → length (encode fs) < fuel
      → last_sequence lib fuel last (encode fs ++ take k (frame_bytes bytes))
        ≡ some (ok (last_of last fs))
  last_sequence-torn [] fuel last k bytes all h s c f =
      last_torn fuel last k bytes h s c (omega (arith, f))
  last_sequence-torn ((b, e) ∷ fs) zero last k bytes all h s c f =
      absurd (omega (arith, length-frame b (encode fs), all.0.nonempty))
  last_sequence-torn ((b, e) ∷ fs) (suc fuel) last k bytes all h s c f =
      let rest = encode fs ++ take k (frame_bytes bytes) in
      rw
        (
          append_assoc (frame_bytes b) (encode fs) (take k (frame_bytes bytes)),
          last_frame fuel last b rest e all.0,
        )
        (last_sequence-torn fs fuel e.sequence k bytes all.1 h s c
          (omega (arith, length-frame b (encode fs))))

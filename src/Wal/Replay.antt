-- ===== src/Wal/Replay.antt =====
-- What the log gives back: the entries appended since it was last truncated, and a prefix of them
-- after a crash.
use magpie_db.Common.{
  ℕ, ◌+◌, ◌^◌, ◌≤◌, ◌<◌, ◌≡◌, refl, sym, ap, ◌∙◌, ◌⊎◌, inl, inr, Bool, false, Option, some, List,
  [], ◌∷◌, ◌++◌, arith, Bool-cases, ◌==◌, ℕ-Eq, GoString-Eq, length, take, Error, ok, err,
}
use mathlib.Core.List.{append_assoc, append-nil}
use magpie_db.Bytes.{Bytes}
use magpie_db.Wal.{
  WalEntry, WalLib, WalCalls, Wal, batch, flush, append, truncate, read_all, open_wal, new_wal,
}
use magpie_db.Wal.Frames.{Frame, encode, entries_of, AreFrames, last_of, torn_result}
use magpie_db.Wal.Torn.{
  take_nil, Torn, take-Torn, append-Torn, append-Torn_lost, All-suffix, Torn-reads,
}
use magpie_db.Wal.Append.{append-Holds}
use magpie_db.Wal.Log.{
  AllSucceed, Acceptable, frame_of, Rising, Waits-length, Holds, batch-Waits, flush-Holds,
  truncate-Holds, read_all-Holds, open-Holds,
}

module _ {M : Type 0} (lib : WalLib M) where
  -- The states that the log reaches from an empty file, with the frames that it holds. A restart
  -- closes the log, which flushes it, and opens its file again.
  pub data Run : Wal M → List (Frame M) → Type 0 where
    start : (w : Wal M) → w.file ≡ some [] → w.buffer ≡ [] → w.disabled ≡ false → Run w []
    appends :
        {w : Wal M} {fs : List (Frame M)} (os : WalCalls) (e : WalEntry M) (m' : Option M)
        (meta : Bytes)
        → Run w fs
        → AllSucceed os
        → Acceptable lib e m' meta
        → w.seq + 1 < 2 ^ 64
        → Run (append lib os e w).1 (fs ++ (frame_of lib (w.seq + 1) e m' meta ∷ []))
    flushes :
        {w : Wal M} {fs : List (Frame M)} (os : WalCalls)
        → Run w fs
        → AllSucceed os
        → Run (flush lib os w).1 fs
    truncates :
        {w : Wal M} {fs : List (Frame M)} (os : WalCalls)
        → Run w fs
        → AllSucceed os
        → Run (truncate os w).1 []
    reopens :
        {w : Wal M} {fs : List (Frame M)} (os : WalCalls) (file : Bytes)
        → Run w fs
        → AllSucceed os
        → (flush lib os w).1.file ≡ some file
        → Run (open_wal lib os file new_wal).1 fs

  Run-Holds :
      {w : Wal M} {fs : List (Frame M)}
      → ((bytes : Bytes) → lib.crc32 bytes < 2 ^ 32)
      → Run w fs
      → (durable : List (Frame M)) × (pending : List (Frame M)) × (fs ≡ durable ++ pending)
        × (length pending < 100)
        × Holds lib w durable pending
  Run-Holds bounded (start w file buffer enabled) = (
    [],
    [],
    refl,
    omega arith,
    record {
      file = file;
      waits = rw buffer tt;
      enabled = enabled;
      frames = tt;
      rising = omega arith;
    },
  )
  Run-Holds bounded (flushes {w} {fs} os run a) =
      let (durable, pending, eq, few, h) = Run-Holds bounded run in
      (
        durable ++ pending,
        [],
        eq ∙ sym (append-nil (durable ++ pending)),
        omega arith,
        (flush-Holds lib os w durable pending a h).1,
      )
  Run-Holds bounded (truncates {w} {fs} os run a) =
      let (durable, pending, eq, few, h) = Run-Holds bounded run in
      ([], [], refl, omega arith, (truncate-Holds lib os w durable pending a h).1)
  Run-Holds bounded (reopens {w} {fs} os file run a same) =
      let (durable, pending, eq, few, h) = Run-Holds bounded run in
      let all = (flush-Holds lib os w durable pending a h).1 in
      (
        durable ++ pending,
        [],
        eq ∙ sym (append-nil (durable ++ pending)),
        omega arith,
        (open-Holds lib os (flush lib os w).1 (durable ++ pending) file a all same).1,
      )
  Run-Holds bounded (appends {w} {fs} os e m' meta run a acc small) =
      let (durable, pending, eq, few, h) = Run-Holds bounded run in
      let f : Frame M = frame_of lib (w.seq + 1) e m' meta in
      let assoc = append_assoc durable pending (f ∷ []) in
      let (done, room, next) =
        append-Holds lib os w durable pending e m' meta bounded a acc small h in
      elim next [
        | inl waiting ↦ (
          durable,
          pending ++ (f ∷ []),
          ap (λ (x : List (Frame M)). x ++ (f ∷ [])) eq ∙ assoc,
          omega (
            arith,
            room,
            Waits-length lib (append lib os e w).1.buffer (pending ++ (f ∷ [])) waiting.waits,
          ),
          waiting,
        )
        | inr flushed ↦ (
          durable ++ (pending ++ (f ∷ [])),
          [],
          rw (eq, append-nil (durable ++ (pending ++ (f ∷ [])))) assoc,
          omega arith,
          flushed,
        )
      ]

  -- After any appends, flushes, truncations and restarts of a log that starts empty, with system calls
  -- that succeed, the log is the list of the entries appended since it was last truncated: once it
  -- has been flushed, which succeeds, reading it gives these entries in their order, under sequence
  -- numbers that rise. Checksums fit 32 bits and the sequence number 64; every entry has fields in
  -- the ranges of their Go types, no checksum yet, a length that the log reads, and metadata that
  -- JSON can write, read and write again.
  pub flush-read_all :
      {w : Wal M} {fs : List (Frame M)} (os : WalCalls)
      → ((bytes : Bytes) → lib.crc32 bytes < 2 ^ 32)
      → Run w fs
      → AllSucceed os
      → ((flush lib os w).0 ≡ ok tt)
        × (read_all lib os (flush lib os w).1 ≡ some (ok (entries_of fs)))
        × Rising lib 0 fs w.seq
  flush-read_all {w} {fs} os bounded run a =
      let (durable, pending, eq, few, h) = Run-Holds bounded run in
      let fl = flush-Holds lib os w durable pending a h in
      (
        fl.0,
        rw eq (read_all-Holds lib os (flush lib os w).1 (durable ++ pending) a fl.1),
        rw eq h.rising,
      )

  torn_cases :
      (k : ℕ) (es : List (WalEntry M))
      → (some (torn_result lib k es) ≡ some (ok es))
        ⊎ (some (torn_result lib k es) ≡ some (err Error.io_error))
  torn_cases k es = elim (Bool-cases (k == 4)) [
    | inl four ↦ inr (rw four)
    | inr other ↦ inl (rw other)
  ]

  flush_torn :
      (os : WalCalls) (file : Option Bytes) (buffer : List (WalEntry M)) (seq : ℕ) (disabled : Bool)
      (before bytes : Bytes)
      → os.write ≡ false
      → file ≡ some before
      → batch lib buffer ≡ ok bytes
      → (flush lib os
          (record { file = file; buffer = buffer; seq = seq; disabled = disabled })).1.file
        ≡ some (before ++ take os.written bytes)
  unfolding flush batch
  flush_torn os file [] seq disabled before bytes fails h b =
      let e : bytes ≡ [] = ground (arith, b) in rw (h, e, take_nil os.written, append-nil before)
  flush_torn os file (e ∷ es) seq disabled before bytes fails h b = rw (h, flush, b, fails)

  -- What a state with the given file is after a crash: the entries of `kept` are read, unless the file
  -- ends right behind a length prefix, and the log opens after the last of them.
  pub record Recovered (os : WalCalls) (w : Wal M) (kept : List (Frame M)) : Type 0 where
    pub file : Bytes
    pub content : w.file ≡ some file
    pub reads :
        (read_all lib os w ≡ some (ok (entries_of kept)))
        ⊎ (read_all lib os w ≡ some (err Error.io_error))
    pub opens :
        open_wal lib os file new_wal
        ≡ (ok tt, record { file = some file; buffer = []; seq = last_of 0 kept; disabled = false })

  Torn-Recovered :
      (os : WalCalls) (w : Wal M) (fs : List (Frame M)) (file : Bytes)
      → AllSucceed os
      → AreFrames lib fs
      → (t : Torn lib fs file) → w.file ≡ some file
      → Recovered os w t.kept
  unfolding read_all open_wal new_wal
  Torn-Recovered os w fs file a frames t content =
      let (read, last) = Torn-reads lib fs file frames t in
      record {
        file = file;
        content = content;
        reads = rw (content, a.seek, read) (torn_cases t.k (entries_of t.kept));
        opens = rw (a.open_file, a.seek, last);
      }

  -- When the write of a flush fails after any number of bytes, behind any appends, flushes,
  -- truncations and restarts of a log that starts empty, with system calls that succeed before and
  -- after it: the entries in the file are then a prefix of those of the log, and only entries of the
  -- buffer, fewer than 100, are missing. Opening the file succeeds, and sequence numbers count on
  -- from the last entry that is left; reading gives the entries that are left, or an I/O error.
  -- Checksums fit 32 bits.
  pub flush-Recovered :
      {w : Wal M} {fs : List (Frame M)} (os calls : WalCalls)
      → ((bytes : Bytes) → lib.crc32 bytes < 2 ^ 32)
      → Run w fs
      → os.write ≡ false
      → AllSucceed calls
      → (kept : List (Frame M)) × (lost : List (Frame M)) × (fs ≡ kept ++ lost)
        × (length lost ≤ length w.buffer)
        × (length w.buffer < 100)
        × Recovered calls (flush lib os w).1 kept
  flush-Recovered {w} {fs} os calls bounded run fails a =
      let (durable, pending, eq, few, h) = Run-Holds bounded run in
      let t = take-Torn lib pending os.written (All-suffix lib durable pending h.frames) in
      let whole = append-Torn lib durable pending (take os.written (encode pending)) t in
      let same = Waits-length lib w.buffer pending h.waits in
      (
        whole.kept,
        whole.lost,
        eq ∙ whole.split,
        omega (
          arith,
          same,
          append-Torn_lost lib durable pending (take os.written (encode pending)) t,
        ),
        omega (arith, same),
        Torn-Recovered calls (flush lib os w).1 (durable ++ pending)
            (encode durable ++ take os.written (encode pending)) a h.frames whole
            (flush_torn os w.file w.buffer w.seq w.disabled (encode durable) (encode pending) fails
              h.file (batch-Waits lib w.buffer pending h.waits)),
      )

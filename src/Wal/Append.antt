-- ===== src/Wal/Append.antt =====
-- `Append` on a log that holds given frames.
use magpie_db.Common.{
  ◌+◌, ◌%◌, ◌^◌, ◌<◌, ◌≡◌, refl, ◌∙◌, ◌⊎◌, inl, inr, false, Option, some, List, [], ◌∷◌, ◌++◌,
  arith, leb, if◌then◌else◌, Bool-cases, ℕ-Eq, GoString-Eq, length, ok,
}
use mathlib.Core.List.{append_assoc}
use magpie_db.Bytes.{Bytes}
use magpie_db.Wal.{
  WalEntry, WalLib, WalCalls, Wal, layout, metadata_bytes, serialize_entry, flush, append,
  append_entry, buffered,
}
use magpie_db.Wal.Entry.{Fits, IsFrame, stamp, stamp-IsFrame, metadata_bytes-Survives}
use magpie_db.Wal.Frames.{Frame, encode}
use magpie_db.Wal.Log.{
  AllSucceed, Acceptable, frame_of, Holds, Waits-length, Waits-append, All-append, Rising-append,
  flush-Holds,
}

module _ {M : Type 0} (lib : WalLib M) where
  -- The state with an entry more in the buffer.
  abbrev queued : Wal M → WalEntry M → Wal M
  queued w e = record w { seq = w.seq + 1; buffer = w.buffer ++ (e ∷ []) }

  append_entry_as :
      (os : WalCalls) (w : Wal M) (e : WalEntry M) (bytes : Bytes)
      → serialize_entry lib e ≡ ok bytes
      → append_entry lib os e w ≡ buffered lib os e bytes w
  unfolding append_entry
  append_entry_as os w e bytes s = rw (append_entry, s)

  append_numbered :
      (os : WalCalls) (w : Wal M) (e : WalEntry M) (before : Bytes)
      → w.disabled ≡ false
      → w.file ≡ some before
      → append lib os e w
        ≡ append_entry lib os
            (record e { sequence = (w.seq + 1) % 2 ^ 64 })
            (record w { seq = (w.seq + 1) % 2 ^ 64 })
  unfolding append
  append_numbered os w e before enabled opened = simp (enabled, opened)

  append_as :
      (os : WalCalls) (w : Wal M) (e : WalEntry M) (before meta : Bytes)
      → w.disabled ≡ false
      → w.file ≡ some before
      → w.seq + 1 < 2 ^ 64
      → metadata_bytes lib e.metadata ≡ ok meta
      → let w' : Wal M = queued w (stamp lib meta (record e { sequence = w.seq + 1 })) in
        append lib os e w ≡ (if leb 100 (length w'.buffer) then flush lib os w' else (ok tt, w'))
  unfolding buffered serialize_entry
  append_as os w e before meta enabled opened small json =
      let numbered : WalEntry M = record e { sequence = w.seq + 1 } in
      let seq : (w.seq + 1) % 2 ^ 64 ≡ w.seq + 1 = omega arith in
      append_numbered os w e before enabled opened
      ∙ rw seq (
          append_entry_as os (record w { seq = w.seq + 1 }) numbered (layout numbered meta)
            (rw json))

  queued-Holds :
      (w : Wal M) (durable pending : List (Frame M)) (e : WalEntry M) (f : Frame M)
      → IsFrame lib f.0 f.1
      → serialize_entry lib e ≡ ok f.0
      → f.1.sequence ≡ w.seq + 1
      → Holds lib w durable pending
      → Holds lib (queued w e) durable (pending ++ (f ∷ []))
  queued-Holds w durable pending e f fr s n h =
      let assoc = append_assoc durable pending (f ∷ []) in
      record {
        file = h.file;
        waits = Waits-append lib w.buffer pending e f h.waits s;
        enabled = h.enabled;
        frames = rw⁻¹ assoc (All-append lib (durable ++ pending) (f ∷ []) h.frames (fr, tt));
        rising =
            rw⁻¹ (assoc, n)
              (Rising-append lib 0 (durable ++ pending) w.seq f h.rising (omega (arith, n)));
      }

  -- An entry that is appended waits behind the pending ones, unless the buffer is flushed.
  pub append-Holds :
      (os : WalCalls) (w : Wal M) (durable pending : List (Frame M)) (e : WalEntry M)
      (m' : Option M) (meta : Bytes)
      → ((bytes : Bytes) → lib.crc32 bytes < 2 ^ 32)
      → AllSucceed os
      → Acceptable lib e m' meta
      → w.seq + 1 < 2 ^ 64
      → Holds lib w durable pending
      → let f : Frame M = frame_of lib (w.seq + 1) e m' meta in
        ((append lib os e w).0 ≡ ok tt)
        × (length (append lib os e w).1.buffer < 100)
        × (Holds lib (append lib os e w).1 durable (pending ++ (f ∷ []))
            ⊎ Holds lib (append lib os e w).1 (durable ++ (pending ++ (f ∷ []))) [])
  unfolding serialize_entry
  append-Holds os w durable pending e m' meta bounded a acc small h =
      let numbered : WalEntry M = record e { sequence = w.seq + 1 } in
      let json = (metadata_bytes-Survives lib e.metadata m' meta acc.survives).0 in
      let fits : Fits numbered meta = record {
        sequence = small;
        kind = acc.fits.kind;
        vector = acc.fits.vector;
        checksum = acc.fits.checksum;
        short = acc.fits.short;
      } in
      let frame = stamp-IsFrame lib numbered m' meta bounded acc.blank fits acc.survives in
      let w' : Wal M = queued w (stamp lib meta numbered) in
      let more : Holds lib w' durable (pending ++ (frame_of lib (w.seq + 1) e m' meta ∷ [])) =
        queued-Holds w durable pending (stamp lib meta numbered)
          (frame_of lib (w.seq + 1) e m' meta) frame (rw json) refl h in
      rw (append_as os w e (encode durable) meta h.enabled h.file small json)
        (elim (Bool-cases (leb 100 (length w'.buffer))) [
          | inl full ↦ rw full (
              let fl =
                flush-Holds lib os w' durable (pending ++ (frame_of lib (w.seq + 1) e m' meta ∷ []))
                  a more in
              (
                fl.0,
                omega (arith, Waits-length lib (flush lib os w').1.buffer [] fl.1.waits),
                inr fl.1,
              ))
          | inr room ↦ rw room (refl, ground arith, inl more)
        ])

-- ===== src/Wal/Log.antt =====
-- The log against its abstract view, the list of the entries appended since it was last truncated.
use magpie_db.Common.{
  ℕ, suc, ◌≤◌, ◌<◌, ◌≡◌, refl, sym, ap, Bool, true, false, Option, some, List, [], ◌∷◌, ◌++◌, arith,
  ℕ-Eq, GoString-Eq, length, ok,
}
use mathlib.Core.List.{append-nil}
use magpie_db.Bytes.{Bytes}
use magpie_db.Wal.{
  WalEntry, WalLib, WalCalls, Wal, layout, serialize_entry, batch, flush, truncate, read_all,
  last_sequence, open_wal, new_wal,
}
use magpie_db.Wal.Entry.{Fits, Survives, stamp}
use magpie_db.Wal.Frames.{Frame, encode, entries_of, AreFrames, last_of}
use magpie_db.Wal.Torn.{encode-append, read_entries_whole, last_sequence_whole}

-- Every system call that the log makes succeeds.
pub record AllSucceed (os : WalCalls) : Type 0 where
  pub open_file : os.open_file ≡ true
  pub seek : os.seek ≡ true
  pub write : os.write ≡ true
  pub sync : os.sync ≡ true
  pub truncate : os.truncate ≡ true

-- An entry as callers make it: no checksum, and metadata that comes back from JSON as `m'`.
pub record Acceptable {M : Type 0} (lib : WalLib M) (e : WalEntry M) (m' : Option M) (meta : Bytes)
    : Type 0 where
  pub blank : e.checksum ≡ 0
  pub fits : Fits e meta
  pub survives : Survives lib e.metadata m' meta

module _ {M : Type 0} (lib : WalLib M) where
  -- The frame that the entry becomes under a sequence number.
  abbrev pub frame_of : ℕ → WalEntry M → Option M → Bytes → Frame M
  frame_of seq e m' meta =
      let e' : WalEntry M = record e { sequence = seq } in
      (layout (stamp lib meta e') meta, record (stamp lib meta e') { metadata = m' })

  -- The sequence numbers rise, from above `lo` up to `hi` at most.
  abbrev pub Rising : ℕ → List (Frame M) → ℕ → Type 0
  Rising lo [] hi = lo ≤ hi
  Rising lo ((bytes, e) ∷ fs) hi = (lo < e.sequence) × Rising e.sequence fs hi

  -- The buffered entries are written as the pending frames.
  abbrev pub Waits : List (WalEntry M) → List (Frame M) → Type 0
  Waits [] [] = Unit
  Waits (e ∷ es) (f ∷ fs) = (serialize_entry lib e ≡ ok f.0) × Waits es fs
  Waits [] (f ∷ fs) = ⊥
  Waits (e ∷ es) [] = ⊥

  -- What stands in the file, and what is still buffered.
  pub record Holds (w : Wal M) (durable pending : List (Frame M)) : Type 0 where
    pub file : w.file ≡ some (encode durable)
    pub waits : Waits w.buffer pending
    pub enabled : w.disabled ≡ false
    pub frames : AreFrames lib (durable ++ pending)
    pub rising : Rising 0 (durable ++ pending) w.seq

  pub All-append :
      (fs gs : List (Frame M)) → AreFrames lib fs → AreFrames lib gs → AreFrames lib (fs ++ gs)
  All-append [] gs h k = k
  All-append ((b, e) ∷ fs) gs h k = (h.0, All-append fs gs h.1 k)

  pub Rising-append :
      (lo : ℕ) (fs : List (Frame M)) (hi : ℕ) (f : Frame M)
      → Rising lo fs hi
      → hi < f.1.sequence
      → Rising lo (fs ++ (f ∷ [])) f.1.sequence
  Rising-append lo [] hi f h k = (omega (arith, h), omega arith)
  Rising-append lo ((b, e) ∷ fs) hi f h k = (h.0, Rising-append e.sequence fs hi f h.1 k)

  pub Waits-append :
      (es : List (WalEntry M)) (fs : List (Frame M)) (e : WalEntry M) (f : Frame M)
      → Waits es fs
      → serialize_entry lib e ≡ ok f.0
      → Waits (es ++ (e ∷ [])) (fs ++ (f ∷ []))
  Waits-append [] [] e f h k = (k, tt)
  Waits-append [] (y ∷ fs) e f h k = elim h [ ]
  Waits-append (x ∷ es) [] e f h k = elim h [ ]
  Waits-append (x ∷ es) (y ∷ fs) e f h k = (h.0, Waits-append es fs e f h.1 k)

  pub Waits-length :
      (es : List (WalEntry M)) (fs : List (Frame M)) → Waits es fs → length es ≡ length fs
  Waits-length [] [] h = refl
  Waits-length [] (f ∷ fs) h = elim h [ ]
  Waits-length (e ∷ es) [] h = elim h [ ]
  Waits-length (e ∷ es) (f ∷ fs) h = ap suc (Waits-length es fs h.1)

  pub batch-Waits :
      (es : List (WalEntry M)) (fs : List (Frame M)) → Waits es fs → batch lib es ≡ ok (encode fs)
  unfolding batch
  batch-Waits [] [] h = refl
  batch-Waits [] (f ∷ fs) h = elim h [ ]
  batch-Waits (e ∷ es) [] h = elim h [ ]
  batch-Waits (e ∷ es) (f ∷ fs) h = rw (h.0, batch-Waits es fs h.1)

  flush_as :
      (os : WalCalls) (file : Option Bytes) (buffer : List (WalEntry M)) (seq : ℕ) (disabled : Bool)
      (before bytes : Bytes)
      → AllSucceed os
      → file ≡ some before
      → batch lib buffer ≡ ok bytes
      → flush lib os (record { file = file; buffer = buffer; seq = seq; disabled = disabled }) ≡ (
        ok tt,
        record { file = some (before ++ bytes); buffer = []; seq = seq; disabled = disabled },
      )
  unfolding flush batch
  flush_as os file [] seq disabled before bytes a h b =
      let e : bytes ≡ [] = ground (arith, b) in rw (h, e, append-nil before, h)
  flush_as os file (e ∷ es) seq disabled before bytes a h b = rw (h, b, a.write, a.sync)

  -- A flush makes everything durable.
  pub flush-Holds :
      (os : WalCalls) (w : Wal M) (durable pending : List (Frame M))
      → AllSucceed os
      → Holds w durable pending
      → ((flush lib os w).0 ≡ ok tt) × Holds (flush lib os w).1 (durable ++ pending) []
  flush-Holds os w durable pending a h =
      rw
        (flush_as os w.file w.buffer w.seq w.disabled (encode durable) (encode pending) a h.file
          (batch-Waits w.buffer pending h.waits))
        (
          refl,
          record {
            file = ap some (sym (encode-append durable pending));
            waits = tt;
            enabled = h.enabled;
            frames = rw (append-nil (durable ++ pending)) h.frames;
            rising = rw (append-nil (durable ++ pending)) h.rising;
          },
        )

  pub truncate-Holds :
      (os : WalCalls) (w : Wal M) (durable pending : List (Frame M))
      → AllSucceed os
      → Holds w durable pending
      → ((truncate os w).0 ≡ ok tt) × Holds (truncate os w).1 [] []
  unfolding truncate
  truncate-Holds os w durable pending a h =
      rw (h.file, a.truncate, a.seek)
        (
          refl,
          record {
            file = refl;
            waits = tt;
            enabled = h.enabled;
            frames = tt;
            rising = omega arith;
          },
        )

  pub read_all-Holds :
      (os : WalCalls) (w : Wal M) (durable : List (Frame M))
      → AllSucceed os
      → Holds w durable []
      → read_all lib os w ≡ some (ok (entries_of durable))
  unfolding read_all
  read_all-Holds os w durable a h =
      rw (h.file, a.seek) (read_entries_whole lib durable (rw⁻¹ (append-nil durable) h.frames))

  Rising-last_of :
      (lo : ℕ) (fs : List (Frame M)) (hi : ℕ) → Rising lo fs hi → Rising lo fs (last_of lo fs)
  Rising-last_of lo [] hi h = omega arith
  Rising-last_of lo ((bytes, e) ∷ fs) hi h = (h.0, Rising-last_of e.sequence fs hi h.1)

  -- Reading the file gives back the entries, and opening it gives the last sequence number.
  pub open-Holds :
      (os : WalCalls) (w : Wal M) (durable : List (Frame M)) (file : Bytes)
      → AllSucceed os
      → Holds w durable []
      → w.file ≡ some file
      → ((open_wal lib os file new_wal).0 ≡ ok tt)
        × Holds (open_wal lib os file new_wal).1 durable []
  unfolding open_wal new_wal
  open-Holds os w durable file a h same =
      let here : file ≡ encode durable = ground (arith, same, h.file) in
      let whole = last_sequence_whole lib durable (rw⁻¹ (append-nil durable) h.frames) in
      let last : last_sequence lib (suc (length file)) 0 file ≡ some (ok (last_of 0 durable)) =
        rw here whole in
      rw (a.open_file, a.seek, last)
        (
          refl,
          record {
            file = ap some here;
            waits = tt;
            enabled = refl;
            frames = h.frames;
            rising =
                rw (ap (last_of 0) (sym (append-nil durable)))
                  (Rising-last_of 0 (durable ++ []) w.seq h.rising);
          },
        )

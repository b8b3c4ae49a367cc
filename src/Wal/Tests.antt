-- ===== src/Wal/Tests.antt =====
-- A log of byte strings as metadata, with a sum as the checksum.
use magpie_db.Common.{
  ℕ, ◌+◌, ◌%◌, ◌^◌, ◌≤◌, ◌<◌, ◌≡◌, refl, true, false, Option, none, some, List, [], ◌∷◌, ◌++◌,
  arith, ℕ-Eq, GoString-Eq, length, take, Result, ok,
}
use magpie_db.Bytes.{Bytes}
use magpie_db.Bytes.{put_uint}
use magpie_db.Page.{serialize_vector}
use magpie_db.Wal.{
  frame_bytes, layout, WalEntry, WalLib, WalCalls, Wal, wal_insert, max_entry, metadata_bytes,
  serialize_entry, deserialize_entry, append, flush, open_wal, new_wal, read_all, read_entries,
  last_sequence,
}
use magpie_db.Wal.Entry.{IsFrame, stamp-IsFrame, Fits, Survives, deserialize-serialize_entry}
use magpie_db.Wal.Frames.{encode, torn_result, read_entries-torn, Frame}
use magpie_db.Wal.Fuel.{read_entries_ends}
use magpie_db.Wal.Log.{AllSucceed, Acceptable, Rising, frame_of}
use magpie_db.Wal.Replay.{Run, start, appends, flush-read_all, Recovered, flush-Recovered}

total : Bytes → ℕ
total [] = 0
total (b ∷ bs) = b + total bs

unmark : Bytes → Option (Option Bytes)
unmark [] = none
unmark (b ∷ bytes) = some (some bytes)

-- The metadata is written behind one more byte.
abbrev lib : WalLib Bytes
lib = record {
  marshal = λ m. some (34 ∷ m);
  unmarshal = unmark;
  crc32 = λ bytes. total bytes % 2 ^ 32;
}

abbrev calls : WalCalls
calls = record {
  open_file = true;
  seek = true;
  write = true;
  written = 0;
  sync = true;
  truncate = true;
  close_file = true;
  stat = true;
}

abbrev one_byte : WalCalls
one_byte = record calls { write = false; written = 1 }

calls_succeed : AllSucceed calls
calls_succeed = record { open_file = refl; seek = refl; write = refl; sync = refl; truncate = refl }

bounded : (bytes : Bytes) → lib.crc32 bytes < 2 ^ 32
bounded bytes = omega arith

abbrev entry : WalEntry Bytes
entry = record {
  sequence = 0;
  kind = wal_insert;
  id = 118 ∷ [];
  vector = 1 ∷ 2 ∷ [];
  metadata = some (7 ∷ []);
  checksum = 0;
}

entry-Fits : Fits entry (34 ∷ 7 ∷ [])
entry-Fits = record {
  sequence = omega arith;
  kind = omega arith;
  vector = (omega arith, (omega arith, tt));
  checksum = omega arith;
  short = omega arith;
}

entry-Survives : Survives lib entry.metadata (some (7 ∷ [])) (34 ∷ 7 ∷ [])
unfolding metadata_bytes unmark
entry-Survives = (omega arith, refl, refl, refl)

deserialize-serialize_entry_example :
    (bytes : Bytes) × (serialize_entry lib entry ≡ ok bytes)
    × (length bytes ≤ max_entry)
    × (deserialize_entry lib bytes ≡ ok entry)
deserialize-serialize_entry_example =
    deserialize-serialize_entry lib entry (some (7 ∷ [])) (34 ∷ 7 ∷ []) entry-Fits entry-Survives

entry-Acceptable : Acceptable lib entry (some (7 ∷ [])) (34 ∷ 7 ∷ [])
entry-Acceptable = record { blank = refl; fits = entry-Fits; survives = entry-Survives }

abbrev opened : Wal Bytes
opened = (open_wal lib calls [] new_wal).1

opened-Run : Run lib opened []
unfolding open_wal new_wal last_sequence
opened-Run = start opened refl refl refl

abbrev first : Frame Bytes
first = frame_of lib 1 entry (some (7 ∷ [])) (34 ∷ 7 ∷ [])

first-IsFrame : IsFrame lib first.0 first.1
first-IsFrame =
    let numbered : WalEntry Bytes = record entry { sequence = 1 } in
    stamp-IsFrame lib numbered (some (7 ∷ [])) (34 ∷ 7 ∷ []) bounded refl
      (record {
        sequence = omega arith;
        kind = omega arith;
        vector = entry-Fits.vector;
        checksum = omega arith;
        short = omega arith;
      })
      entry-Survives

one_entry : Run lib (append lib calls entry opened).1 (first ∷ [])
unfolding open_wal new_wal last_sequence
one_entry =
    appends calls entry (some (7 ∷ [])) (34 ∷ 7 ∷ []) opened-Run calls_succeed entry-Acceptable
      (omega arith)

flush-read_all_example :
    let w = (append lib calls entry opened).1 in
    ((flush lib calls w).0 ≡ ok tt)
    × (read_all lib calls (flush lib calls w).1 ≡ some (ok (first.1 ∷ [])))
    × Rising lib 0 (first ∷ []) w.seq
flush-read_all_example = flush-read_all lib calls bounded one_entry calls_succeed

flush-Recovered_example :
    let w = (append lib calls entry opened).1 in
    (kept : List (Frame Bytes)) × (lost : List (Frame Bytes)) × (first ∷ [] ≡ kept ++ lost)
    × (length lost ≤ length w.buffer)
    × (length w.buffer < 100)
    × Recovered lib calls (flush lib one_byte w).1 kept
flush-Recovered_example = flush-Recovered lib one_byte calls bounded one_entry refl calls_succeed

abbrev cut_off : Bytes
cut_off = 1 ∷ 0 ∷ 0 ∷ 0 ∷ 9 ∷ []

read_entries_ends_example :
    ((r : Result (List (WalEntry Bytes))) × ((fuel : ℕ)
        → length cut_off < fuel
        → read_entries lib fuel cut_off ≡ some r))
    × ((fuel last : ℕ)
        → length cut_off < fuel
        → (r : Result ℕ) × (last_sequence lib fuel last cut_off ≡ some r))
read_entries_ends_example = read_entries_ends lib cut_off

read_entries-torn_example :
    read_entries lib 100 (encode (first ∷ []) ++ take 20 (frame_bytes first.0))
    ≡ some (torn_result lib 20 (first.1 ∷ []))
unfolding layout serialize_vector put_uint frame_bytes
read_entries-torn_example =
    read_entries-torn lib (first ∷ []) 100 20 first.0 (first-IsFrame, tt) first-IsFrame.nonempty
      first-IsFrame.short (omega (arith, first-IsFrame.nonempty)) (omega arith)

-- ===== src/Recovery/Tests.antt =====
-- A log of an insertion and two deletions, replayed on the index of two nodes.
use magpie_db.Common.{
  ℕ, ◌-◌, ◌^◌, ◌≡◌, refl, false, none, some, List, [], ◌∷◌, GoString, ℕ-Eq, GoString-Eq, ok,
}
use magpie_db.Bytes.{Bytes}
use magpie_db.Dict
use magpie_db.Wal.{WalEntry}
use magpie_db.Storage.Tests.{storage, calls, resize, checksum32}
use magpie_db.Index.Graph.Insert.{add}
use magpie_db.Index.Graph.Remove.{exists_in}
use magpie_db.Index.Graph.Invariant.{IsValid}
use magpie_db.Index.Tests.{two_nodes, two_nodes-IsValid, line, sorted, id_a}
use magpie_db.Recovery.{
  RecoveryNest, Chance, World, apply_wal_entry, apply_insert, apply_delete, replay_entries,
}
use magpie_db.Recovery.Replay.{holds_after, replay_entries-Follows}

abbrev world : World Bytes
world = record {
  geometry = line;
  heap = sorted;
  lib = record { marshal = some; unmarshal = λ bytes. some (some bytes); crc32 = checksum32 };
  is_empty = λ m. false;
  resize = resize;
}

abbrev nest : RecoveryNest
nest = record {
  index = two_nodes;
  pages = record { storage = storage; vector_pages = [] };
  vector_count = 0;
}

abbrev chance : Chance
chance = record { level = 0; metadata_calls = calls; vector_calls = calls }

abbrev entry : ℕ → GoString → WalEntry Bytes
entry kind id = record {
  sequence = 1;
  kind = kind;
  id = id;
  vector = 5 ∷ [];
  metadata = none;
  checksum = 0;
}

-- The insertion finds its ID; the deletions take out one that is there and one that is not.
abbrev log : List (Chance × WalEntry Bytes)
log = (chance, entry 1 id_a) ∷ (chance, entry 2 id_a) ∷ (chance, entry 2 (99 ∷ [])) ∷ []

succeeds : (replay_entries world log nest).0 ≡ ok tt
unfolding replay_entries apply_wal_entry apply_insert apply_delete add Dict.get
succeeds = refl

replay_entries-Follows_example :
    IsValid (replay_entries world log nest).1.index
    × ((id : GoString)
        → exists_in (replay_entries world log nest).1.index.nodes id
          ≡ holds_after id log (exists_in two_nodes.nodes id))
replay_entries-Follows_example = replay_entries-Follows world log nest two_nodes-IsValid succeeds

-- The count of an empty database wraps around.
count_wraps : (apply_wal_entry world chance (entry 2 (99 ∷ [])) nest).1.vector_count ≡ 2 ^ 64 - 1
unfolding apply_wal_entry apply_delete
count_wraps = refl

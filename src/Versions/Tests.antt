-- ===== src/Versions/Tests.antt =====
-- Two versions of one vector, on the two pages of a storage, with a sum as the checksum.
use magpie_db.Common.{
  ℕ, ◌+◌, ◌%◌, ◌^◌, ◌<◌, ◌≡◌, refl, ◌≢◌, true, false, none, some, [], ◌∷◌, arith, GoString, ◌==◌,
  ℕ-Eq, GoString-Eq, length, replicate, length-replicate, ok, codes,
}
use magpie_db.Dict
use magpie_db.Dict.{Dict, Distinct}
use magpie_db.Bytes.{Bytes}
use magpie_db.Page.{page_size}
use magpie_db.Storage.{Storage, Calls, Mapping, allocate_page, read_page, write_page, page_count}
use magpie_db.Storage.Pages.{IsValid}
use magpie_db.Mvcc.{Version}
use magpie_db.Wal.{WalLib}
use magpie_db.Versions.{VersionStore, serialize_version, deserialize_version}
use magpie_db.Versions.Roundtrip.{Fits, deserialize-serialize_version}
use magpie_db.Versions.Store.{store_version, get_all_versions}
use magpie_db.Versions.Kept.{survivors}
use magpie_db.Storage.Tests.{resize, resize-IsResize}
use magpie_db.Versions.Stored.{get_all_versions-store_version}

byte_sum : Bytes → ℕ
byte_sum [] = 0
byte_sum (b ∷ bs) = b + byte_sum bs

abbrev lib : WalLib ℕ
lib = record {
  marshal = λ m. none;
  unmarshal = λ bytes. none;
  crc32 = λ bytes. byte_sum bytes % 2 ^ 32;
}

sums_bounded : (bytes : Bytes) → lib.crc32 bytes < 2 ^ 32
sums_bounded bytes = omega arith

abbrev key : GoString
key = codes "v"

abbrev older : Version ℕ
older = record {
  id = key;
  vector = some (7 ∷ []);
  metadata = none;
  version = 1;
  created_by_tx = 1;
  deleted_by_tx = 3;
}

abbrev newer : Version ℕ
newer = record {
  id = key;
  vector = some (9 ∷ []);
  metadata = none;
  version = 2;
  created_by_tx = 3;
  deleted_by_tx = 0;
}

older-Fits : Fits older []
older-Fits = record {
  version = omega arith;
  created = omega arith;
  deleted = omega arith;
  floats = (omega arith, tt);
  id = omega arith;
  vector = omega arith;
  metadata = omega arith;
}

newer-Fits : Fits newer []
newer-Fits = record {
  version = omega arith;
  created = omega arith;
  deleted = omega arith;
  floats = (omega arith, tt);
  id = omega arith;
  vector = omega arith;
  metadata = omega arith;
}

deserialize-serialize_version_example :
    (page : Bytes) × (serialize_version lib older ≡ ok page)
    × (length page ≡ page_size)
    × (deserialize_version lib page ≡ ok older)
deserialize-serialize_version_example =
    deserialize-serialize_version lib older none [] sums_bounded older-Fits (refl, refl)

newer_page :
    (page : Bytes) × (serialize_version lib newer ≡ ok page)
    × (length page ≡ page_size)
    × (deserialize_version lib page ≡ ok newer)
newer_page = deserialize-serialize_version lib newer none [] sums_bounded newer-Fits (refl, refl)

older_page :
    (page : Bytes) × (serialize_version lib older ≡ ok page)
    × (length page ≡ page_size)
    × (deserialize_version lib page ≡ ok older)
older_page = deserialize-serialize_version lib older none [] sums_bounded older-Fits (refl, refl)

abbrev empty : Storage
empty = record {
  file = replicate 8192 0;
  is_open = true;
  mapping = Mapping.live;
  size = 8192;
  free_list = [];
}

-- Two pages written to a storage of two pages.
both_written : Storage → Storage
both_written s = (write_page 1 newer_page.0 (write_page 0 older_page.0 s).1).1

abbrev store : VersionStore
store = record { storage = both_written empty; version_index = (key, 1 ∷ 0 ∷ []) ∷ [] }

one_survives : survivors 3 0 (newer ∷ older ∷ []) ≡ newer ∷ []
one_survives = refl

-- A storage with a free page, and the calls of it that succeed.
abbrev unused : VersionStore
unused = record { storage = record empty { free_list = 1 ∷ [] }; version_index = [] }

abbrev calls : Calls
calls = record {
  stat = true;
  truncate = true;
  mmap = true;
  munmap = true;
  msync = true;
  sync_file = true;
  close_file = true;
}

unused-IsValid : IsValid unused.storage
unused-IsValid = record {
  mapped = refl;
  opened = refl;
  long = omega (arith, length-replicate {A = ℕ} 8192 0);
  fits = omega arith;
  free = (omega arith, tt);
}

takes_free_page : allocate_page resize calls unused.storage ≡ (ok 1, empty)
unfolding allocate_page
takes_free_page = refl

get_all_versions-store_version_example :
    let (r, ms') = store_version (λ vps. vps) lib resize calls older unused in
    (r ≡ ok tt)
    × (get_all_versions lib key ms' ≡ ok (older ∷ []))
    × ((id : GoString)
        → (key == id) ≡ false
        → Dict.get id ms'.version_index ≡ Dict.get id unused.version_index)
    × ((q : ℕ)
        → q < page_count unused.storage
        → q ≢ 1
        → read_page q ms'.storage ≡ read_page q unused.storage)
    × IsValid ms'.storage
unfolding Dict.get
get_all_versions-store_version_example =
    get_all_versions-store_version lib (λ vps. vps) resize calls older none [] unused 1 empty
      sums_bounded resize-IsResize unused-IsValid (omega arith) takes_free_page older-Fits
      (refl, refl) refl

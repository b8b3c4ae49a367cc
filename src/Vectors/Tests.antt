-- ===== src/Vectors/Tests.antt =====
-- A vector and metadata in a file of two pages; JSON is its own text here.
use magpie_db.Common.{
  ℕ, ◌<◌, ◌≡◌, refl, true, false, none, some, List, [], ◌∷◌, arith, GoString, ℕ-Eq, GoString-Eq, ok,
  codes,
}
use magpie_db.Dict
use magpie_db.Dict.{Dict}
use magpie_db.Bytes.{Bytes, slice, uint}
use magpie_db.Page.{serialize_vector, uint_at}
use magpie_db.Storage.{Storage, page_count}
use magpie_db.Storage.Pages.{IsValid, content}
use magpie_db.Storage.Tests.{
  storage, storage-IsValid, second, calls, resize, resize-IsResize, checksum32, checksum32-lt,
  grown, allocates,
}
use magpie_db.Wal.{WalLib}
use magpie_db.Vectors.{
  store_metadata, load_metadata_from_page, write_vector_to_page, entry_metadata, load_vector,
  new_entry, Options, validate_options, with_size,
}
use magpie_db.Vectors.Metadata.{load-store_metadata}
use magpie_db.Vectors.Single.{Storable, load-write_vector}

abbrev lib : WalLib Bytes
lib = record { marshal = some; unmarshal = λ bytes. some (some bytes); crc32 = checksum32 }

abbrev json : Bytes
json = 123 ∷ 125 ∷ []

load-store_metadata_example :
    (s' : Storage) × (store_metadata resize checksum32 calls json storage ≡ (ok 2, s'))
    × IsValid s'
    × (load_metadata_from_page lib 2 s' ≡ ok (some json))
load-store_metadata_example =
    load-store_metadata lib checksum32-lt resize calls json (some json) 2 storage grown
      resize-IsResize storage-IsValid (omega arith) allocates (omega arith) refl

abbrev id_a : GoString
id_a = 97 ∷ []

abbrev vector : List ℕ
vector = 1065353216 ∷ 0 ∷ []

vector-Storable : Storable id_a vector
vector-Storable = record {
  some_id = omega arith;
  short_id = omega arith;
  no_zero = (λ e. absurd (omega (arith, e)), tt);
  floats = (omega arith, (omega arith, tt));
  fits = omega arith;
}

blank_page : uint_at 0 1 (content 1 storage) ≡ 0
unfolding slice uint
blank_page = refl

first : 0 < page_count storage
first = omega (arith, second)

load-write_vector_example :
    (s' : Storage) × (write_vector_to_page checksum32 1
        (new_entry lib id_a vector 0)
        (serialize_vector vector)
        storage
      ≡ (ok tt, s'))
    × IsValid s'
    × ((pages : Dict GoString ℕ)
        → Dict.get id_a pages ≡ some 1
        → load_vector lib id_a (record { storage = s'; vector_pages = pages }) ≡ ok (vector, none))
load-write_vector_example =
    load-write_vector lib checksum32-lt id_a vector 0 1 none storage storage-IsValid second
      (λ e. absurd (omega (arith, blank_page, e))) vector-Storable first
      (λ e. absurd (omega (arith, e))) (unfold entry_metadata in refl)

abbrev options : Options
options = record {
  dimensions_negative = false;
  max_size_positive = false;
  max_size = 0;
  m = 16;
  ef_construction = 200;
  distance = codes "cosine";
}

default_size :
    validate_options options
    ≡ ok (record options { max_size_positive = true; max_size = 10000000000 })
unfolding validate_options with_size
default_size = refl

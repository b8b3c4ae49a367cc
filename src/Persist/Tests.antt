-- ===== src/Persist/Tests.antt =====
-- An index of two nodes, persisted in the second page of a file of two.
use magpie_db.Common.{
  ◌+◌, ◌-◌, ◌*◌, ◌/◌, ◌^◌, ◌<◌, ◌≡◌, refl, some, arith, ℕ-Eq, GoString-Eq, length, ok,
}
use magpie_db.Bytes.{put_uint}
use magpie_db.Page.{page_size}
use magpie_db.Storage.{Storage}
use magpie_db.Storage.Growth.{Succeed}
use magpie_db.Storage.Pages.{IsValid}
use magpie_db.Storage.Tests.{
  storage, storage-IsValid, second, calls, resize, resize-IsResize, checksum32, checksum32-lt,
}
use magpie_db.Dict.{values}
use magpie_db.Index.Codec.{
  serialize, write_u32, write_string, write_floats, write_strings, write_lists, write_node,
  write_nodes, entry_id,
}
use magpie_db.Index.Tests.{two_nodes, two_nodes-IsValid, two_nodes-Fits}
use magpie_db.Persist.{data_per_page, persist_index, load_index, trim_zeros}
use magpie_db.Persist.Load.{load_index-persist_index}

calls-Succeed : Succeed calls
calls-Succeed = record { truncate = refl; munmap = refl; mmap = refl }

ends_nonzero : trim_zeros (serialize two_nodes) ≡ serialize two_nodes
unfolding trim_zeros serialize write_u32 write_string write_floats write_strings write_lists
    write_node write_nodes entry_id values put_uint
ends_nonzero = refl

fits_in :
    storage.size
      + ((length (serialize two_nodes) + data_per_page - 1) / data_per_page - 1) * page_size
    < 2 ^ 63
unfolding serialize write_u32 write_string write_floats write_strings write_lists write_node
    write_nodes entry_id values put_uint
fits_in = omega arith

load_index-persist_index_example :
    (s' : Storage) × (persist_index resize checksum32 (λ i. calls) two_nodes 1 storage
      ≡ (ok tt, s'))
    × IsValid s'
    × (load_index checksum32
          ((length (serialize two_nodes) + data_per_page - 1) / data_per_page)
          1
          s'
        ≡ some (ok two_nodes))
load_index-persist_index_example =
    load_index-persist_index resize resize-IsResize (λ i. calls) (λ i. calls-Succeed) checksum32
      checksum32-lt two_nodes 1 storage two_nodes-IsValid two_nodes-Fits ends_nonzero
      storage-IsValid refl fits_in (omega arith) second

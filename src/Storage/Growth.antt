-- ===== src/Storage/Growth.antt =====
-- `AllocatePage` with an empty free list and system calls that succeed.
use magpie_db.Common.{ℕ, ◌+◌, ◌%◌, ◌^◌, ◌<◌, ◌≡◌, true, [], arith, ℕ-Eq, GoString-Eq, ok}
use magpie_db.Bytes.{Bytes}
use magpie_db.Page.{page_size}
use magpie_db.Storage.{Storage, Calls, Mapping, allocate_page, extend, page_count}
use magpie_db.Storage.Pages.{IsValid}

-- The system calls of an allocation succeed.
pub record Succeed (os : Calls) : Type 0 where
  pub truncate : os.truncate ≡ true
  pub munmap : os.munmap ≡ true
  pub mmap : os.mmap ≡ true

module _ (resize : ℕ → Bytes → Bytes) where
  -- A storage with one more page.
  unfoldable pub grown : Storage → Storage
  grown s = record s {
    file = resize (s.size + page_size) s.file;
    mapping = Mapping.live;
    size = s.size + page_size;
  }

  pub allocate_page-grown :
      (os : Calls) (succeeds : Succeed os) (s : Storage)
      → IsValid s
      → s.free_list ≡ []
      → s.size + page_size < 2 ^ 63
      → allocate_page resize os s ≡ (ok (page_count s), grown s)
  unfolding allocate_page extend page_count grown
  allocate_page-grown os done s v none_free room =
      let no_wrap : (s.size + page_size) % 2 ^ 64 ≡ s.size + page_size = omega arith in
      ground (arith, none_free, v.opened, done.truncate, done.munmap, done.mmap, no_wrap)

-- ===== src/Versions/Kept.antt =====
-- What garbage collection keeps of the versions on disk.
use magpie_db.Common.{
  ℕ, ◌+◌, ◌/◌, ◌≡◌, refl, ◌∙◌, inl, inr, Bool, true, false, ◌||◌, Option, none, some, List, [], ◌∷◌,
  arith, leb, if◌then◌else◌, Bool-cases, ◌==◌, ℕ-Eq, GoString-Eq, length, ok, >>=-eq-ok,
}
use mathlib.Core.Path.{subst}
use magpie_db.Page.{page_size}
use magpie_db.Storage.{Storage, read_page, free_page}
use magpie_db.Mvcc.{Version}
use magpie_db.Wal.{WalLib}
use magpie_db.Versions.Store.{version_at, versions_at}
use magpie_db.Versions.Sweep.{should_keep, gc_pages}

-- The versions that are kept, `kept` others being kept before them: those that are not deleted, or
-- not made before the oldest transaction, and the first of all.
abbrev pub survivors : {M : Type 0} → ℕ → ℕ → List (Version M) → List (Version M)
survivors oldest kept [] = []
survivors oldest kept (v ∷ vs) =
    let more = survivors oldest (kept + 1) vs in
    let less = survivors oldest kept vs in
    if leb oldest v.created_by_tx || v.deleted_by_tx == 0 || kept == 0 then v ∷ more else less

test_of :
    {M : Type 0} (oldest kept : ℕ) (v : Version M) {b : Bool}
    → should_keep oldest kept v ≡ b
    → (leb oldest v.created_by_tx || v.deleted_by_tx == 0 || kept == 0) ≡ b
unfolding should_keep
test_of oldest kept v h = h

module _ {M : Type 0} (lib : WalLib M) where
  -- Freeing a page changes no page.
  version_at-free_page :
      (p q : ℕ) (s : Storage) → version_at lib p (free_page q s).1 ≡ version_at lib p s
  unfolding version_at free_page read_page
  version_at-free_page p q s = elim (Bool-cases (leb (s.size / page_size) q)) [
    | inl out ↦ rw out
    | inr inside ↦ rw inside
  ]

  versions_at-free_page :
      (ps : List ℕ) (q : ℕ) (s : Storage)
      → versions_at lib ps (free_page q s).1 ≡ versions_at lib ps s
  unfolding versions_at
  versions_at-free_page [] q s = refl
  versions_at-free_page (p ∷ ps) q s = rw (version_at-free_page p q s, versions_at-free_page ps q s)

  -- What the inner loop does to the pages `ps`, whose versions are `vs`.
  pub record Collected (oldest kept : ℕ) (ps : List ℕ) (s : Storage) (vs : List (Version M))
      : Type 0 where
    pub pages : List ℕ
    pub removed : ℕ
    pub after : Storage
    pub runs : gc_pages lib oldest ps kept s ≡ ok (pages, removed, after)
    pub same : (r : ℕ) → version_at lib r after ≡ version_at lib r s
    pub back : versions_at lib pages after ≡ ok (survivors oldest kept vs)
    pub count : removed + length (survivors oldest kept vs) ≡ length vs

  skip_page :
      (oldest kept p : ℕ) (ps : List ℕ) (s : Storage) (vs : List (Version M))
      → version_at lib p s ≡ ok none
      → Collected oldest kept ps s vs
      → Collected oldest kept (p ∷ ps) s vs
  unfolding gc_pages
  skip_page oldest kept p ps s vs reads c = record {
    pages = c.pages;
    removed = c.removed;
    after = c.after;
    runs = rw reads c.runs;
    same = c.same;
    back = c.back;
    count = c.count;
  }

  keep_page :
      (oldest kept p : ℕ) (ps : List ℕ) (s : Storage) (v : Version M) (vs : List (Version M))
      → version_at lib p s ≡ ok (some v)
      → should_keep oldest kept v ≡ true
      → Collected oldest (kept + 1) ps s vs
      → Collected oldest kept (p ∷ ps) s (v ∷ vs)
  unfolding gc_pages versions_at
  keep_page oldest kept p ps s v vs reads stays c = record {
    pages = p ∷ c.pages;
    removed = c.removed;
    after = c.after;
    runs = rw reads (rw (stays, c.runs));
    same = c.same;
    back = rw (test_of oldest kept v stays, c.same p, reads, c.back);
    count = rw (test_of oldest kept v stays) (omega (arith, c.count));
  }

  drop_page :
      (oldest kept p : ℕ) (ps : List ℕ) (s : Storage) (v : Version M) (vs : List (Version M))
      → version_at lib p s ≡ ok (some v)
      → should_keep oldest kept v ≡ false
      → Collected oldest kept ps (free_page p s).1 vs
      → Collected oldest kept (p ∷ ps) s (v ∷ vs)
  unfolding gc_pages
  drop_page oldest kept p ps s v vs reads goes c = record {
    pages = c.pages;
    removed = c.removed + 1;
    after = c.after;
    runs = rw reads (rw (goes, c.runs));
    same = λ r. c.same r ∙ version_at-free_page r p s;
    back = rw (test_of oldest kept v goes) c.back;
    count = rw (test_of oldest kept v goes) (omega (arith, c.count));
  }

  pub gc_pages-Collected :
      (oldest kept : ℕ) (ps : List ℕ) (s : Storage) (vs : List (Version M))
      → versions_at lib ps s ≡ ok vs
      → Collected oldest kept ps s vs
  unfolding versions_at
  gc_pages-Collected oldest kept [] s vs h =
      let none_there : [] ≡ vs = ground (arith, h) in
      subst (Collected oldest kept [] s) none_there (record {
        pages = [];
        removed = 0;
        after = s;
        runs = unfold gc_pages in refl;
        same = λ r. refl;
        back = refl;
        count = refl;
      })
  gc_pages-Collected oldest kept (p ∷ ps) s vs h =
      let (x, reads, rest) = >>=-eq-ok (version_at lib p s) _ h in
      let (more, reads_more, all) = >>=-eq-ok (versions_at lib ps s) _ rest in
      go (λ k s' vs' h'. gc_pages-Collected oldest k ps s' vs' h') x more reads reads_more all
    where
      go :
          ((k : ℕ) (s' : Storage) (vs' : List (Version M))
            → versions_at lib ps s' ≡ ok vs'
            → Collected oldest k ps s' vs')
          → (x : Option (Version M)) (more : List (Version M)) → version_at lib p s ≡ ok x
          → versions_at lib ps s ≡ ok more
          → ok (elim x [ none ↦ more | some v ↦ v ∷ more ]) ≡ ok vs
          → Collected oldest kept (p ∷ ps) s vs
      go again none more reads reads_more all =
          let same : more ≡ vs = ground (arith, all) in
          subst (Collected oldest kept (p ∷ ps) s) same
            (skip_page oldest kept p ps s more reads (again kept s more reads_more))
      go again (some v) more reads reads_more all =
          let same : v ∷ more ≡ vs = ground (arith, all) in
          subst (Collected oldest kept (p ∷ ps) s) same
            (elim (Bool-cases (should_keep oldest kept v)) [
              | inl stays ↦
                  keep_page oldest kept p ps s v more reads stays
                    (again (kept + 1) s more reads_more)
              | inr goes ↦
                  drop_page oldest kept p ps s v more reads goes
                    (again kept (free_page p s).1 more (versions_at-free_page ps p s ∙ reads_more))
            ])

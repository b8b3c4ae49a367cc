-- ===== src/Bytes/Fields.antt =====
-- A buffer that is filled field by field at fixed offsets, and what each field reads back as.
use mathlib.Core.Option.{some-injective}
use magpie_db.Common.{
  ℕ, zero, suc, ◌+◌, ◌≤◌, ◌≡◌, refl, ap, ◌∙◌, ◌⊎◌, inl, inr, some, List, [], ◌∷◌, arith, ℕ-Eq,
  GoString-Eq, length, get_elem?, drop,
}
use magpie_db.Bytes.{Bytes, copy_at, slice}
use magpie_db.Bytes.Copy.{length-copy_at, slice-copy_at, slice-copy_at_before, slice-copy_at_after}

abbrev pub Fields : Type 0
Fields = List (ℕ × Bytes)

abbrev pub write_all : Fields → Bytes → Bytes
write_all [] buf = buf
write_all ((off, src) ∷ fs) buf = write_all fs (copy_at off src buf)

-- None of the fields overlaps the slice.
abbrev pub Untouched : ℕ → ℕ → Fields → Type 0
Untouched lo n [] = Unit
Untouched lo n ((off, src) ∷ fs) = ((lo + n ≤ off) ⊎ (off + length src ≤ lo)) × Untouched lo n fs

pub length-write_all : (fs : Fields) (buf : Bytes) → length (write_all fs buf) ≡ length buf
length-write_all [] buf = refl
length-write_all ((off, src) ∷ fs) buf =
    length-write_all fs (copy_at off src buf) ∙ length-copy_at off src buf

pub slice-write_all :
    (fs : Fields) (lo n : ℕ) (buf : Bytes)
    → Untouched lo n fs
    → slice lo n (write_all fs buf) ≡ slice lo n buf
slice-write_all [] lo n buf u = refl
slice-write_all ((off, src) ∷ fs) lo n buf u =
    slice-write_all fs lo n (copy_at off src buf) u.1 ∙ elim u.0 [
      | inl p ↦ slice-copy_at_before lo n off src buf p
      | inr p ↦ slice-copy_at_after lo n off src buf p
    ]

pub slice-field :
    (fs : Fields) (k off n : ℕ) (src buf : Bytes)
    → get_elem? fs k ≡ some (off, src)
    → length src ≡ n
    → off + n ≤ length buf
    → Untouched off n (drop (suc k) fs)
    → slice off n (write_all fs buf) ≡ src
slice-field [] k off n src buf e l r u = absurd (ground arith)
slice-field ((o, s) ∷ fs) zero off n src buf e l r u =
    let same = some-injective (o, s) (off, src) e in
    slice-write_all fs off n (copy_at o s buf) u
    ∙ ap (slice off n) (ap (λ (p : ℕ × Bytes). copy_at p.0 p.1 buf) same)
    ∙ slice-copy_at off n src buf l r
slice-field ((o, s) ∷ fs) (suc k) off n src buf e l r u =
    slice-field fs k off n src (copy_at o s buf) e l (rw length-copy_at r) u

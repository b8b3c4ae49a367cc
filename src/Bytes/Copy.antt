-- ===== src/Bytes/Copy.antt =====
-- What a slice of a buffer holds after a `copy` into it.
use native.Mathlib.Nat.{zero-add, suc-add}
use magpie_db.Common.{
  ◌++◌, ℕ, zero, suc, ◌+◌, ◌≤◌, ◌≡◌, refl, ap, [], ◌∷◌, arith, length, drop, length-take,
  length-drop,
}
use magpie_db.Bytes.{Bytes, AreBytes, copy_at, slice}

pub length-copy_at : (off : ℕ) (src buf : Bytes) → length (copy_at off src buf) ≡ length buf
unfolding copy_at
length-copy_at off src [] = refl
length-copy_at (suc off) src (b ∷ buf) = ap suc (length-copy_at off src buf)
length-copy_at zero [] (b ∷ buf) = refl
length-copy_at zero (s ∷ src) (b ∷ buf) = ap suc (length-copy_at zero src buf)

-- The slice that was written.
pub slice-copy_at :
    (off n : ℕ) (src buf : Bytes)
    → length src ≡ n
    → off + n ≤ length buf
    → slice off n (copy_at off src buf) ≡ src
unfolding copy_at slice
slice-copy_at zero n [] [] e h = ground arith
slice-copy_at zero n (s ∷ src) [] e h = absurd (omega arith)
slice-copy_at zero zero [] (b ∷ buf) e h = refl
slice-copy_at zero (suc n) [] (b ∷ buf) e h = absurd (omega arith)
slice-copy_at zero zero (s ∷ src) (b ∷ buf) e h = absurd (omega arith)
slice-copy_at zero (suc n) (s ∷ src) (b ∷ buf) e h =
    ap (◌∷◌ s) (slice-copy_at zero n src buf (omega arith) (omega arith))
slice-copy_at (suc off) n src [] e h = absurd (omega arith)
slice-copy_at (suc off) n src (b ∷ buf) e h = slice-copy_at off n src buf e (omega arith)

-- A slice that ends before what was written.
pub slice-copy_at_before :
    (lo n off : ℕ) (src buf : Bytes)
    → lo + n ≤ off
    → slice lo n (copy_at off src buf) ≡ slice lo n buf
unfolding copy_at slice
slice-copy_at_before lo n off src [] h = refl
slice-copy_at_before zero zero off src (b ∷ buf) h = refl
slice-copy_at_before zero (suc n) zero src (b ∷ buf) h = absurd (omega arith)
slice-copy_at_before zero (suc n) (suc off) src (b ∷ buf) h =
    ap (◌∷◌ b) (slice-copy_at_before zero n off src buf (omega arith))
slice-copy_at_before (suc lo) n zero src (b ∷ buf) h = absurd (omega arith)
slice-copy_at_before (suc lo) n (suc off) src (b ∷ buf) h =
    slice-copy_at_before lo n off src buf (omega arith)

-- A slice that starts behind what was written.
pub slice-copy_at_after :
    (lo n off : ℕ) (src buf : Bytes)
    → off + length src ≤ lo
    → slice lo n (copy_at off src buf) ≡ slice lo n buf
unfolding copy_at slice
slice-copy_at_after lo n off src [] h = refl
slice-copy_at_after zero n zero [] (b ∷ buf) h = refl
slice-copy_at_after zero n zero (s ∷ src) (b ∷ buf) h = absurd (omega arith)
slice-copy_at_after zero n (suc off) src (b ∷ buf) h = absurd (omega arith)
slice-copy_at_after (suc lo) n zero [] (b ∷ buf) h = refl
slice-copy_at_after (suc lo) n zero (s ∷ src) (b ∷ buf) h =
    slice-copy_at_after lo n zero src buf (omega arith)
slice-copy_at_after (suc lo) n (suc off) src (b ∷ buf) h =
    slice-copy_at_after lo n off src buf (omega arith)

pub length-slice : (off n : ℕ) (buf : Bytes) → off + n ≤ length buf → length (slice off n buf) ≡ n
unfolding slice
length-slice off n buf h = omega (arith, length-take {0} n (drop off buf), length-drop {0} off buf)

pub copy_at-AreBytes :
    (off : ℕ) (src buf : Bytes) → AreBytes src → AreBytes buf → AreBytes (copy_at off src buf)
unfolding copy_at
copy_at-AreBytes off src [] hs hb = tt
copy_at-AreBytes (suc off) src (b ∷ buf) hs hb = (hb.0, copy_at-AreBytes off src buf hs hb.1)
copy_at-AreBytes zero [] (b ∷ buf) hs hb = hb
copy_at-AreBytes zero (s ∷ src) (b ∷ buf) hs hb = (hs.0, copy_at-AreBytes zero src buf hs.1 hb.1)

-- A slice of what was written at the start.
pub slice-copy_at_inside :
    (lo n : ℕ) (src buf : Bytes)
    → lo + n ≤ length src
    → length src ≤ length buf
    → slice lo n (copy_at 0 src buf) ≡ slice lo n src
unfolding copy_at slice
slice-copy_at_inside lo n [] [] h k = refl
slice-copy_at_inside lo n (s ∷ src) [] h k = absurd (omega arith)
slice-copy_at_inside zero zero src (b ∷ buf) h k = refl
slice-copy_at_inside zero (suc n) [] (b ∷ buf) h k = absurd (omega arith)
slice-copy_at_inside zero (suc n) (s ∷ src) (b ∷ buf) h k =
    ap (◌∷◌ s) (slice-copy_at_inside zero n src buf (omega arith) (omega arith))
slice-copy_at_inside (suc lo) n [] (b ∷ buf) h k = absurd (omega arith)
slice-copy_at_inside (suc lo) n (s ∷ src) (b ∷ buf) h k =
    slice-copy_at_inside lo n src buf (omega arith) (omega arith)

slice-nil : (lo n : ℕ) → slice lo n [] ≡ []
unfolding slice
slice-nil zero zero = refl
slice-nil zero (suc n) = refl
slice-nil (suc lo) zero = refl
slice-nil (suc lo) (suc n) = refl

pub slice-append_slice :
    (lo a b : ℕ) (buf : Bytes) → slice lo (a + b) buf ≡ slice lo a buf ++ slice (lo + a) b buf
unfolding slice
slice-append_slice zero zero b buf = simp (zero-add)
slice-append_slice zero (suc a) b [] = rw (slice-nil 0 (suc a + b), slice-nil (0 + suc a) b)
slice-append_slice zero (suc a) b (x ∷ buf) =
    simp (suc-add, zero-add) (ap (◌∷◌ x) (simp zero-add at (slice-append_slice zero a b buf)))
slice-append_slice (suc lo) a b [] =
    rw (slice-nil (suc lo) (a + b), slice-nil (suc lo) a, slice-nil (suc lo + a) b)
slice-append_slice (suc lo) a b (x ∷ buf) = simp (suc-add) (slice-append_slice lo a b buf)

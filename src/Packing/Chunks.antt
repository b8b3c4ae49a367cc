-- ===== src/Packing/Chunks.antt =====
-- Parts that are written one behind the other, as one copy, and as they are read back.
use magpie_db.Common.{
  ℕ, zero, suc, ◌+◌, ◌≤◌, ◌≡◌, refl, sym, ap, ◌∙◌, true, List, [], ◌∷◌, ◌++◌, arith, leb, ℕ-Eq,
  GoString-Eq, length, take, drop, length-append, take-append_length, drop-append_length, ok,
}
use mathlib.Core.Path.{ap₂}
use native.Mathlib.Nat.{zero-add, suc-add}
use magpie_db.Bytes.{Bytes, copy_at, slice}
use magpie_db.Bytes.Copy.{length-copy_at, length-slice, slice-append_slice}
use magpie_db.Packing.{write_parts}

pub copy_at-nil : (off : ℕ) (page : Bytes) → copy_at off [] page ≡ page
unfolding copy_at
copy_at-nil off [] = refl
copy_at-nil zero (b ∷ page) = refl
copy_at-nil (suc off) (b ∷ page) = ap (◌∷◌ b) (copy_at-nil off page)

pub copy_at-append :
    (off : ℕ) (a b page : Bytes)
    → copy_at off (a ++ b) page ≡ copy_at (off + length a) b (copy_at off a page)
unfolding copy_at
copy_at-append off a b [] = refl
copy_at-append (suc off) a b (x ∷ page) = simp suc-add (ap (◌∷◌ x) (copy_at-append off a b page))
copy_at-append zero [] b (x ∷ page) = refl
copy_at-append zero (s ∷ a) b (x ∷ page) =
    simp zero-add (ap (◌∷◌ s) (simp zero-add at (copy_at-append zero a b page)))

abbrev pub flat : List Bytes → Bytes
flat [] = []
flat (part ∷ parts) = part ++ flat parts

-- Parts that fit into the page are written as one.
pub write_parts-flat :
    (off : ℕ) (parts : List Bytes) (page : Bytes)
    → off + length (flat parts) ≤ length page
    → write_parts off parts page ≡ ok (copy_at off (flat parts) page)
unfolding write_parts
write_parts-flat off [] page h = ap ok (sym (copy_at-nil off page))
write_parts-flat off (part ∷ parts) page h =
    let size = length-append {0} part (flat parts) in
    let here : leb off (length page) ≡ true = ground (arith, size, h) in
    let next =
      write_parts-flat (off + length part) parts (copy_at off part page)
        (omega (arith, h, size, length-copy_at off part page)) in
    rw (here, next, copy_at-append off part (flat parts) page)

-- What stands in a page as one is there part by part.
pub slice_parts :
    (off : ℕ) (a b page : Bytes)
    → off + length (a ++ b) ≤ length page
    → slice off (length (a ++ b)) page ≡ a ++ b
    → (slice off (length a) page ≡ a) × (slice (off + length a) (length b) page ≡ b)
slice_parts off a b page h same =
    let size = length-append {0} a b in
    let p = slice off (length a) page in
    let q = slice (off + length a) (length b) page in
    let first : length p ≡ length a = length-slice off (length a) page (omega (arith, h, size)) in
    let both : p ++ q ≡ a ++ b =
      sym (slice-append_slice off (length a) (length b) page)
      ∙ ap (λ (n : ℕ). slice off n page) (sym size)
      ∙ same in
    (
      sym (take-append_length p q (length a) first)
          ∙ ap (take (length a)) both
          ∙ take-append_length a b (length a) refl,
      sym (drop-append_length p q (length a) first)
          ∙ ap (drop (length a)) both
          ∙ drop-append_length a b (length a) refl,
    )

-- A part that stands at the start of the page may be written again.
pub copy_at_same :
    (src page : Bytes)
    → length src ≤ length page
    → slice 0 (length src) page ≡ src
    → copy_at 0 src page ≡ page
unfolding copy_at slice
copy_at_same [] page h same = copy_at-nil 0 page
copy_at_same (s ∷ src) [] h same = refl
copy_at_same (s ∷ src) (b ∷ page) h same =
    let first : s ≡ b = ground (arith, same) in
    ap₂ ◌∷◌ first (copy_at_same src page (omega (arith, h)) (ap (drop 1) same))

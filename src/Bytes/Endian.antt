-- ===== src/Bytes/Endian.antt =====
-- Little-endian integers: what is put is read back, and every n bytes are the encoding of one number.
use native.Mathlib.Nat.{pow-suc}
use magpie_db.Common.{
  ℕ, zero, suc, ◌+◌, ◌*◌, ◌/◌, ◌%◌, ◌^◌, ◌<◌, ◌≡◌, refl, ap, [], ◌∷◌, arith, length,
}
use magpie_db.Bytes.{Bytes, AreBytes, put_uint, uint}

pub length-put_uint : (n v : ℕ) → length (put_uint n v) ≡ n
unfolding put_uint
length-put_uint zero v = refl
length-put_uint (suc n) v = ap suc (length-put_uint n (v / 256))

pub put_uint-AreBytes : (n v : ℕ) → AreBytes (put_uint n v)
unfolding put_uint
put_uint-AreBytes zero v = tt
put_uint-AreBytes (suc n) v = (omega arith, put_uint-AreBytes n (v / 256))

pub uint-put_uint : (n v : ℕ) → v < 256 ^ n → uint (put_uint n v) ≡ v
unfolding put_uint uint
uint-put_uint zero v h = omega arith
uint-put_uint (suc n) v h =
    let h' : v < 256 ^ n * 256 =
      (let e : 256 ^ suc n ≡ 256 ^ n * 256 = pow-suc 256 n in omega (arith, e)) in
    omega (arith, uint-put_uint n (v / 256) (omega arith))

pub uint-lt : (bs : Bytes) → AreBytes bs → uint bs < 256 ^ length bs
unfolding uint
uint-lt [] h = omega arith
uint-lt (b ∷ bs) h =
    let e : 256 ^ suc (length bs) ≡ 256 ^ length bs * 256 = pow-suc 256 (length bs) in
    omega (arith, e, uint-lt bs h.1, h.0)

pub put_uint-uint : (bs : Bytes) → AreBytes bs → put_uint (length bs) (uint bs) ≡ bs
unfolding put_uint uint
put_uint-uint [] h = refl
put_uint-uint (b ∷ bs) h =
    let low : (b + 256 * uint bs) % 256 ≡ b = omega (arith, h.0) in
    let high : (b + 256 * uint bs) / 256 ≡ uint bs = omega (arith, h.0) in
    cc (low, high, put_uint-uint bs h.1)

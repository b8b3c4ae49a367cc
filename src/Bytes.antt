-- ===== src/Bytes.antt =====
-- Byte buffers: `make([]byte, n)`, slices, `copy`, and encoding/binary's little-endian integers.
-- A byte is a number below 256.
pub mod Endian
pub mod Copy
pub mod Fields
use magpie_db.Common.{ℕ, zero, suc, ◌+◌, ◌*◌, ◌/◌, ◌%◌, ◌-◌, ◌<◌, List, [], ◌∷◌, take, drop, All}

abbrev pub Bytes : Type 0
Bytes = List ℕ

abbrev pub IsByte : ℕ → Type 0
IsByte b = b < 256

abbrev pub AreBytes : Bytes → Type 0
AreBytes = All IsByte

-- `copy(buf[off:], src)`: what does not fit is not written.
unfoldable pub copy_at : ℕ → Bytes → Bytes → Bytes
copy_at off src [] = []
copy_at (suc off) src (b ∷ buf) = b ∷ copy_at off src buf
copy_at zero [] (b ∷ buf) = b ∷ buf
copy_at zero (s ∷ src) (b ∷ buf) = s ∷ copy_at zero src buf

-- `buf[off : off+n]` inside the buffer.
unfoldable pub slice : ℕ → ℕ → Bytes → Bytes
slice off n buf = take n (drop off buf)

-- The n low bytes of a number, lowest first: `PutUint16`, `PutUint32` and `PutUint64`.
unfoldable pub put_uint : ℕ → ℕ → Bytes
put_uint zero v = []
put_uint (suc n) v = v % 256 ∷ put_uint n (v / 256)

-- `Uint16`, `Uint32` and `Uint64`.
unfoldable pub uint : Bytes → ℕ
uint [] = 0
uint (b ∷ bs) = b + 256 * uint bs

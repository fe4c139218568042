-- ===== src/Protocol/Bigendian.antt =====
-- encoding/binary's big-endian integers.
use native.Mathlib.Nat.{pow-suc}
use claude_share.Base.{
  ℕ, zero, suc, ◌+◌, ◌*◌, ◌/◌, ◌%◌, ◌^◌, ◌<◌, ◌≡◌, refl, ◌∙◌, Bytes, [], ◌∷◌, ◌++◌, length,
  length-append, arith,
}

-- PutUint64 for n = 8 and PutUint32 for n = 4: the lowest n bytes, the highest first.
unfoldable pub put_uint : ℕ → ℕ → Bytes
put_uint zero v = []
put_uint (suc n) v = put_uint n (v / 256) ++ v % 256 ∷ []

uint_loop : ℕ → Bytes → ℕ
uint_loop acc [] = acc
uint_loop acc (c ∷ b) = uint_loop (acc * 256 + c) b

-- Uint64 and Uint32 of a slice of their length.
unfoldable pub uint : Bytes → ℕ
unfolding uint_loop
uint b = uint_loop 0 b

uint_loop-append :
    (acc : ℕ) (b : Bytes) (c : ℕ) → uint_loop acc (b ++ c ∷ []) ≡ uint_loop acc b * 256 + c
unfolding uint_loop
uint_loop-append acc [] c = refl
uint_loop-append acc (d ∷ b) c = uint_loop-append (acc * 256 + d) b c

pub length-put_uint : (n v : ℕ) → length (put_uint n v) ≡ n
unfolding put_uint
length-put_uint zero v = refl
length-put_uint (suc n) v = rw length-append (omega (arith, length-put_uint n (v / 256)))

-- A number that fits is read back.
pub uint-put_uint : (n v : ℕ) → v < 256 ^ n → uint (put_uint n v) ≡ v
unfolding uint put_uint
uint-put_uint zero v h = omega arith
uint-put_uint (suc n) v h =
    uint_loop-append 0 (put_uint n (v / 256)) (v % 256)
    ∙ omega (arith, uint-put_uint n (v / 256) (omega (arith, pow-suc 256 n)))

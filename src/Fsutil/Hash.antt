-- ===== src/Fsutil/Hash.antt =====
-- `HashContent` of internal/fsutil/fsutil.go. SHA-256 is a parameter, `sum`.
use claude_share.Base.{
  ℕ, ◌+◌, ◌-◌, ◌*◌, ◌/◌, ◌%◌, ◌<◌, ◌≡◌, refl, Bool, true, ◌&&◌, ◌||◌, Bytes, [], ◌∷◌, ltb, leb,
  if◌then◌else◌, length, All, IsByte, arith,
}

abbrev hex_digit : ℕ → ℕ
hex_digit n = if ltb n 10 then b'0' + n else b'a' + (n - 10)

-- encoding/hex.EncodeToString
unfoldable pub encode_to_string : Bytes → Bytes
encode_to_string [] = []
encode_to_string (c ∷ b) = hex_digit (c / 16) ∷ hex_digit (c % 16) ∷ encode_to_string b

unfoldable pub hash_content : (Bytes → Bytes) → Bytes → Bytes
unfolding encode_to_string
hash_content sum b = encode_to_string (sum b)

abbrev pub is_hex : ℕ → Bool
is_hex c = (leb b'0' c && leb c b'9') || (leb b'a' c && leb c b'f')

abbrev pub all_hex : Bytes → Bool
all_hex [] = true
all_hex (c ∷ b) = is_hex c && all_hex b

pub length-encode_to_string : (b : Bytes) → length (encode_to_string b) ≡ 2 * length b
unfolding encode_to_string
length-encode_to_string [] = omega arith
length-encode_to_string (c ∷ b) = omega (arith, length-encode_to_string b)

hex_digit_lem : (n : ℕ) → n < 16 → is_hex (hex_digit n) ≡ true
hex_digit_lem n h = ground arith

pub all_hex-encode_to_string : (b : Bytes) → All IsByte b → all_hex (encode_to_string b) ≡ true
unfolding encode_to_string
all_hex-encode_to_string [] h = refl
all_hex-encode_to_string (c ∷ b) (hc, h) = rw (
  hex_digit_lem (c / 16) (omega arith),
  hex_digit_lem (c % 16) (omega arith),
  all_hex-encode_to_string b h,
)

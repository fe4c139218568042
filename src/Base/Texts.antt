-- ===== src/Base/Texts.antt =====
-- Go strings and byte slices as lists of byte values, with `==` and `<` of Go strings.
use Prim.Native.Nat.{ℕ, ◌<◌}
use Prim.Native.Char.{code}
use Prim.Native.String.{String}
use mathlib.Core.Path.{◌≡◌, refl}
use mathlib.Core.Logic.{◌↔◌}
use mathlib.Core.Bool.{Bool, true, false, ◌&&◌}
use mathlib.Core.List.{List, [], ◌∷◌}
use native.Mathlib.Omega.{arith}
use claude_share.Base.Tests.{ltb, ◌==◌, if◌then◌else◌}

abbrev pub Bytes : Type 0
Bytes = List ℕ

-- The bytes of an ASCII text.
abbrev pub codes : String → Bytes
codes String.[] = []
codes (String.◌∷◌ c s) = code c ∷ codes s

-- `==` of Go strings.
unfoldable pub bytes_eq : Bytes → Bytes → Bool
bytes_eq [] [] = true
bytes_eq [] (y ∷ ys) = false
bytes_eq (x ∷ xs) [] = false
bytes_eq (x ∷ xs) (y ∷ ys) = x == y && bytes_eq xs ys

pub bytes_eq_iff : (a b : Bytes) → (bytes_eq a b ≡ true) ↔ (a ≡ b)
unfolding bytes_eq
bytes_eq_iff [] [] = (λ _. refl, λ _. refl)
bytes_eq_iff [] (y ∷ ys) = (λ h. cc, λ h. cc)
bytes_eq_iff (x ∷ xs) [] = (λ h. cc, λ h. cc)
bytes_eq_iff (x ∷ xs) (y ∷ ys) = ground (arith, bytes_eq_iff xs ys)

pub bytes_eq_refl : (a : Bytes) → bytes_eq a a ≡ true
bytes_eq_refl a = (bytes_eq_iff a a).1 refl

-- `<` of Go strings: byte by byte, a proper prefix first.
unfoldable pub bytes_lt : Bytes → Bytes → Bool
bytes_lt [] [] = false
bytes_lt [] (y ∷ ys) = true
bytes_lt (x ∷ xs) [] = false
bytes_lt (x ∷ xs) (y ∷ ys) = if ltb x y then true else if x == y then bytes_lt xs ys else false

pub bytes_lt_irrefl : (a : Bytes) → bytes_lt a a ≡ false
unfolding bytes_lt
bytes_lt_irrefl [] = refl
bytes_lt_irrefl (x ∷ xs) = ground (arith, bytes_lt_irrefl xs)

pub bytes_lt_trans :
    (a b c : Bytes) → bytes_lt a b ≡ true → bytes_lt b c ≡ true → bytes_lt a c ≡ true
unfolding bytes_lt
bytes_lt_trans [] [] c h k = cc
bytes_lt_trans [] (y ∷ ys) [] h k = cc
bytes_lt_trans [] (y ∷ ys) (z ∷ zs) h k = refl
bytes_lt_trans (x ∷ xs) [] c h k = cc
bytes_lt_trans (x ∷ xs) (y ∷ ys) [] h k = cc
bytes_lt_trans (x ∷ xs) (y ∷ ys) (z ∷ zs) h k = ground (arith, bytes_lt_trans xs ys zs)

pub bytes_lt-asym : (a b : Bytes) → bytes_lt a b ≡ true → bytes_lt b a ≡ false
unfolding bytes_lt
bytes_lt-asym [] [] h = refl
bytes_lt-asym [] (y ∷ ys) h = refl
bytes_lt-asym (x ∷ xs) [] h = cc
bytes_lt-asym (x ∷ xs) (y ∷ ys) h = ground (arith, bytes_lt-asym xs ys)

-- Two texts of which neither is below the other are the same text.
pub bytes_lt-total : (a b : Bytes) → bytes_lt a b ≡ false → bytes_lt b a ≡ false → a ≡ b
unfolding bytes_lt
bytes_lt-total [] [] h k = refl
bytes_lt-total [] (y ∷ ys) h k = cc
bytes_lt-total (x ∷ xs) [] h k = cc
bytes_lt-total (x ∷ xs) (y ∷ ys) h k = ground (arith, bytes_lt-total xs ys)

-- Not above, not above: not above.
pub bytes_le_trans :
    (a b c : Bytes) → bytes_lt b a ≡ false → bytes_lt c b ≡ false → bytes_lt c a ≡ false
unfolding bytes_lt
bytes_le_trans [] b [] h k = refl
bytes_le_trans [] [] (z ∷ zs) h k = refl
bytes_le_trans [] (y ∷ ys) (z ∷ zs) h k = refl
bytes_le_trans (x ∷ xs) [] c h k = cc
bytes_le_trans (x ∷ xs) (y ∷ ys) [] h k = cc
bytes_le_trans (x ∷ xs) (y ∷ ys) (z ∷ zs) h k = ground (arith, bytes_le_trans xs ys zs)

-- A byte slice holds bytes.
abbrev pub IsByte : ℕ → Type 0
IsByte c = c < 256

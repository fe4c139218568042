-- ===== src/Base/Dict.antt =====
-- Go maps, as association lists: a write goes to the front, a read takes the first hit. The
-- program never ranges over a map, so the order of its entries is not modelled.
use Prim.Native.Nat.{ℕ}
use mathlib.Core.Path.{◌≡◌, refl}
use mathlib.Core.Logic.{◌↔◌}
use mathlib.Core.Bool.{Bool, true}
use mathlib.Core.Option.{Option, none, some}
use mathlib.Core.List.{List, [], ◌∷◌}
use native.Mathlib.Omega.{arith}
use claude_share.Base.Tests.{◌==◌, ==_iff, if◌then◌else◌}
use claude_share.Base.Texts.{Bytes, bytes_eq, bytes_eq_iff}

-- Comparable key types.
pub record Eq {ℓ} (A : Type ℓ) : Type ℓ where
  pub beq : A → A → Bool
  pub beq_iff : (a b : A) → (beq a b ≡ true) ↔ (a ≡ b)

instance abbrev pub nat_eq : Eq ℕ
nat_eq = record { beq = ◌==◌; beq_iff = ==_iff }

instance abbrev pub bytes_key : Eq Bytes
bytes_key = record { beq = bytes_eq; beq_iff = bytes_eq_iff }

abbrev pub Dict {ℓ κ} : Type ℓ → Type κ → Type (ℓ ⊔ κ)
Dict K V = List (K × V)

module _ {ℓ κ} {K : Type ℓ} {V : Type κ} ⦃e : Eq K⦄ where
  -- v, ok := m[k]
  unfoldable pub get : K → Dict K V → Option V
  get k [] = none
  get k ((j, v) ∷ m) = if e.beq j k then some v else get k m

  -- m[k] = v
  unfoldable pub put : K → V → Dict K V → Dict K V
  put k v m = (k, v) ∷ m

  -- delete(m, k)
  unfoldable pub delete : K → Dict K V → Dict K V
  delete k [] = []
  delete k ((j, v) ∷ m) = let rest = delete k m in if e.beq j k then rest else (j, v) ∷ rest

  pub get-put :
      (k j : K) (v : V) (m : Dict K V) → get j (put k v m) ≡ (if e.beq k j then some v else get j m)
  unfolding get put
  get-put k j v m = refl

  pub get-delete :
      (k j : K) (m : Dict K V) → get j (delete k m) ≡ (if e.beq k j then none else get j m)
  unfolding get delete
  get-delete k j [] = ground arith
  get-delete k j ((i, v) ∷ m) =
      ground (arith, get-delete k j m, e.beq_iff i k, e.beq_iff i j, e.beq_iff k j)

  -- A write before a deletion of the same key is lost.
  pub delete-put_self : (k : K) (v : V) (m : Dict K V) → delete k (put k v m) ≡ delete k m
  unfolding delete put
  delete-put_self k v m = rw ((e.beq_iff k k).1 refl)

  pub get-put_self : (k : K) (v : V) (m : Dict K V) → get k (put k v m) ≡ some v
  unfolding get put
  get-put_self k v m = rw ((e.beq_iff k k).1 refl)

pub get-empty {ℓ κ} : {K : Type ℓ} {V : Type κ} ⦃e : Eq K⦄ (k : K) → get {V = V} k [] ≡ none
unfolding get
get-empty k = refl

pub ruleset dict_laws = (get-empty, get-put, get-delete)

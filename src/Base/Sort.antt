-- ===== src/Base/Sort.antt =====
-- `sort.Slice` by a text key: a stable insertion sort. The search for the first element with a
-- key has the same result before and after.
use mathlib.Core.Path.{◌≡◌, refl, ap, sym, ◌∙◌}
use mathlib.Core.Bool.{false}
use mathlib.Core.Logic.{inl, inr}
use mathlib.Core.Option.{Option, none, some}
use mathlib.Core.List.{List, [], ◌∷◌}
use native.Mathlib.Omega.{arith}
use claude_share.Base.Tests.{if◌then◌else◌, Bool-cases}
use claude_share.Base.Lists.{All, All-map}
use claude_share.Base.Texts.{
  Bytes, bytes_eq, bytes_eq_iff, bytes_lt, bytes_lt_irrefl, bytes_lt-asym, bytes_le_trans,
}

module _ {ℓ} {A : Type ℓ} (key : A → Bytes) where
  unfoldable pub insert : A → List A → List A
  insert x [] = x ∷ []
  insert x (y ∷ l) = if bytes_lt (key y) (key x) then y ∷ insert x l else x ∷ y ∷ l

  unfoldable pub sort : List A → List A
  unfolding insert
  sort [] = []
  sort (x ∷ l) = insert x (sort l)

  -- The first element with the key.
  unfoldable pub find : Bytes → List A → Option A
  find k [] = none
  find k (x ∷ l) = if bytes_eq (key x) k then some x else find k l

  -- No key stands twice.
  abbrev pub NodupKeys : List A → Type ℓ
  NodupKeys [] = Unit
  NodupKeys (x ∷ l) = (find (key x) l ≡ none) × NodupKeys l

  -- Every key is above the keys before it, or equal to them.
  abbrev pub IsSorted : List A → Type ℓ
  IsSorted [] = Unit
  IsSorted (x ∷ l) = All (λ y. bytes_lt (key y) (key x) ≡ false) l × IsSorted l

  -- What is found has the key.
  pub find-key : (k : Bytes) (x : A) (l : List A) → find k l ≡ some x → key x ≡ k
  unfolding find
  find-key k x [] h = cc h
  find-key k x (y ∷ l) h = elim (Bool-cases (bytes_eq (key y) k)) [
    | inl q ↦ let this : y ≡ x = cc (rw q at h) in ap key (sym this) ∙ (bytes_eq_iff (key y) k).0 q
    | inr q ↦ find-key k x l (rw q at h)
  ]

  pub find-insert :
      (k : Bytes) (x : A) (l : List A)
      → find k (insert x l) ≡ (if bytes_eq (key x) k then some x else find k l)
  unfolding find insert
  find-insert k x [] = refl
  find-insert k x (y ∷ l) =
      ground (
        arith,
        find-insert k x l,
        bytes_eq_iff (key x) k,
        bytes_eq_iff (key y) k,
        bytes_lt_irrefl k,
      )

  pub find-sort : (k : Bytes) (l : List A) → find k (sort l) ≡ find k l
  unfolding find sort
  find-sort k [] = refl
  find-sort k (x ∷ l) = rw (find-insert, find-sort k l)

  pub insert-NodupKeys :
      (x : A) (l : List A) → find (key x) l ≡ none → NodupKeys l → NodupKeys (insert x l)
  unfolding find insert
  insert-NodupKeys x [] h n = (refl, tt)
  insert-NodupKeys x (y ∷ l) h n = ground (
    arith,
    insert-NodupKeys x l,
    find-insert (key y) x l,
    bytes_eq_iff (key x) (key y),
    bytes_eq_iff (key y) (key x),
    bytes_lt_irrefl (key x),
  )

  pub sort-NodupKeys : (l : List A) → NodupKeys l → NodupKeys (sort l)
  unfolding sort
  sort-NodupKeys [] n = tt
  sort-NodupKeys (x ∷ l) (h, n) =
      insert-NodupKeys x (sort l) (rw (find-sort (key x) l) h) (sort-NodupKeys l n)

  -- What holds of all elements holds after an insertion.
  pub All-insert {κ} : (P : A → Type κ) (x : A) (l : List A) → P x → All P l → All P (insert x l)
  unfolding insert
  All-insert P x [] px pl = (px, tt)
  All-insert P x (y ∷ l) px pl = elim (Bool-cases (bytes_lt (key y) (key x))) [
    | inl e ↦ rw e (pl.0, All-insert P x l px pl.1)
    | inr e ↦ rw e (px, pl)
  ]

  pub All-sort {κ} : (P : A → Type κ) (l : List A) → All P l → All P (sort l)
  unfolding sort
  All-sort P [] h = tt
  All-sort P (x ∷ l) h = All-insert P x (sort l) h.0 (All-sort P l h.1)

  insert-IsSorted : (x : A) (l : List A) → IsSorted l → IsSorted (insert x l)
  unfolding insert
  insert-IsSorted x [] s = (tt, tt)
  insert-IsSorted x (y ∷ l) s = elim (Bool-cases (bytes_lt (key y) (key x))) [
    | inl e ↦ rw e (
      All-insert (λ z. bytes_lt (key z) (key y) ≡ false) x l (bytes_lt-asym (key y) (key x) e) s.0,
      insert-IsSorted x l s.1,
    )
    | inr e ↦ rw e ((e, All-map (λ z h. bytes_le_trans (key x) (key y) (key z) e h) l s.0), s)
  ]

  pub sort-IsSorted : (l : List A) → IsSorted (sort l)
  unfolding sort
  sort-IsSorted [] = tt
  sort-IsSorted (x ∷ l) = insert-IsSorted x (sort l) (sort-IsSorted l)

-- ===== src/Base/Exec.antt =====
-- Go code that changes state and may return an error. What was written before an error stays
-- written, so the state comes back beside the error too.
use mathlib.Core.Path.{◌≡◌, refl, ap, ◌∙◌}
use mathlib.Core.Bool.{Bool, true, false}
use claude_share.Base.Tests.{if◌then◌else◌}
use claude_share.Base.Errors.{Error, Result, ok, err}

abbrev pub Exec {ℓ} : Type ℓ → Type ℓ → Type ℓ
Exec S A = S → Result A × S

module _ {ℓ} {S A : Type ℓ} where
  abbrev pub pure : A → Exec S A
  pure a s = (ok a, s)

  abbrev pub fail : Error → Exec S A
  fail e s = (err e, s)

  abbrev pub lift : Result A → Exec S A
  lift r s = (r, s)

  abbrev pub gets : (S → A) → Exec S A
  gets f s = (ok (f s), s)

  -- The result of a call, its error as a value: `err := f()` with a later test.
  abbrev pub attempt : Exec S A → Exec S (Result A)
  attempt m s = let (r, s') = m s in (ok r, s')

module _ {ℓ} {S : Type ℓ} where
  abbrev pub modify : (S → S) → Exec S (Unit {ℓ})
  modify f s = (ok tt, f s)

module _ {ℓ} {S A B : Type ℓ} where
  abbrev pub continue : Result A → (A → Exec S B) → Exec S B
  continue (ok a) f s = f a s
  continue (err e) f s = (err e, s)

  infixl 5 ◌>>=◌ ◌>>◌
  abbrev pub ◌>>=◌ : Exec S A → (A → Exec S B) → Exec S B
  ◌>>=◌ m f s = let (r, s') = m s in continue r f s'

  abbrev pub ◌>>◌ : Exec S A → Exec S B → Exec S B
  m >> n = m >>= λ _. n

module _ {ℓ} {S A B : Type ℓ} where
  continue-eq-ok :
      (r : Result A) (f : A → Exec S B) (s s' : S) (b : B)
      → continue r f s ≡ (ok b, s')
      → (a : A) × (r ≡ ok a) × (f a s ≡ (ok b, s'))
  continue-eq-ok (ok a) f s s' b h = (a, refl, h)
  continue-eq-ok (err e) f s s' b h = cc (ap (λ (p : Result B × S). p.0) h)

  -- A sequence whose first call succeeds goes on with its value and its state.
  pub bind-run :
      (m : Exec S A) (f : A → Exec S B) (s s' : S) (a : A) → m s ≡ (ok a, s') → (m >>= f) s ≡ f a s'
  bind-run m f s s' a h = ap (λ (q : Result A × S). continue q.0 f q.1) h

  -- A sequence that succeeds: its first call did, and the rest ran from the state that it left.
  pub bind-eq-ok :
      (m : Exec S A) (f : A → Exec S B) (s s' : S) (b : B)
      → (m >>= f) s ≡ (ok b, s')
      → (a : A) × ((m s).0 ≡ ok a) × (f a (m s).1 ≡ (ok b, s'))
  bind-eq-ok m f s s' b h = continue-eq-ok (m s).0 f (m s).1 s' b h

module _ {ℓ κ} {S A B : Type ℓ} (P : S → Type κ) where
  continue-after :
      (r : Result A) (f : A → Exec S B) (s : S)
      → P s
      → ((a : A) → r ≡ ok a → P (f a s).1)
      → P (continue r f s).1
  continue-after (ok a) f s h next = next a refl
  continue-after (err e) f s h next = h

  -- What holds of the state after a first call, and after the rest when the call succeeds, holds
  -- after both.
  pub bind-after :
      (m : Exec S A) (f : A → Exec S B) (s : S)
      → P (m s).1
      → ((a : A) → (m s).0 ≡ ok a → P (f a (m s).1).1)
      → P ((m >>= f) s).1
  bind-after m f s h next = continue-after (m s).0 f (m s).1 h next

module _ {ℓ κ} {S A B : Type ℓ} (P : Result B → S → Type κ)
    (failed : (e : Error) (s : S) → P (err e) s) where
  continue-post :
      (r : Result A) (f : A → Exec S B) (s : S)
      → ((a : A) → r ≡ ok a → P (f a s).0 (f a s).1)
      → P (continue r f s).0 (continue r f s).1
  continue-post (ok a) f s next = next a refl
  continue-post (err e) f s next = failed e s

  -- A postcondition that holds of every failure holds of a sequence if it does of the last call.
  pub bind-post :
      (m : Exec S A) (f : A → Exec S B) (s : S)
      → ((a : A) → (m s).0 ≡ ok a → P (f a (m s).1).0 (f a (m s).1).1)
      → P ((m >>= f) s).0 ((m >>= f) s).1
  bind-post m f s next = continue-post (m s).0 f (m s).1 next

-- Calls that leave a part of the state as it is, whether they succeed or not.
pub record LeavesAlone {ℓ} {S V A : Type ℓ} (view : S → V) (m : Exec S A) : Type ℓ where
  pub same : (s : S) → view (m s).1 ≡ view s

module _ {ℓ} {S V : Type ℓ} (view : S → V) where
  pub pure-LeavesAlone : {A : Type ℓ} (a : A) → LeavesAlone view (pure a)
  pure-LeavesAlone a = record { same = λ s. refl }

  pub modify-LeavesAlone :
      (f : S → S) → ((s : S) → view (f s) ≡ view s) → LeavesAlone view (modify f)
  modify-LeavesAlone f h = record { same = h }

  pub attempt-LeavesAlone :
      {A : Type ℓ} {m : Exec S A} → LeavesAlone view m → LeavesAlone view (attempt m)
  attempt-LeavesAlone h = record { same = h.same }

  pub lift-LeavesAlone : {A : Type ℓ} (r : Result A) → LeavesAlone view (lift r)
  lift-LeavesAlone r = record { same = λ s. refl }

  pub bind-LeavesAlone :
      {A B : Type ℓ} {m : Exec S A} {f : A → Exec S B}
      → LeavesAlone view m
      → ((a : A) → LeavesAlone view (f a))
      → LeavesAlone view (m >>= f)
  bind-LeavesAlone {m = m} {f} hm hf = record {
    same = λ s.
        bind-after (λ s'. view s' ≡ view s) m f s (hm.same s)
          (λ a _. (hf a).same (m s).1 ∙ hm.same s);
  }

  pub if-LeavesAlone :
      {A : Type ℓ} (b : Bool) {m n : Exec S A}
      → LeavesAlone view m
      → LeavesAlone view n
      → LeavesAlone view (if b then m else n)
  if-LeavesAlone true hm hn = hm
  if-LeavesAlone false hm hn = hn

pub ruleset leaves_rules =
    (pure-LeavesAlone, lift-LeavesAlone, attempt-LeavesAlone, bind-LeavesAlone, if-LeavesAlone)

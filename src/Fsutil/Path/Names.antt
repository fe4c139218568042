-- ===== src/Fsutil/Path/Names.antt =====
-- Which names the stack of a path can hold.
use claude_share.Base.{
  ℕ, ◌≡◌, ◌≢◌, ◌⊎◌, inl, inr, refl, ap, Bool, true, false, Bytes, bytes_eq, bytes_eq_iff, Option,
  none, some, List, [], ◌∷◌, ◌++◌, ◌==◌, arith, All, Bool-cases,
}
use claude_share.Fsutil.Path.{slash, dot, dotdot, grow, split_path, back, enter, walk}

abbrev pub IsSlashFree : Bytes → Type 0
IsSlashFree = All (λ c. c ≢ slash)

-- A name that a directory can hold: not empty, without a slash, and neither `.` nor `..`.
abbrev pub IsName : Bytes → Type 0
IsName c = IsSlashFree c × (c ≢ []) × (c ≢ dot) × (c ≢ dotdot)

grow-IsSlashFree :
    (c : ℕ) (ps : List Bytes) → c ≢ slash → All IsSlashFree ps → All IsSlashFree (grow c ps)
unfolding grow
grow-IsSlashFree c [] h a = ((h, tt), tt)
grow-IsSlashFree c (p ∷ ps) h a = ((h, a.0), a.1)

pub split_path-IsSlashFree : (s : Bytes) → All IsSlashFree (split_path s)
unfolding split_path
split_path-IsSlashFree [] = (tt, tt)
split_path-IsSlashFree (c ∷ s) = elim (Bool-cases (c == slash)) [
  | inl e ↦ rw e (tt, split_path-IsSlashFree s)
  | inr e ↦ rw e (grow-IsSlashFree c (split_path s) (ground arith) (split_path-IsSlashFree s))
]

-- Only `..` stands on the stack.
abbrev IsUp : List Bytes → Type 0
IsUp = All (λ c. c ≡ dotdot)

-- Names, with nothing but `..` below them.
abbrev pub IsStack : List Bytes → Type 0
IsStack [] = Unit
IsStack (c ∷ st) = (IsName c × IsStack st) ⊎ ((c ≡ dotdot) × IsUp st)

ne_of_test : (a b : Bytes) → bytes_eq a b ≡ false → a ≢ b
ne_of_test a b h e = ground (arith, bytes_eq_iff a b)

IsUp-IsStack : (st : List Bytes) → IsUp st → IsStack st
IsUp-IsStack [] u = tt
IsUp-IsStack (c ∷ st) u = inr (u.0, u.1)

-- A name goes on the stack.
pub enter_name :
    (rooted : Bool) (st : List Bytes) (c : Bytes) → IsName c → enter rooted st c ≡ c ∷ st
unfolding enter
enter_name rooted st c (s, a, b, d) =
    ground (arith, bytes_eq_iff c [], bytes_eq_iff c dot, bytes_eq_iff c dotdot)

-- A part is skipped, goes back, or is a name and goes on.
enter_cases :
    (rooted : Bool) (st : List Bytes) (c : Bytes)
    → IsSlashFree c
    → (enter rooted st c ≡ st)
      ⊎ ((enter rooted st c ≡ back rooted st) ⊎ (IsName c × (enter rooted st c ≡ c ∷ st)))
unfolding enter
enter_cases rooted st c f = elim (Bool-cases (bytes_eq c [])) [
  | inl e ↦ inl (rw e)
  | inr e ↦ elim (Bool-cases (bytes_eq c dot)) [
    | inl e' ↦ inl (rw (e, e'))
    | inr e' ↦ elim (Bool-cases (bytes_eq c dotdot)) [
      | inl e'' ↦ inr (inl (rw (e, e', e'')))
      | inr e'' ↦ inr (
          inr
            ((f, ne_of_test c [] e, ne_of_test c dot e', ne_of_test c dotdot e''), rw (e, e', e'')))
    ]
  ]
]

back-IsStack : (st : List Bytes) → IsStack st → IsStack (back false st)
unfolding back
back-IsStack [] h = inr (refl, tt)
back-IsStack (c ∷ st) (inl (n, s)) = ground (arith, bytes_eq_iff c dotdot)
back-IsStack (c ∷ st) (inr (e, u)) = rw ((bytes_eq_iff c dotdot).1 e) (inr (refl, (e, u)))

back-IsName : (st : List Bytes) → All IsName st → All IsName (back true st)
unfolding back
back-IsName [] h = tt
back-IsName (c ∷ st) ((f, a, b, d), h) = ground (arith, bytes_eq_iff c dotdot)

enter-IsStack :
    (st : List Bytes) (c : Bytes) → IsSlashFree c → IsStack st → IsStack (enter false st c)
enter-IsStack st c f s = elim (enter_cases false st c f) [
  | inl e ↦ rw e s
  | inr (inl e) ↦ rw e (back-IsStack st s)
  | inr (inr (n, e)) ↦ rw e (inl (n, s))
]

enter-IsName :
    (st : List Bytes) (c : Bytes) → IsSlashFree c → All IsName st → All IsName (enter true st c)
enter-IsName st c f a = elim (enter_cases true st c f) [
  | inl e ↦ rw e a
  | inr (inl e) ↦ rw e (back-IsName st a)
  | inr (inr (n, e)) ↦ rw e (n, a)
]

-- A relative path leaves names over `..`.
pub walk-IsStack :
    (st cs : List Bytes) → All IsSlashFree cs → IsStack st → IsStack (walk false st cs)
unfolding walk
walk-IsStack st [] f s = s
walk-IsStack st (c ∷ cs) f s = walk-IsStack (enter false st c) cs f.1 (enter-IsStack st c f.0 s)

-- A rooted path leaves names alone.
pub walk-IsName :
    (st cs : List Bytes) → All IsSlashFree cs → All IsName st → All IsName (walk true st cs)
unfolding walk
walk-IsName st [] f s = s
walk-IsName st (c ∷ cs) f s = walk-IsName (enter true st c) cs f.1 (enter-IsName st c f.0 s)

-- The outermost name of a stack.
abbrev pub outermost : List Bytes → Option Bytes
outermost [] = none
outermost (c ∷ []) = some c
outermost (c ∷ d ∷ st) = outermost (d ∷ st)

IsUp-outermost :
    (c : Bytes) (st : List Bytes) → c ≡ dotdot → IsUp st → outermost (c ∷ st) ≡ some dotdot
IsUp-outermost c [] e u = ap some e
IsUp-outermost c (d ∷ st) e u = IsUp-outermost d st u.0 u.1

-- A stack whose outermost name is not `..` holds names alone.
pub IsStack-IsName : (st : List Bytes) → IsStack st → outermost st ≢ some dotdot → All IsName st
IsStack-IsName [] s h = tt
IsStack-IsName (c ∷ []) (inl (n, s)) h = (n, tt)
IsStack-IsName (c ∷ d ∷ st) (inl (n, s)) h = (n, IsStack-IsName (d ∷ st) s h)
IsStack-IsName (c ∷ st) (inr (e, u)) h = absurd (h (IsUp-outermost c st e u))

-- The walks compose, and names pass through them.
pub walk-append :
    (rooted : Bool) (st xs ys : List Bytes)
    → walk rooted st (xs ++ ys) ≡ walk rooted (walk rooted st xs) ys
unfolding walk
walk-append rooted st [] ys = refl
walk-append rooted st (x ∷ xs) ys = walk-append rooted (enter rooted st x) xs ys

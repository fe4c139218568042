-- ===== src/Fsutil/SafeJoin/Cleaned.antt =====
-- The cleaned paths that pass the lexical test, and what the join makes of them.
use claude_share.Base.{
  ◌≡◌, ◌≢◌, inl, inr, refl, ◌∙◌, Bool, true, false, Bytes, bytes_eq, bytes_eq_refl, some, List, [],
  ◌∷◌, ◌++◌, arith, All,
}
use claude_share.Fsutil.Path.{
  slash, dotdot, is_abs, split_path, walk, render, show, names, clean, join,
}
use claude_share.Fsutil.Path.Names.{
  IsStack, IsName, outermost, split_path-IsSlashFree, walk-IsStack, IsStack-IsName, walk-append,
}
use claude_share.Fsutil.Path.Render.{split_path-slash, walk-render, render-ne-nil, render-outermost}
use claude_share.Fsutil.SafeJoin.{has_prefix, is_unsafe}

pub has_prefix-nil : (s : Bytes) → has_prefix s [] ≡ true
unfolding has_prefix
has_prefix-nil [] = refl
has_prefix-nil (c ∷ s) = refl

pub has_prefix-append : (p s : Bytes) → has_prefix (p ++ s) p ≡ true
unfolding has_prefix
has_prefix-append [] s = has_prefix-nil s
has_prefix-append (c ∷ p) s = ground (arith, has_prefix-append p s)

-- A cleaned path whose outermost name is `..` is unsafe.
unsafe_of_up : (st : List Bytes) → outermost st ≡ some dotdot → is_unsafe (render st) ≡ true
unfolding is_unsafe
unsafe_of_up st h = elim (render-outermost st dotdot h) [
  | inl e ↦ rw (e, bytes_eq_refl)
  | inr (rest, e) ↦ rw e (unfold bytes_eq in ground (arith, has_prefix-nil rest))
]

IsName-of_safe : (st : List Bytes) → IsStack st → is_unsafe (show false st) ≡ false → All IsName st
unfolding show
IsName-of_safe [] s h = tt
IsName-of_safe (c ∷ st) s h = IsStack-IsName (c ∷ st) s (λ e. cc (h, unsafe_of_up (c ∷ st) e))

names_of_safe_at :
    (rel : Bytes) (r : Bool)
    → is_unsafe (show r (walk r [] (split_path rel))) ≡ false
    → (r ≡ false) × All IsName (walk r [] (split_path rel))
names_of_safe_at rel true h = unfold is_unsafe show in absurd (ground arith)
names_of_safe_at rel false h =
    (refl, IsName-of_safe _ (walk-IsStack [] _ (split_path-IsSlashFree rel) tt) h)

-- A cleaned path that passes the lexical test comes from a relative path, and consists of names.
pub names_of_safe :
    (rel : Bytes) → is_unsafe (clean rel) ≡ false → (is_abs rel ≡ false) × All IsName (names rel)
unfolding clean
names_of_safe rel h = names_of_safe_at rel (is_abs rel) h

show-ne-nil : (r : Bool) (st : List Bytes) → All IsName st → show r st ≢ []
unfolding show
show-ne-nil true st h e = cc
show-ne-nil false [] h e = cc
show-ne-nil false (c ∷ st) h e = absurd (render-ne-nil c st h.0.1 e)

join_nonempty : (a b : Bytes) → a ≢ [] → b ≢ [] → join a b ≡ clean (a ++ slash ∷ b)
unfolding join
join_nonempty [] b h k = absurd (h refl)
join_nonempty (c ∷ a) [] h k = absurd (k refl)
join_nonempty (c ∷ a) (d ∷ b) h k = refl

walk-show :
    (rooted : Bool) (st ns : List Bytes)
    → All IsName ns
    → walk rooted st (split_path (show false ns)) ≡ ns ++ st
unfolding show
walk-show rooted st [] h = unfold walk split_path bytes_eq in refl
walk-show rooted st (n ∷ ns) h = walk-render rooted st n ns h

pub names-join :
    (root : Bytes) (ns : List Bytes)
    → root ≢ []
    → All IsName ns
    → join root (show false ns) ≡ show (is_abs root) (ns ++ names root)
names-join [] ns h k = absurd (h refl)
names-join (c ∷ a) ns h k =
    join_nonempty (c ∷ a) (show false ns) h (show-ne-nil false ns k)
    ∙ (unfold clean in rw (split_path-slash, walk-append, walk-show) refl)

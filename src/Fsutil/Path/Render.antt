-- ===== src/Fsutil/Path/Render.antt =====
-- Rendering a stack of names and cutting the text again gives the names back.
use claude_share.Base.{
  ℕ, ◌≡◌, ◌≢◌, ◌⊎◌, inl, inr, refl, ap, ◌∙◌, Bool, false, Bytes, some, List, [], ◌∷◌, ◌++◌, ◌==◌,
  arith, All, Bool-cases, append_assoc,
}
use claude_share.Fsutil.Path.{slash, grow, split_path, walk, render, is_abs}
use claude_share.Fsutil.Path.Names.{IsSlashFree, IsName, enter_name, walk-append, outermost}

grow-append : (c : ℕ) (ps qs : List Bytes) → ps ≢ [] → grow c (ps ++ qs) ≡ grow c ps ++ qs
unfolding grow
grow-append c [] qs h = absurd (h refl)
grow-append c (p ∷ ps) qs h = refl

grow-ne-nil : (c : ℕ) (ps : List Bytes) → grow c ps ≢ []
unfolding grow
grow-ne-nil c [] = λ e. cc
grow-ne-nil c (p ∷ ps) = λ e. cc

split_path-ne-nil : (s : Bytes) → split_path s ≢ []
unfolding split_path
split_path-ne-nil [] = λ e. cc
split_path-ne-nil (c ∷ s) = elim (Bool-cases (c == slash)) [
  | inl e ↦ rw e (λ p. cc)
  | inr e ↦ rw e (grow-ne-nil c (split_path s))
]

-- A slash separates the parts on its two sides.
pub split_path-slash : (a b : Bytes) → split_path (a ++ slash ∷ b) ≡ split_path a ++ split_path b
unfolding split_path
split_path-slash [] b = refl
split_path-slash (c ∷ a) b = elim (Bool-cases (c == slash)) [
  | inl e ↦ rw (e, split_path-slash a b)
  | inr e ↦ rw (e, split_path-slash a b) (grow-append c (split_path a) _ (split_path-ne-nil a))
]

-- A name is one part.
split_path_name : (c : Bytes) → IsSlashFree c → split_path c ≡ c ∷ []
unfolding split_path
split_path_name [] f = refl
split_path_name (x ∷ c) f = unfold grow in ground (arith, split_path_name c f.1)

-- Walking the rendered names puts them on the stack.
pub walk-render :
    (rooted : Bool) (st : List Bytes) (n : Bytes) (ns : List Bytes)
    → All IsName (n ∷ ns)
    → walk rooted st (split_path (render (n ∷ ns))) ≡ (n ∷ ns) ++ st
unfolding render walk
walk-render rooted st n [] (h, _) = rw (split_path_name n h.0) (enter_name rooted st n h)
walk-render rooted st n (m ∷ ns) (h, hs) =
    rw (split_path-slash, walk-append, walk-render rooted st m ns hs, split_path_name n h.0)
      (enter_name rooted _ n h)

-- The text of more names starts with the text of the outer names.
pub render-append :
    (n : Bytes) (ns : List Bytes) (m : Bytes) (ms : List Bytes)
    → render ((n ∷ ns) ++ m ∷ ms) ≡ render (m ∷ ms) ++ slash ∷ render (n ∷ ns)
unfolding render
render-append n [] m ms = refl
render-append n (k ∷ ns) m ms =
    rw (render-append k ns m ms)
      (append_assoc (render (m ∷ ms)) (slash ∷ render (k ∷ ns)) (slash ∷ n))

is_abs-append : (a b : Bytes) → a ≢ [] → is_abs (a ++ b) ≡ is_abs a
unfolding is_abs
is_abs-append [] b h = absurd (h refl)
is_abs-append (c ∷ a) b h = refl

append_cons-ne-nil : (a : Bytes) (c : ℕ) (b : Bytes) → a ++ c ∷ b ≢ []
append_cons-ne-nil [] c b e = cc
append_cons-ne-nil (x ∷ a) c b e = cc

pub render-ne-nil : (n : Bytes) (ns : List Bytes) → n ≢ [] → render (n ∷ ns) ≢ []
unfolding render
render-ne-nil n [] h = h
render-ne-nil n (m ∷ ns) h = append_cons-ne-nil (render (m ∷ ns)) slash n

-- Names do not render to a rooted path.
pub is_abs-render : (ns : List Bytes) → All IsName ns → is_abs (render ns) ≡ false
unfolding is_abs render
is_abs-render [] h = refl
is_abs-render ([] ∷ []) h = refl
is_abs-render ((x ∷ n) ∷ []) h = ground arith
is_abs-render (n ∷ m ∷ ns) (h, hs) =
    is_abs-append (render (m ∷ ns)) (slash ∷ n) (render-ne-nil m ns hs.0.1)
    ∙ is_abs-render (m ∷ ns) hs

-- The text of a stack starts with its outermost name, and a slash if there is more.
pub render-outermost :
    (st : List Bytes) (b : Bytes)
    → outermost st ≡ some b
    → (render st ≡ b) ⊎ ((rest : Bytes) × (render st ≡ b ++ slash ∷ rest))
unfolding render
render-outermost [] b h = cc
render-outermost (c ∷ []) b h = inl (cc)
render-outermost (c ∷ d ∷ st) b h = elim (render-outermost (d ∷ st) b h) [
  | inl e ↦ inr (c, ap (λ r. r ++ slash ∷ c) e)
  | inr (rest, e) ↦
      inr
        (rest ++ slash ∷ c, ap (λ r. r ++ slash ∷ c) e ∙ append_assoc b (slash ∷ rest) (slash ∷ c))
]

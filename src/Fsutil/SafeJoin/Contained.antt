-- ===== src/Fsutil/SafeJoin/Contained.antt =====
-- The paths that `SafeJoin` returns, and when it refuses.
use claude_share.Base.{
  ◌≡◌, ◌≢◌, refl, ◌∙◌, true, false, Bytes, bytes_eq, bytes_eq_iff, bytes_eq_refl, List, [], ◌∷◌,
  ◌++◌, if◌then◌else◌, arith, All, All-append, append_assoc, append-nil, Result, ok, err,
  escapes_root,
}
use claude_share.Fsutil.Path.{slash, is_abs, split_path, render, show, names, clean, join, abs}
use claude_share.Fsutil.Path.Names.{IsName, split_path-IsSlashFree, walk-IsName}
use claude_share.Fsutil.Path.Render.{walk-render, render-append, render-ne-nil, is_abs-render}
use claude_share.Fsutil.SafeJoin.{has_prefix, is_unsafe, escapes, safe_join}
use claude_share.Fsutil.SafeJoin.Cleaned.{
  has_prefix-nil, has_prefix-append, names_of_safe, names-join,
}

clean_of_safe : (rel : Bytes) → is_abs rel ≡ false → clean rel ≡ show false (names rel)
unfolding clean
clean_of_safe rel h = rw h

joined_at :
    (root rel : Bytes)
    → root ≢ []
    → is_unsafe (clean rel) ≡ false
    → join root (clean rel) ≡ show (is_abs root) (names rel ++ names root)
joined_at root rel h s =
    let (r, n) = names_of_safe rel s in rw (clean_of_safe rel r) (names-join root (names rel) h n)

safe_join_inversion :
    (getwd : Result Bytes) (root rel : Bytes) {p : Bytes}
    → safe_join getwd root rel ≡ ok p
    → (is_unsafe (clean rel) ≡ false) × (p ≡ join root (clean rel))
unfolding safe_join
safe_join_inversion getwd root rel h = ground arith

-- A path that `SafeJoin` returns, for a root that is not the empty text, is the cleaned root
-- followed by the names of the cleaned relative path; each of these is a proper name, so none is
-- `..`, `.` or empty, and none holds a slash.
pub safe_join_contained :
    (getwd : Result Bytes) (root rel : Bytes) {p : Bytes}
    → root ≢ []
    → safe_join getwd root rel ≡ ok p
    → All IsName (names rel) × (p ≡ show (is_abs root) (names rel ++ names root))
safe_join_contained getwd root rel {p} h e =
    let (s, r) = safe_join_inversion getwd root rel e in
    ((names_of_safe rel s).1, r ∙ joined_at root rel h s)

rooted_names : (root : Bytes) → is_abs root ≡ true → All IsName (names root)
unfolding names
rooted_names root h = rw h (walk-IsName [] (split_path root) (split_path-IsSlashFree root) tt)

abs_of_rooted :
    (getwd : Result Bytes) (p : Bytes) → is_abs p ≡ true → abs getwd p ≡ ok (show true (names p))
unfolding abs clean
abs_of_rooted getwd p h = rw h

names-show : (st : List Bytes) → All IsName st → names (show true st) ≡ st
unfolding names show
names-show [] a = unfold bytes_eq render in refl
names-show (n ∷ ns) a = unfold bytes_eq in rw (walk-render true [] n ns a) (append-nil (n ∷ ns))

-- The text of a longer stack of names lies under the text of the shorter.
shown_under :
    (n : Bytes) (ns : List Bytes) (m : Bytes) (ms : List Bytes)
    → has_prefix (show true ((n ∷ ns) ++ m ∷ ms)) (show true (m ∷ ms) ++ slash ∷ []) ≡ true
unfolding show
shown_under n ns m ms =
    rw (render-append n ns m ms, ← append_assoc (render (m ∷ ms)) (slash ∷ []) (render (n ∷ ns)))
      (has_prefix-append (slash ∷ (render (m ∷ ms) ++ slash ∷ [])) (render (n ∷ ns)))

not_escaped : (ns st : List Bytes) → st ≢ [] → escapes (show true st) (show true (ns ++ st)) ≡ false
unfolding escapes
not_escaped ns [] h = absurd (h refl)
not_escaped [] (m ∷ ms) h = rw bytes_eq_refl
not_escaped (n ∷ ns) (m ∷ ms) h = rw shown_under (ground arith)

has_prefix-slash : (s : Bytes) → has_prefix s (slash ∷ []) ≡ is_abs s
unfolding has_prefix is_abs
has_prefix-slash [] = refl
has_prefix-slash (c ∷ s) = ground (arith, has_prefix-nil s)

ne_nil_of_rooted : (p : Bytes) → is_abs p ≡ true → p ≢ []
unfolding is_abs
ne_nil_of_rooted [] h e = cc
ne_nil_of_rooted (c ∷ p) h e = cc

-- Below the root `/` the test looks for a doubled slash.
escaped_at_top :
    (ns : List Bytes) → All IsName ns → ns ≢ [] → escapes (show true []) (show true ns) ≡ true
unfolding escapes show
escaped_at_top [] a h = absurd (h refl)
escaped_at_top (n ∷ ns) a h =
    unfold has_prefix in
    ground (
      arith,
      bytes_eq_iff (slash ∷ render (n ∷ ns)) (slash ∷ []),
      has_prefix-slash (render (n ∷ ns)),
      is_abs-render (n ∷ ns) a,
      render-ne-nil n ns a.0.1,
    )

module _ (getwd : Result Bytes) (root rel : Bytes) (rooted : is_abs root ≡ true) where
  safe_join_tail :
      rel ≢ []
      → is_unsafe (clean rel) ≡ false
      → safe_join getwd root rel ≡ (
          if escapes (show true (names root)) (show true (names rel ++ names root))
          then err (escapes_root rel)
          else ok (show true (names rel ++ names root)))
  unfolding safe_join
  safe_join_tail given safe =
      let all_names =
        All-append IsName (names rel) (names root) (names_of_safe rel safe).1
          (rooted_names root rooted) in
      let joined : join root (clean rel) ≡ show true (names rel ++ names root) =
        rw rooted at (joined_at root rel (ne_nil_of_rooted root rooted) safe) in
      rw
        (
          safe,
          joined,
          abs_of_rooted getwd root rooted,
          abs_of_rooted getwd (show true (names rel ++ names root)) (unfold show is_abs in refl),
          names-show (names rel ++ names root) all_names,
        )
        (ground (arith, bytes_eq_iff rel []))

  -- For an absolute root other than `/`, a path that is not the empty text and passes the lexical
  -- test is never refused: the second test, after the join, finds nothing, and the result is the
  -- root with the names of the path.
  pub safe_join_complete :
      names root ≢ []
      → rel ≢ []
      → is_unsafe (clean rel) ≡ false
      → safe_join getwd root rel ≡ ok (show true (names rel ++ names root))
  safe_join_complete below given safe =
      rw (safe_join_tail given safe, not_escaped (names rel) (names root) below)

  -- With `/` as the root, every path but those that clean to `.` is refused.
  pub safe_join_at_filesystem_root :
      names root ≡ []
      → rel ≢ []
      → names rel ≢ []
      → is_unsafe (clean rel) ≡ false
      → safe_join getwd root rel ≡ err (escapes_root rel)
  safe_join_at_filesystem_root top given inner safe = rw (
    safe_join_tail given safe,
    top,
    append-nil (names rel),
    escaped_at_top (names rel) (names_of_safe rel safe).1 inner,
  )

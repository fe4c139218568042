-- ===== src/Examples/Paths.antt =====
-- `SafeJoin` of internal/fsutil/fsutil.go at a few paths.
use claude_share.Base.{
  ◌≡◌, refl, Bytes, bytes_eq, codes, [], ◌∷◌, ◌++◌, All, Result, ok, err, unsafe_path, escapes_root,
  false, true,
}
use claude_share.Fsutil.Path.{is_abs, clean, join, abs, names, show}
use claude_share.Fsutil.Path.Names.{IsName}
use claude_share.Fsutil.SafeJoin.{is_unsafe, safe_join, escapes}
use claude_share.Fsutil.SafeJoin.Contained.{
  safe_join_contained, safe_join_complete, safe_join_at_filesystem_root,
}

abbrev home : Result Bytes
home = ok (codes "/home")

clean_run : clean (codes "a//b/./../c/../../..") ≡ codes ".."
unfolding clean bytes_eq
clean_run = refl

join_run : safe_join home (codes "/r//s/") (codes "x/../y/z") ≡ ok (codes "/r/s/y/z")
unfolding safe_join clean join abs is_unsafe escapes bytes_eq
join_run = refl

unsafe_run : safe_join home (codes "r") (codes "x/../../y") ≡ err (unsafe_path (codes "x/../../y"))
unfolding safe_join clean is_unsafe bytes_eq
unsafe_run = refl

safe : is_unsafe (clean (codes "x/../y/z")) ≡ false
unfolding clean is_unsafe bytes_eq
safe = refl

safe_join_contained_example :
    All IsName (names (codes "x/../y/z"))
    × (codes "/r/s/y/z"
        ≡ show (is_abs (codes "/r//s/")) (names (codes "x/../y/z") ++ names (codes "/r//s/")))
safe_join_contained_example =
    safe_join_contained home (codes "/r//s/") (codes "x/../y/z") (λ e. cc) join_run

rooted : is_abs (codes "/r//s/") ≡ true
unfolding is_abs
rooted = refl

names_run : names (codes "/r//s/") ≡ codes "s" ∷ codes "r" ∷ []
unfolding names bytes_eq
names_run = refl

safe_join_complete_example :
    safe_join home (codes "/r//s/") (codes "x/../y/z")
    ≡ ok (show true (names (codes "x/../y/z") ++ names (codes "/r//s/")))
safe_join_complete_example =
    safe_join_complete home (codes "/r//s/") (codes "x/../y/z") rooted (λ e. cc (names_run, e))
      (λ e. cc) safe

top_rooted : is_abs (codes "/") ≡ true
unfolding is_abs
top_rooted = refl

top_names : names (codes "/") ≡ []
unfolding names bytes_eq
top_names = refl

inner_names : names (codes "x/../y/z") ≡ codes "z" ∷ codes "y" ∷ []
unfolding names bytes_eq
inner_names = refl

safe_join_at_filesystem_root_example :
    safe_join home (codes "/") (codes "x/../y/z") ≡ err (escapes_root (codes "x/../y/z"))
safe_join_at_filesystem_root_example =
    safe_join_at_filesystem_root home (codes "/") (codes "x/../y/z") top_rooted top_names (λ e. cc)
      (λ e. cc (inner_names, e)) safe

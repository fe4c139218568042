-- ===== src/Fsutil/SafeJoin.antt =====
-- `SafeJoin` of internal/fsutil/fsutil.go. `getwd` is the result of os.Getwd, which filepath.Abs
-- asks for at a relative root.
mod Cleaned
pub mod Contained
use claude_share.Base.{
  Bool, true, false, not, ◌&&◌, ◌||◌, Bytes, bytes_eq, codes, List, [], ◌∷◌, ◌++◌, ◌==◌,
  if◌then◌else◌, Result, ok, err, ◌>>=◌, ◌>>◌, guard, empty_path, unsafe_path, escapes_root,
}
use claude_share.Fsutil.Path.{slash, dotdot, is_abs, clean, join, abs}

-- strings.HasPrefix
unfoldable pub has_prefix : Bytes → Bytes → Bool
has_prefix s [] = true
has_prefix [] (d ∷ p) = false
has_prefix (c ∷ s) (d ∷ p) = c == d && has_prefix s p

-- The lexical test on the cleaned path.
unfoldable pub is_unsafe : Bytes → Bool
unfolding has_prefix is_abs
is_unsafe c = is_abs c || bytes_eq c dotdot || has_prefix c (dotdot ++ slash ∷ [])

-- The test of containment after the join.
unfoldable pub escapes : Bytes → Bytes → Bool
unfolding has_prefix
escapes root_abs joined_abs =
    not (bytes_eq joined_abs root_abs) && not (has_prefix joined_abs (root_abs ++ slash ∷ []))

unfoldable pub safe_join : Result Bytes → Bytes → Bytes → Result Bytes
safe_join getwd root rel = do
  guard (not (bytes_eq rel [])) empty_path
  let c = clean rel
  guard (not (is_unsafe c)) (unsafe_path rel)
  let joined = join root c
  root_abs ← abs getwd root
  joined_abs ← abs getwd joined
  guard (not (escapes root_abs joined_abs)) (escapes_root rel)
  ok joined

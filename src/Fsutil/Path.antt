-- ===== src/Fsutil/Path.antt =====
-- The functions of Go's path/filepath that internal/fsutil/fsutil.go uses, on a Unix system:
-- `Clean`, `IsAbs`, `Join` and `Abs` (`FromSlash` and `ToSlash` change nothing there). A path is
-- cut at its slashes, and the names kept so far are a stack, the innermost name first.
pub mod Names
pub mod Render
use claude_share.Base.{
  ℕ, Bool, true, false, ◌||◌, Bytes, bytes_eq, codes, List, [], ◌∷◌, ◌++◌, ◌==◌, if◌then◌else◌,
  Result, ok, err, ◌>>=◌,
}

abbrev pub slash : ℕ
slash = b'/'

abbrev pub dot : Bytes
dot = codes "."

abbrev pub dotdot : Bytes
dotdot = codes ".."

unfoldable pub is_abs : Bytes → Bool
is_abs [] = false
is_abs (c ∷ s) = c == slash

-- Puts a byte in front of the first part.
pub grow : ℕ → List Bytes → List Bytes
grow c [] = (c ∷ []) ∷ []
grow c (p ∷ ps) = (c ∷ p) ∷ ps

-- The parts between the slashes, empty ones too.
unfoldable pub split_path : Bytes → List Bytes
unfolding grow
split_path [] = [] ∷ []
split_path (c ∷ s) = let rest = split_path s in if c == slash then [] ∷ rest else grow c rest

-- A `..` takes the innermost name off. At the root it is dropped; with no name to take off it
-- stays.
back : Bool → List Bytes → List Bytes
back true [] = []
back false [] = dotdot ∷ []
back rooted (d ∷ st) = if bytes_eq d dotdot then dotdot ∷ d ∷ st else st

-- One part of the path.
pub enter : Bool → List Bytes → Bytes → List Bytes
unfolding back
enter rooted st c =
    if bytes_eq c [] || bytes_eq c dot
    then st
    else if bytes_eq c dotdot
    then back rooted st
    else c ∷ st

-- All parts in turn.
unfoldable pub walk : Bool → List Bytes → List Bytes → List Bytes
unfolding enter
walk rooted st [] = st
walk rooted st (c ∷ cs) = walk rooted (enter rooted st c) cs

-- The names of a stack, with slashes between them.
unfoldable pub render : List Bytes → Bytes
render [] = []
render (c ∷ []) = c
render (c ∷ d ∷ st) = render (d ∷ st) ++ slash ∷ c

-- The text of a cleaned path.
unfoldable pub show : Bool → List Bytes → Bytes
unfolding render
show true st = slash ∷ render st
show false [] = dot
show false (c ∷ st) = render (c ∷ st)

-- The stack of a path.
unfoldable pub names : Bytes → List Bytes
unfolding walk split_path is_abs
names p = walk (is_abs p) [] (split_path p)

-- filepath.Clean
unfoldable pub clean : Bytes → Bytes
unfolding names show
clean p = show (is_abs p) (names p)

-- filepath.Join of two elements: an empty one is left out.
unfoldable pub join : Bytes → Bytes → Bytes
unfolding clean
join [] [] = []
join [] (c ∷ b) = clean (c ∷ b)
join (c ∷ a) [] = clean (c ∷ a)
join (c ∷ a) (d ∷ b) = clean ((c ∷ a) ++ slash ∷ d ∷ b)

-- filepath.Abs, with the result of os.Getwd.
unfoldable pub abs : Result Bytes → Bytes → Result Bytes
unfolding clean join
abs getwd p = if is_abs p then ok (clean p) else do wd ← getwd; ok (join wd p)

-- ===== src/Localfs/Open.antt =====
-- Open, Manifest and ignored of internal/adapters/localfs/localfs.go. The matcher of ignore lines is
-- a parameter, and so are the answers of the file system.
use claude_share.Base.{
  ℕ, Bool, false, Bytes, codes, Option, none, some, List, [], ◌++◌, Result, ok, err, foreign, ◌>>=◌,
  ◌>>◌, guard,
}
use claude_share.Domain.{Manifest}
use claude_share.Fsutil.Path.{abs, join}
use claude_share.Fsutil.Walk.{Node, walk_manifest}
use claude_share.Localfs.{split_lines}

-- `Project`; `ig` is the compiled matcher, a nil pointer if there is none.
pub record Project : Type 0 where
  pub root : Bytes
  pub ig : Option (Bytes → Bool)
  pub max_file_size : ℕ
  pub max_total : ℕ

-- What os.Stat says of a path (whether it is a directory), and what os.ReadFile reads.
pub record Answers : Type 0 where
  pub stat : Bytes → Result Bool
  pub read : Bytes → Result Bytes

-- The lines of an ignore file; one that cannot be read has none.
lines_in : Result Bytes → List Bytes
unfolding split_lines
lines_in (ok b) = split_lines b
lines_in (err _) = []

unfoldable pub ignore_lines : (Bytes → Result Bytes) → Bytes → List Bytes
unfolding lines_in join
ignore_lines read root =
    lines_in (read (join root (codes ".gitignore")))
    ++ lines_in (read (join root (codes ".claudeshareignore")))

unfoldable pub open_project :
    Result Bytes → Answers → (List Bytes → Bytes → Bool) → Bytes → ℕ → ℕ → Result Project
unfolding abs ignore_lines
open_project getwd answers compile root max_file_size max_total = do
  path ← abs getwd root
  is_dir ← answers.stat path
  guard is_dir (foreign (codes "invalid argument"))
  ok (record {
    root = path;
    ig = some (compile (ignore_lines answers.read path));
    max_file_size = max_file_size;
    max_total = max_total;
  })

unfoldable pub is_ignored : Project → Bytes → Bool → Bool
is_ignored p rel is_dir = elim p.ig [ none ↦ false | some matches ↦ matches rel ]

-- `Project.Manifest`, of the tree that is found at the root.
unfoldable pub project_manifest : (Bytes → Bytes) → Project → Result Node → Result Manifest
unfolding walk_manifest is_ignored
project_manifest sum p node =
    walk_manifest sum
      (record {
        ignore = some (is_ignored p);
        max_file_size = p.max_file_size;
        max_total_size = p.max_total;
      })
      node

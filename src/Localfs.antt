-- ===== src/Localfs.antt =====
-- internal/adapters/localfs/localfs.go: the changes that the client applies to its project, and
-- the lines of an ignore file. The files of the disk are named by their whole paths; directories
-- and file modes are not part of it, so making a directory and setting a mode are calls that may
-- fail and change no file.
pub mod Open
pub mod Limits
pub mod Atomic
pub mod Applied
use claude_share.Base.{
  ℕ, Bool, true, false, not, ◌&&◌, Bytes, bytes_eq, codes, Option, none, some, List, [], ◌∷◌, ◌++◌,
  if◌then◌else◌, ◌==◌, Error, Result, ok, err, foreign,
}
use claude_share.Base.Exec.{Exec, pure, fail, lift, ◌>>=◌, ◌>>◌}
use claude_share.Base.Disk.{
  Disk, World, create_temp, write, close, rename, remove, read_file, tick, is_not_exist,
}
use claude_share.Domain.{FileChange, change_delete}
use claude_share.Fsutil.Path.{clean, join, slash}
use claude_share.Fsutil.SafeJoin.{safe_join}

-- What stands before the last slash, with it.
unfoldable pub up_to_slash : Bytes → Bytes
up_to_slash [] = []
up_to_slash (c ∷ b) =
    let rest = up_to_slash b in
    if c == slash then c ∷ rest else elim rest [ [] ↦ [] | d ∷ r ↦ c ∷ d ∷ r ]

-- filepath.Dir
unfoldable pub dir_of : Bytes → Bytes
unfolding up_to_slash
dir_of path = clean (up_to_slash path)

-- What os.CreateTemp puts before the random part of the name.
unfoldable pub temp_prefix : Bytes → Bytes
unfolding dir_of
temp_prefix path = join (dir_of path) (codes ".claude-share-")

module _ (w : World) where
  -- A call that changes no file: os.MkdirAll, os.Chmod.
  abbrev untouched : Exec Disk Unit
  untouched d = elim (w.faults d.time) [ some e ↦ (err e, tick d) | none ↦ (ok tt, tick d) ]

  -- The deferred os.Remove; its own result is dropped.
  abbrev deferring_remove : Bytes → Exec Disk Unit → Exec Disk Unit
  deferring_remove name m d = let (r, d') = m d in (r, (remove w name d').1)

  -- os.Remove, where a missing file is no error.
  remove_file : Bytes → Exec Disk Unit
  remove_file path d =
      let (r, d') = remove w path d in
      elim r [ ok _ ↦ (ok tt, d') | err e ↦ if is_not_exist e then (ok tt, d') else (err e, d') ]

  -- The writes of `Apply`, from the temporary file on.
  replace : Bytes → Bytes → Bytes → Exec Disk Unit
  replace path content tmp = do write w tmp content; close w; untouched; rename w tmp path

  write_file : Bytes → Bytes → Exec Disk Unit
  unfolding replace temp_prefix
  write_file path content = do
    untouched
    tmp ← create_temp w (temp_prefix path)
    deferring_remove tmp (replace path content tmp)

  unfoldable pub apply : Result Bytes → Bytes → FileChange → Bytes → Exec Disk Unit
  unfolding safe_join remove_file write_file
  apply getwd root ch content = do
    path ← lift (safe_join getwd root ch.path)
    if bytes_eq ch.op change_delete then remove_file path else write_file path content

  -- `Project.ReadFile`
  unfoldable pub read_project_file : Result Bytes → Bytes → Bytes → Exec Disk Bytes
  unfolding safe_join
  read_project_file getwd root rel = do path ← lift (safe_join getwd root rel); read_file w path

abbrev is_nil : Bytes → Bool
is_nil [] = true
is_nil (c ∷ b) = false

-- A carriage return at the end goes.
unfoldable pub trim_return : Bytes → Bytes
trim_return [] = []
trim_return (c ∷ b) = let rest = trim_return b in if is_nil b && c == b'\r' then [] else c ∷ rest

-- splitLines: `cur` is the part of the line that has been read.
unfoldable pub split_from : Bytes → Bytes → List Bytes
unfolding trim_return
split_from cur [] = if is_nil cur then [] else cur ∷ []
split_from cur (c ∷ b) =
    let ended = split_from [] b in
    let longer = split_from (cur ++ c ∷ []) b in
    if c == b'\n' then trim_return cur ∷ ended else longer

unfoldable pub split_lines : Bytes → List Bytes
unfolding split_from
split_lines b = split_from [] b

-- ===== src/Fsutil/Walk.antt =====
-- WalkManifest of internal/fsutil/fsutil.go. A tree of files is what filepath.WalkDir meets of it:
-- the entries of each directory in lexical order, with the errors of reading them.
pub mod Listed
pub mod Readable
pub mod Bounds
use claude_share.Base.{
  ℕ, Bool, true, false, ◌&&◌, ◌||◌, Bytes, bytes_eq, codes, Option, none, some, List, [], ◌∷◌, ◌++◌,
  if◌then◌else◌, Error, Result, ok, err, file_too_large, project_too_large,
}
use claude_share.Base.Int64.{lt64, add64}
use claude_share.Base.Sort.{sort}
use claude_share.Base.Exec.{Exec, pure, fail, lift, modify, gets, ◌>>=◌, ◌>>◌}
use claude_share.Domain.{FileEntry, Manifest, FileMode}
use claude_share.Fsutil.Hash.{hash_content}

-- `info.Size()` and `info.Mode().Perm()`.
pub record Info : Type 0 where
  pub size : ℕ
  pub perm : FileMode

mutual
  pub data Node : Type 0 where
    -- a regular file: the results of Info and of ReadFile
    regular : Result Info → Result Bytes → Node
    -- a symbolic link, a socket, a device
    other : Node
    -- a directory, and the error of reading it
    dir : Option Error → Entries → Node

  pub data Entries : Type 0 where
    end : Entries
    entry : Bytes → Node → Entries → Entries

pub record WalkOptions : Type 0 where
  pub ignore : Option (Bytes → Bool → Bool)
  pub max_file_size : ℕ
  pub max_total_size : ℕ

-- DefaultIgnoredDirs
unfoldable pub default_ignored : Bytes → Bool
default_ignored name =
    bytes_eq name (codes ".git")
    || (bytes_eq name (codes "node_modules") || bytes_eq name (codes ".claude"))

-- The variables of WalkManifest.
pub record Walk : Type 0 where
  pub entries : List FileEntry
  pub total : ℕ

-- `limit > 0 && n > limit`
unfoldable pub exceeds : ℕ → ℕ → Bool
exceeds limit n = lt64 0 limit && lt64 limit n

module _ (sum : Bytes → Bytes) (opts : WalkOptions) where
  abbrev ignored : Bytes → Bool → Bool
  ignored rel is_dir = elim opts.ignore [ none ↦ false | some f ↦ f rel is_dir ]

  abbrev check : Bool → Error → Exec Walk Unit
  check bad e st = if bad then (err e, st) else (ok tt, st)

  -- What the callback does with a regular file that is not ignored.
  unfoldable pub add_file : Bytes → Result Info → Result Bytes → Exec Walk Unit
  add_file rel info content = do
    i ← lift info
    check (exceeds opts.max_file_size i.size) (file_too_large rel)
    modify λ st. record st { total = add64 st.total i.size }
    total ← gets λ st. st.total
    check (exceeds opts.max_total_size total) project_too_large
    b ← lift content
    modify λ st. record st {
      entries =
          st.entries
          ++ record { path = rel; hash = hash_content sum b; size = i.size; mode = i.perm } ∷ [];
    }

  unfoldable pub skips_dir : Bytes → Bytes → Bool
  unfolding default_ignored
  skips_dir rel name = default_ignored name || ignored (rel ++ codes "/") true

  unfoldable mutual
    -- `prefix` is the path of the directory with a slash at its end, and empty for the root.
    pub walk_entries : Bytes → Entries → Exec Walk Unit
    walk_entries prefix end = pure tt
    walk_entries prefix (entry name node es) =
        let rest = walk_entries prefix es in do walk_node (prefix ++ name) name node; rest

    pub walk_node : Bytes → Bytes → Node → Exec Walk Unit
    walk_node rel name other = pure tt
    walk_node rel name (regular info content) =
        if ignored rel false then pure tt else add_file rel info content
    walk_node rel name (dir failure es) =
        let inside = walk_entries (rel ++ codes "/") es in
        if skips_dir rel name then pure tt else elim failure [ some e ↦ fail e | none ↦ inside ]

  -- The callback does nothing at the root itself.
  walk_root : Result Node → Exec Walk Unit
  unfolding walk_entries
  walk_root (err e) = fail e
  walk_root (ok (dir (some e) es)) = fail e
  walk_root (ok (dir none es)) = walk_entries [] es
  walk_root (ok other) = pure tt
  walk_root (ok (regular info content)) = pure tt

  unfoldable pub walk_manifest : Result Node → Result Manifest
  unfolding walk_root sort
  walk_manifest root =
      let (r, st) = walk_root root (record { entries = []; total = 0 }) in
      elim r [
        | err e ↦ err e
        | ok _ ↦ ok (record { entries = sort (λ (e : FileEntry). e.path) st.entries })
      ]

-- ===== src/Fsstore/Workspace.antt =====
-- internal/adapters/workspace/fsstore/workspace.go. The files of the disk are named by their whole
-- paths; making a directory is a call that may fail and changes no file, and the modes of files are
-- not part of the disk. `Snapshot` is WalkManifest without options.
pub mod Written
use claude_share.Base.{Bytes, List, [], ◌∷◌, Option, none, some, Error, Result, ok, err}
use claude_share.Base.Exec.{Exec, pure, lift, ◌>>=◌, ◌>>◌}
use claude_share.Base.Disk.{Disk, World, write, read_file, tick}
use claude_share.Domain.{FileEntry, Manifest}
use claude_share.Fsutil.SafeJoin.{safe_join}
use claude_share.Fsutil.Walk.{Node, WalkOptions, walk_manifest}

-- os.RemoveAll and os.MkdirAll are parameters. A `Workspace` is its directory.
module _ {S : Type 0} (remove_all make_all : Bytes → Exec S Unit) where
  unfoldable pub new_workspace : Bytes → Exec S Bytes
  new_workspace dir = do remove_all dir; make_all dir; pure dir

  unfoldable pub remove : Bytes → Exec S Unit
  remove dir = remove_all dir

-- A call on the workspace's disk, and one on the blob store.
abbrev pub on_disk : {B A : Type 0} → Exec Disk A → Exec (B × Disk) A
on_disk m (b, d) = let (r, d') = m d in (r, (b, d'))

abbrev pub on_blobs : {B A : Type 0} → Exec B A → Exec (B × Disk) A
on_blobs m (b, d) = let (r, b') = m b in (r, (b', d))

module _ (w : World) (getwd : Result Bytes) (dir : Bytes) where
  abbrev pub make_dirs : Exec Disk Unit
  make_dirs d = elim (w.faults d.time) [ some e ↦ (err e, tick d) | none ↦ (ok tt, tick d) ]

  unfoldable pub read_workspace_file : Bytes → Exec Disk Bytes
  unfolding safe_join
  read_workspace_file path = do p ← lift (safe_join getwd dir path); read_file w p

-- `get` is the store's Get.
module _ {B : Type 0} (get : Bytes → Exec B Bytes) (w : World) (getwd : Result Bytes)
    (dir : Bytes) where
  -- One round of the loop of `Materialize`.
  write_entry : FileEntry → Exec (B × Disk) Unit
  unfolding safe_join
  write_entry e = do
    dst ← lift (safe_join getwd dir e.path)
    on_disk (make_dirs w getwd dir)
    content ← on_blobs (get e.hash)
    on_disk (write w dst content)

  write_entries : List FileEntry → Exec (B × Disk) Unit
  unfolding write_entry
  write_entries [] = pure tt
  write_entries (e ∷ es) = do write_entry e; write_entries es

  unfoldable pub materialize : Manifest → Exec (B × Disk) Unit
  unfolding write_entries
  materialize m = write_entries m.entries

unfoldable pub snapshot : (Bytes → Bytes) → Result Node → Result Manifest
unfolding walk_manifest
snapshot sum root =
    walk_manifest sum (record { ignore = none; max_file_size = 0; max_total_size = 0 }) root

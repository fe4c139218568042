-- ===== src/EndToEnd/Sync.antt =====
-- The upload of a project into a workspace: StartSession, a PutBlob for each hash that it asks for,
-- and SyncDone of internal/core/app/session.go, for the service that cmd/server/main.go makes.
pub mod Uploaded
pub mod Restored
use claude_share.Base.{◌≡◌, true, Bytes, List, [], ◌∷◌, Option, none, some, Result, ok, All}
use claude_share.Base.Exec.{Exec, pure, ◌>>=◌, ◌>>◌}
use claude_share.Base.Disk.{Disk, World}
use claude_share.Domain.{Manifest, FileEntry}
use claude_share.Fsutil.Hash.{hash_content}
use claude_share.Fsutil.SafeJoin.{safe_join}
use claude_share.Fsstore.Blobs.{valid_hash}
use claude_share.Fsstore.Blobs.Atomic.{IsAddressed}
use claude_share.Fsstore.Blobs.Working.{IsSettled}
use claude_share.Session.{Deps, Service, start_session, put_blob, sync_done}
use claude_share.Session.Missing.{has_hash}
use claude_share.Programs.Server.{Flags, workspace_dir}
use claude_share.Programs.Server.Wiring.{Others, Machine}

module _ (p : Deps) (text : Bytes → Bytes) where
  -- The blobs that a client uploads: `text` is the content that it has for a hash.
  unfoldable pub put_blobs : List Bytes → Exec (Service p) Unit
  put_blobs [] = pure tt
  put_blobs (h ∷ hs) = do put_blob p h (text h); put_blobs hs

  unfoldable pub sync : Bytes → Manifest → Exec (Service p) Bytes
  unfolding put_blobs
  sync name m = do hs ← start_session p name m; put_blobs hs; sync_done p

-- A project that can be uploaded: its hashes are those of its contents, and its paths are safe in
-- the workspace.
pub record CanSync (sum : Bytes → Bytes) (getwd : Result Bytes) (dir : Bytes) (m : Manifest)
    (text : Bytes → Bytes) : Type 0 where
  pub valid : All (λ (e : FileEntry). valid_hash e.hash ≡ true) m.entries
  pub right : (h : Bytes) → has_hash h m.entries ≡ true → hash_content sum (text h) ≡ h
  pub safe :
      All (λ (e : FileEntry). (dst : Bytes) × (safe_join getwd dir e.path ≡ ok dst)) m.entries

-- What is relied on of the calls on directories and of the agent: they succeed, and an agent that
-- is started has not written a file.
pub record Starts (q : Others) : Type 0 where
  pub removes : (dir : Bytes) (d : Disk) → (q.remove_all dir d).0 ≡ ok tt
  pub makes : (dir : Bytes) (d : Disk) → (q.make_all dir d).0 ≡ ok tt
  pub starts :
      (id dir : Bytes) (d : Disk) (o : q.State)
      → (a : q.Agent) × (o' : q.State) × (q.start id dir (d, o) ≡ (ok a, (d, o')))

-- A store in order: every blob has the hash that is its name, and none is being written.
pub record InOrder (sum : Bytes → Bytes) (b : World) (d : Disk) : Type 0 where
  pub addressed : IsAddressed sum d
  pub settled : IsSettled b d

-- The disk of the workspaces when the directory was emptied and made.
abbrev pub emptied : (q : Others) → Bytes → Disk → Disk
emptied q dir d = (q.make_all dir (q.remove_all dir d).1).1

-- A file has a content of the hash of its entry, and is the old one if there is no entry.
abbrev pub IsRestored : (Bytes → Bytes) → Option FileEntry → Option Bytes → Option Bytes → Type 0
IsRestored sum none old new = new ≡ old
IsRestored sum (some e) old new = (c : Bytes) × (new ≡ some c) × (hash_content sum c ≡ e.hash)

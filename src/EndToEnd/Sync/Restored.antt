-- ===== src/EndToEnd/Sync/Restored.antt =====
-- What a sync leaves in the workspace.
use claude_share.Base.{
  ℕ, ◌≡◌, refl, ap, ◌∙◌, inl, inr, true, Bytes, bytes_eq_iff, Option, none, some, List, [], ◌∷◌,
  Result, ok, All, arith, Option-cases,
}
use claude_share.Base.Dict
use claude_share.Base.Dict.{Dict, bytes_key}
use claude_share.Base.Disk.{Disk, World}
use claude_share.Domain.{Manifest, FileEntry}
use claude_share.Fsutil.SafeJoin.{safe_join}
use claude_share.Fsstore.Blobs
use claude_share.Fsstore.Blobs.{valid_hash}
use claude_share.Fsstore.Blobs.Working.{bytes_of, get_run, get_files, get_reads}
use claude_share.Fsstore.Workspace
use claude_share.Fsstore.Workspace.Written.{
  Serves, IsStored, last_to, text_or, final_content-last_to, materialize_writes,
  materialize_succeeds,
}
use claude_share.Session.{Deps, Service, sync_done}
use claude_share.Session.Missing.{has_hash}
use claude_share.Session.Lifecycle.{sync_done_run}
use claude_share.Programs.Server.{Flags, workspace_dir}
use claude_share.Programs.Server.Wiring.{Others, Machine, deps}
use claude_share.EndToEnd.Sync.Uploaded.{Holds, uploaded}
use claude_share.EndToEnd.Sync.{sync, CanSync, Starts, InOrder, IsRestored, emptied}

last_to-has_hash :
    (getwd : Result Bytes) (dir k : Bytes) (es : List FileEntry) (e : FileEntry)
    → last_to getwd dir k es ≡ some e
    → has_hash e.hash es ≡ true
unfolding last_to has_hash
last_to-has_hash getwd dir k [] e h = cc h
last_to-has_hash getwd dir k (f ∷ es) e h = elim (Option-cases (last_to getwd dir k es)) [
  | inr (g, q) ↦ ground (arith, h, q, last_to-has_hash getwd dir k es g q)
  | inl q ↦ ground (arith, h, q, bytes_eq_iff f.hash e.hash)
]

IsStored-All :
    (getwd : Result Bytes) (dir : Bytes) (Has : Bytes → Type 0) (es : List FileEntry)
    → ((h : Bytes) → has_hash h es ≡ true → Has h)
    → All (λ (e : FileEntry). (dst : Bytes) × (safe_join getwd dir e.path ≡ ok dst)) es
    → All (IsStored getwd dir Has) es
unfolding has_hash IsStored
IsStored-All getwd dir Has [] has safe = tt
IsStored-All getwd dir Has (e ∷ es) has (one, safe) = (
  (one, has e.hash (ground (arith, bytes_eq_iff e.hash e.hash))),
  IsStored-All getwd dir Has es (λ h a. has h (ground (arith, a))) safe,
)

module _ (sum : Bytes → Bytes) (b w : World) (getwd : Result Bytes) (flags : Flags) (q : Others)
    (works : (t : ℕ) → b.faults t ≡ none) where
  abbrev p : Deps
  p = deps sum b w getwd flags q

  -- What the store returns for a hash after that.
  abbrev text_in : Disk → Bytes → Bytes
  text_in d h = bytes_of (Dict.get h d.files)

  abbrev store-Serves : (d : Disk) → Serves (Blobs.get sum b) (text_in d)
  store-Serves d = record {
    Same = λ b'. b'.files ≡ d.files;
    got = λ h c b' same r. read_text h c b' same (get_reads sum b h c b' r);
    kept = λ h b' same. get_files sum b h b' ∙ same;
  }
    where
      read_text :
          (h c : Bytes) (b' : Disk)
          → b'.files ≡ d.files
          → Dict.get h b'.files ≡ some c
          → c ≡ text_in d h
      read_text h c b' same r = rw (← same, r) refl

  abbrev Has : Disk → Bytes → Type 0
  Has d h = (valid_hash h ≡ true) × (c : Bytes) × (Dict.get h d.files ≡ some c)

  store_gives :
      (d : Disk) (h : Bytes) (b' : Disk)
      → Has d h
      → b'.files ≡ d.files
      → (Blobs.get sum b h b').0 ≡ ok (text_in d h)
  store_gives d h b' (valid, c, found) same =
      rw (get_run sum b works h c b' valid (rw same found), found) refl

  module _ (starts : Starts q) (works' : (t : ℕ) → w.faults t ≡ none) where
    new_workspace_run :
        (dir : Bytes) (d : Disk)
        → Workspace.new_workspace q.remove_all q.make_all dir d ≡ (ok dir, emptied q dir d)
    unfolding Workspace.new_workspace
    new_workspace_run dir d =
        rw (starts.removes dir d, starts.makes dir (q.remove_all dir d).1) refl

    materialize_restores :
        (m : Manifest) (dir : Bytes) (d disk : Disk)
        → Holds sum b w getwd flags q works m.entries d
        → All (λ (e : FileEntry). (dst : Bytes) × (safe_join getwd dir e.path ≡ ok dst)) m.entries
        → let (r, (_, disk')) = Workspace.materialize (Blobs.get sum b) w getwd dir m (d, disk) in
          (r ≡ ok tt)
          × ((k : Bytes)
              → IsRestored sum
                  (last_to getwd dir k m.entries)
                  (Dict.get k disk.files)
                  (Dict.get k disk'.files))
    materialize_restores m dir d disk holds safe =
        let has : (h : Bytes) → has_hash h m.entries ≡ true → Has d h =
          λ h a. ((holds h a).0, (holds h a).1, (holds h a).2) in
        let run : (Workspace.materialize (Blobs.get sum b) w getwd dir m (d, disk)).0 ≡ ok tt =
          materialize_succeeds (Blobs.get sum b) (text_in d) (store-Serves d) (Has d)
            (store_gives d) w works' getwd dir m d disk
            (IsStored-All getwd dir (Has d) m.entries has safe) refl in
        let disk' = (Workspace.materialize (Blobs.get sum b) w getwd dir m (d, disk)).1.1 in
        (
          run,
          λ k. of_last k (Dict.get k disk.files) (Dict.get k disk'.files) (
              materialize_writes (Blobs.get sum b) (text_in d) (store-Serves d) w getwd dir k m d
                disk refl run
              ∙ final_content-last_to getwd dir (text_in d) k m.entries (Dict.get k disk.files)),
        )
      where
        of_last :
            (k : Bytes) (old new : Option Bytes)
            → new ≡ text_or (text_in d) (last_to getwd dir k m.entries) old
            → IsRestored sum (last_to getwd dir k m.entries) old new
        of_last k old new h = elim (Option-cases (last_to getwd dir k m.entries)) [
          | inl r ↦ rw r (rw r at h)
          | inr (e, r) ↦
              let (valid, c, found, right) =
                holds e.hash (last_to-has_hash getwd dir k m.entries e r) in
              rw r (c, (rw (r, found) at h), right)
        ]

    sync_done_restores :
        (v : Service p)
        → v.agent ≡ none
        → Holds sum b w getwd flags q works v.manifest.entries v.outside.store
        → let id = (q.new_id v.outside.rest).0 in
          let dir = workspace_dir flags id in
          All
            (λ (e : FileEntry). (dst : Bytes) × (safe_join getwd dir e.path ≡ ok dst))
            v.manifest.entries
          → let (r, v') = sync_done p v in
            (r ≡ ok id)
            × ((k : Bytes)
                → IsRestored sum
                    (last_to getwd dir k v.manifest.entries)
                    (Dict.get k (emptied q dir v.outside.work).files)
                    (Dict.get k v'.outside.work.files))
    sync_done_restores v fresh holds safe =
        let (id, o) = q.new_id v.outside.rest in
        let dir = workspace_dir flags id in
        let disk = emptied q dir v.outside.work in
        let (run, restored) = materialize_restores v.manifest dir v.outside.store disk holds safe in
        let disk' =
          (Workspace.materialize (Blobs.get sum b) w getwd dir v.manifest
            (v.outside.store, disk)).1.1 in
        let (a, o', started) = starts.starts id dir disk' o in
        let made = new_workspace_run dir v.outside.work in
        let (answer, after) =
          sync_done_run p v dir a fresh (rw made refl) (rw made run)
            (rw made (ap (λ (x : Result q.Agent × (Disk × q.State)). x.0) started)) in
        let kept : (sync_done p v).1.outside.work ≡ disk' =
          ap (λ (x : Machine q). x.work) after
          ∙ (rw made (ap (λ (x : Result q.Agent × (Disk × q.State)). x.1.0) started)) in
        (answer, λ k. rw kept (restored k))

    -- A sync restores the project in the workspace: where no call fails, StartSession, a PutBlob for
    -- each hash that it asks for and SyncDone succeed with the id of the session; then each file to
    -- which a path of the manifest leads has a content of the hash that the last such entry has,
    -- and any other file is as the new workspace had it. This is for a store whose blobs have the
    -- hashes that are their names, a project with the hashes of its contents and safe paths, and an
    -- agent that has written nothing when it starts.
    pub sync_restores :
        (name : Bytes) (m : Manifest) (text : Bytes → Bytes) (v : Service p)
        → let id = (q.new_id v.outside.rest).0 in
          let dir = workspace_dir flags id in
          CanSync sum getwd dir m text
          → InOrder sum b v.outside.store
          → v.agent ≡ none
          → let (r, v') = sync p text name m v in
            (r ≡ ok id)
            × ((k : Bytes)
                → IsRestored sum
                    (last_to getwd dir k m.entries)
                    (Dict.get k (emptied q dir v.outside.work).files)
                    (Dict.get k v'.outside.work.files))
    sync_restores name m text v can order fresh =
        let dir = workspace_dir flags (q.new_id v.outside.rest).0 in
        let (d, run, holds) = uploaded sum b w getwd flags q works name m text v dir can order in
        rw run (
          sync_done_restores (record v { manifest = m; outside = record v.outside { store = d } })
            fresh holds can.safe)

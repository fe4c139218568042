-- ===== src/EndToEnd/Turn.antt =====
-- A turn from the server's workspace to the client's project: finishTurn of
-- internal/core/app/session.go, Diff of internal/fsutil/fsutil.go, readLoop of
-- internal/core/clientapp/clientapp.go and Apply of internal/adapters/localfs/localfs.go.
use claude_share.Base.{
  ◌≡◌, ◌≢◌, ◌⊎◌, inl, inr, refl, ◌∙◌, true, false, Bytes, bytes_eq, bytes_eq_iff, bytes_eq_refl,
  Option, none, some, List, [], ◌∷◌, ◌++◌, map, arith, Result, ok, All, append-nil, ℕ,
}
use claude_share.Base.Dict
use claude_share.Base.Dict.{bytes_key}
use claude_share.Base.Sort.{find, find-key}
use claude_share.Base.Disk.{Disk, World}
use claude_share.Domain.{
  Manifest, FileEntry, FileChange, TurnResult, change_create, change_modify, change_delete,
}
use claude_share.Domain.ByPath.{entry_path, entry_at, IsManifest}
use claude_share.Fsutil.Diff.{diff}
use claude_share.Fsutil.Diff.Find.{change_path, change_of, find-diff}
use claude_share.Fsutil.Diff.Order.{diff-IsSorted}
use claude_share.Localfs.Applied.{HasNoTemp}
use claude_share.Session.{Deps, Service, finish_turn}
use claude_share.Session.Turn.{Pushes, with_content, finish_turn_pushes}
use claude_share.ClientApp.{Ports, App, read_loop}
use claude_share.ClientApp.Converges.{OnDisk, Placed, messages, outcome, read_loop-Made}

-- The path is in one of the two trees.
abbrev pub IsListed : Manifest → Manifest → Bytes → Type 0
IsListed old_m new_m k = (entry_at k old_m ≢ none) ⊎ (entry_at k new_m ≢ none)

-- The file of an entry, where the tree has one.
abbrev pub file_of : Bytes → Option FileEntry → Option Bytes
file_of content none = none
file_of content (some e) = some content

All-of_find :
    {P : Bytes → Type 0} (cs : List FileChange)
    → ((k : Bytes) → find change_path k cs ≢ none → P k)
    → All (λ c. P c.path) cs
unfolding find
All-of_find [] h = tt
All-of_find {P} (c ∷ cs) h = (
  h c.path (rw (bytes_eq_refl c.path) (λ e. cc e)),
  All-of_find {P = P} cs (λ k hit. h k (ground (arith, hit))),
)

change_of_listed : (o n : Option FileEntry) → change_of o n ≢ none → (o ≢ none) ⊎ (n ≢ none)
change_of_listed none none h = absurd (h refl)
change_of_listed none (some e) h = inr (λ x. cc x)
change_of_listed (some p) n h = inl (λ x. cc x)

create_is_no_delete : bytes_eq change_create change_delete ≡ false
unfolding bytes_eq
create_is_no_delete = refl

modify_is_no_delete : bytes_eq change_modify change_delete ≡ false
unfolding bytes_eq
modify_is_no_delete = refl

-- What the change of two entries makes of the first one's file is the second one's.
outcome-change_of :
    (text : Bytes → Bytes) (old k : Bytes) (o n : Option FileEntry)
    → ((e : FileEntry) → n ≡ some e → e.path ≡ k)
    → ((p e : FileEntry) → o ≡ some p → n ≡ some e → p.hash ≡ e.hash → old ≡ text k)
    → outcome text (change_of o n) (file_of old o) ≡ file_of (text k) n
outcome-change_of text old k none none at same = refl
outcome-change_of text old k none (some e) at same = ground (arith, at e refl, create_is_no_delete)
outcome-change_of text old k (some p) none at same = rw (bytes_eq_refl change_delete) refl
outcome-change_of text old k (some p) (some e) at same =
    ground (arith, modify_is_no_delete, at e refl, same p e refl refl, bytes_eq_iff p.hash e.hash)

module _ (p : Ports) (w : World) (getwd : Result Bytes) (root : Bytes) (on : OnDisk p w getwd root)
    (stream : FileChange → ℕ) (old_text text : Bytes → Bytes) (old_m new_m : Manifest)
    (ho : IsManifest old_m) (hn : IsManifest new_m)
    (at : Placed w getwd root (IsListed old_m new_m)) where
  changes_listed : All (λ c. IsListed old_m new_m c.path) (diff old_m new_m)
  changes_listed = All-of_find {P = IsListed old_m new_m} (diff old_m new_m) (λ k hit.
      change_of_listed (entry_at k old_m) (entry_at k new_m)
        (λ e. hit (find-diff k old_m new_m ho hn ∙ e)))

  -- The client holds the old tree, and a file whose hash is unchanged has unchanged content.
  pub record InSync (d : Disk) : Type 0 where
    pub no_temp : HasNoTemp w d
    pub holds :
        (k : Bytes)
        → IsListed old_m new_m k
        → Dict.get (at.place k) d.files ≡ file_of (old_text k) (entry_at k old_m)
    pub same_content :
        (k : Bytes) (o e : FileEntry)
        → entry_at k old_m ≡ some o
        → entry_at k new_m ≡ some e
        → o.hash ≡ e.hash
        → old_text k ≡ text k

  -- The client's files after it handled the messages of a log.
  abbrev pub after_messages : List (FileChange × Bytes) → App p → Disk
  after_messages log s = on.disk (read_loop p (messages p w getwd root on stream log) s).1.outside

  -- The listed paths hold the new tree, and no other file is touched.
  abbrev pub IsConverged : Disk → Disk → Type 0
  IsConverged d d' =
      ((k : Bytes)
        → IsListed old_m new_m k
        → Dict.get (at.place k) d'.files ≡ file_of (text k) (entry_at k new_m))
      × ((f : Bytes)
          → ((k : Bytes) → IsListed old_m new_m k → at.place k ≢ f)
          → Dict.get f d'.files ≡ Dict.get f d.files)

  read_loop-IsConverged :
      (s : App p)
      → s.reading ≡ true
      → InSync (on.disk s.outside)
      → IsConverged
          (on.disk s.outside)
          (after_messages (map (with_content text) (diff old_m new_m)) s)
  read_loop-IsConverged s reads sync =
      let (made, _, _) =
        read_loop-Made p w getwd root on stream text at (diff old_m new_m) s reads sync.no_temp
          (diff-IsSorted old_m new_m ho hn).1 changes_listed in
      (
        λ k listed.
            made.0 k listed
            ∙ (rw (find-diff k old_m new_m ho hn, sync.holds k listed)
                (outcome-change_of text (old_text k) k (entry_at k old_m) (entry_at k new_m)
                  (λ e h. find-key entry_path k e new_m.entries h) (sync.same_content k))),
        made.1,
      )

  -- A turn that finishes without an error has pushed a log of changes after whose messages the
  -- client's project is the new tree: for two trees that list each path once, a workspace whose
  -- files do not change while the turn is finished, a client whose reader runs and that is in sync
  -- with the baseline of the turn, has no file under a name that CreateTemp may choose, and finds
  -- equal hashes only on equal contents, and paths that SafeJoin sends to different files, none
  -- with such a name, on a disk on which no call fails, every path of the two trees holds the content
  -- that the workspace has for it if the new tree lists it, or no file if not, all other files are as
  -- they were, and the baseline is the new tree.
  pub finish_turn-IsConverged :
      (q : Deps) (ws : q.Workspace) (n : Pushes q ws text) (res : Option TurnResult) (v : Service q)
      (s : App p)
      → n.Same v.outside
      → v.pre_turn ≡ old_m
      → (q.snapshot ws v.outside).0 ≡ ok new_m
      → (finish_turn q ws res v).0 ≡ ok tt
      → s.reading ≡ true
      → InSync (on.disk s.outside)
      → (log : List (FileChange × Bytes)) × (n.log (finish_turn q ws res v).1.outside
          ≡ n.log v.outside ++ log)
        × ((finish_turn q ws res v).1.pre_turn ≡ new_m)
        × IsConverged (on.disk s.outside) (after_messages log s)
  finish_turn-IsConverged q ws n res v s same base snap finished reads sync =
      elim (finish_turn_pushes q ws text n res v same) [
        | inl (e, h, _, _, _) ↦ cc (snap, h)
        | inr (after, done, left, h, parts, log, inr (_, e, failed, _)) ↦ cc (finished, failed)
        | inr (after, done, left, h, parts, log, inl (nil, pre, _, _)) ↦
            let this : after ≡ new_m = cc (snap, h) in
            let all : diff old_m new_m ≡ done =
              rw (← base, ← this) (parts ∙ rw nil (append-nil done)) in
            (
              map (with_content text) done,
              log,
              pre ∙ this,
              rw (← all) (read_loop-IsConverged s reads sync),
            )
      ]

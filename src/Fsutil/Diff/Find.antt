-- ===== src/Fsutil/Diff/Find.antt =====
-- What `Diff` says of each path.
use claude_share.Base.{
  bytes_eq, ◌&&◌, ◌==◌, ◌≡◌, refl, Bytes, bytes_eq_iff, Option, none, some, List, [], ◌∷◌, ◌++◌,
  if◌then◌else◌, arith,
}
use claude_share.Base.Dict
use claude_share.Base.Dict.{Dict, bytes_key}
use claude_share.Base.Sort.{find, NodupKeys, find-sort}
use claude_share.Domain.{
  change_create, change_modify, change_delete, FileEntry, Manifest, by_path, FileChange,
}
use claude_share.Domain.ByPath.{entry_path, entry_at, IsManifest, or_else, get-by_path}
use claude_share.Fsutil.Diff.{create, modify, remove, differs, upserts, deletions, diff}

abbrev pub change_path : FileChange → Bytes
change_path c = c.path

abbrev upsert_of : Option FileEntry → FileEntry → Option FileChange
upsert_of none e = some (create e)
upsert_of (some prev) e = if differs prev e then some (modify e) else none

abbrev deletion_of : Option FileEntry → FileEntry → Option FileChange
deletion_of none p = some (remove p)
deletion_of (some _) p = none

-- The change that turns the first entry of a path into the second.
abbrev pub change_of : Option FileEntry → Option FileEntry → Option FileChange
change_of none none = none
change_of none (some e) =
    some (record { op = change_create; path = e.path; hash = e.hash; mode = e.mode })
change_of (some p) none = some (record { op = change_delete; path = p.path; hash = []; mode = 0 })
change_of (some p) (some e) =
    if bytes_eq p.hash e.hash && p.mode == e.mode
    then none
    else some (record { op = change_modify; path = e.path; hash = e.hash; mode = e.mode })

module _ (k : Bytes) where
  pub find-append :
      (xs ys : List FileChange)
      → find change_path k (xs ++ ys) ≡ or_else (find change_path k xs) (find change_path k ys)
  unfolding find
  find-append [] ys = refl
  find-append (x ∷ xs) ys = ground (arith, find-append xs ys)

  abbrev bind_entry : Option FileEntry → (FileEntry → Option FileChange) → Option FileChange
  bind_entry none f = none
  bind_entry (some e) f = f e

  pub find-upserts :
      (idx : Dict Bytes FileEntry) (es : List FileEntry)
      → NodupKeys entry_path es
      → find change_path k (upserts idx es)
        ≡ bind_entry (find entry_path k es) (upsert_of (Dict.get k idx))
  unfolding upserts find
  find-upserts idx [] n = refl
  find-upserts idx (e ∷ es) (h, n) = ground (arith, find-upserts idx es n, bytes_eq_iff e.path k)

  pub find-deletions :
      (idx : Dict Bytes FileEntry) (es : List FileEntry)
      → NodupKeys entry_path es
      → find change_path k (deletions idx es)
        ≡ bind_entry (find entry_path k es) (deletion_of (Dict.get k idx))
  unfolding deletions find
  find-deletions idx [] n = refl
  find-deletions idx (e ∷ es) (h, n) =
      ground (arith, find-deletions idx es n, bytes_eq_iff e.path k)

  -- Between two manifests that list each path once, the diff holds for every path exactly the
  -- change that the path's two entries call for: a create, a modify if the hash or the mode
  -- differs, a delete, or none.
  pub find-diff :
      (old_m new_m : Manifest)
      → IsManifest old_m
      → IsManifest new_m
      → find change_path k (diff old_m new_m) ≡ change_of (entry_at k old_m) (entry_at k new_m)
  unfolding diff
  find-diff old_m new_m ho hn =
      rw
        (
          find-sort,
          find-append,
          find-upserts (by_path old_m) new_m.entries hn,
          find-deletions (by_path new_m) old_m.entries ho,
          get-by_path k old_m ho,
          get-by_path k new_m hn,
        )
        (ground arith)

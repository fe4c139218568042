-- ===== src/Fsutil/Diff.antt =====
-- `Diff` of internal/fsutil/fsutil.go. The proofs are in the modules below this one.
pub mod Find
pub mod Order
use claude_share.Base.{
  Bool, true, false, not, ◌||◌, Bytes, bytes_eq, Option, none, some, List, [], ◌∷◌, ◌++◌, ◌==◌,
  if◌then◌else◌,
}
use claude_share.Base.Dict
use claude_share.Base.Dict.{Dict, bytes_key}
use claude_share.Base.Sort.{sort}
use claude_share.Domain.{
  FileEntry, Manifest, by_path, FileChange, change_create, change_modify, change_delete,
}

abbrev pub create : FileEntry → FileChange
create e = record { op = change_create; path = e.path; hash = e.hash; mode = e.mode }

abbrev pub modify : FileEntry → FileChange
modify e = record { op = change_modify; path = e.path; hash = e.hash; mode = e.mode }

abbrev pub remove : FileEntry → FileChange
remove e = record { op = change_delete; path = e.path; hash = []; mode = 0 }

-- The test of the second case of the switch.
abbrev pub differs : FileEntry → FileEntry → Bool
differs prev e = not (bytes_eq prev.hash e.hash) || not (prev.mode == e.mode)

-- The first loop: what is new or has changed.
pub upserts : Dict Bytes FileEntry → List FileEntry → List FileChange
upserts old_idx [] = []
upserts old_idx (e ∷ es) =
    let rest = upserts old_idx es in
    elim (Dict.get e.path old_idx) [
      | none ↦ create e ∷ rest
      | some prev ↦ if differs prev e then modify e ∷ rest else rest
    ]

-- The second loop: what is gone.
pub deletions : Dict Bytes FileEntry → List FileEntry → List FileChange
deletions new_idx [] = []
deletions new_idx (e ∷ es) =
    let rest = deletions new_idx es in
    elim (Dict.get e.path new_idx) [ none ↦ remove e ∷ rest | some _ ↦ rest ]

unfoldable pub diff : Manifest → Manifest → List FileChange
unfolding upserts deletions by_path sort
diff old_m new_m =
    sort (λ c. c.path)
      (upserts (by_path old_m) new_m.entries ++ deletions (by_path new_m) old_m.entries)

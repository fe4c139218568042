-- ===== src/Examples/Fsutil.antt =====
-- `Diff` of internal/fsutil/fsutil.go at two small trees.
use claude_share.Base.{◌≡◌, refl, Bytes, bytes_eq, bytes_lt, codes, [], ◌∷◌}
use claude_share.Base.Dict
use claude_share.Base.Sort.{find, NodupKeys, IsSorted}
use claude_share.Domain.{FileEntry, Manifest}
use claude_share.Domain.ByPath.{IsManifest, entry_at}
use claude_share.Fsutil.Diff.{create, modify, remove, diff}
use claude_share.Fsutil.Diff.Find.{change_path, change_of, find-diff}
use claude_share.Fsutil.Diff.Order.{diff-IsSorted}

abbrev entry : Bytes → Bytes → FileEntry
entry p h = record { path = p; hash = h; size = 1; mode = 0o644 }

abbrev before : Manifest
before = record { entries = entry (codes "a") (codes "1") ∷ entry (codes "b") (codes "2") ∷ [] }

abbrev after : Manifest
after = record { entries = entry (codes "b") (codes "3") ∷ entry (codes "c") (codes "1") ∷ [] }

before-IsManifest : IsManifest before
unfolding find bytes_eq
before-IsManifest = (refl, (refl, tt))

after-IsManifest : IsManifest after
unfolding find bytes_eq
after-IsManifest = (refl, (refl, tt))

diff_run :
    diff before after
    ≡ remove (entry (codes "a") (codes "1"))
      ∷ modify (entry (codes "b") (codes "3"))
      ∷ create (entry (codes "c") (codes "1"))
      ∷ []
unfolding diff bytes_eq bytes_lt Dict.get Dict.put
diff_run = refl

find-diff_example :
    find change_path (codes "b") (diff before after)
    ≡ change_of (entry_at (codes "b") before) (entry_at (codes "b") after)
find-diff_example = find-diff (codes "b") before after before-IsManifest after-IsManifest

diff-IsSorted_example :
    IsSorted change_path (diff before after) × NodupKeys change_path (diff before after)
diff-IsSorted_example = diff-IsSorted before after before-IsManifest after-IsManifest

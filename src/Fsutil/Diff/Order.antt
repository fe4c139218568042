-- ===== src/Fsutil/Diff/Order.antt =====
-- The order of the changes that `Diff` returns, and its result on equal trees.
use claude_share.Base.{
  ◌≡◌, ◌≢◌, refl, ◌∙◌, Bytes, bytes_eq_iff, bytes_eq_refl, Option, none, some, List, [], ◌∷◌, ◌++◌,
  arith,
}
use claude_share.Base.Dict.{Dict, bytes_key}
use claude_share.Base.Sort.{find, NodupKeys, IsSorted, sort-NodupKeys, sort-IsSorted}
use claude_share.Domain.{FileEntry, Manifest, by_path, FileChange}
use claude_share.Domain.ByPath.{entry_path, entry_at, IsManifest, get-by_path}
use claude_share.Fsutil.Diff.{upserts, deletions, diff}
use claude_share.Fsutil.Diff.Find.{
  change_path, change_of, find-append, find-upserts, find-deletions, find-diff,
}

upserts-NodupKeys :
    (idx : Dict Bytes FileEntry) (es : List FileEntry)
    → NodupKeys entry_path es
    → NodupKeys change_path (upserts idx es)
unfolding upserts
upserts-NodupKeys idx [] n = tt
upserts-NodupKeys idx (e ∷ es) (h, n) =
    ground (arith, upserts-NodupKeys idx es n, find-upserts e.path idx es n)

deletions-NodupKeys :
    (idx : Dict Bytes FileEntry) (es : List FileEntry)
    → NodupKeys entry_path es
    → NodupKeys change_path (deletions idx es)
unfolding deletions
deletions-NodupKeys idx [] n = tt
deletions-NodupKeys idx (e ∷ es) (h, n) =
    ground (arith, deletions-NodupKeys idx es n, find-deletions e.path idx es n)

append-NodupKeys :
    (xs ys : List FileChange)
    → ((k : Bytes) → find change_path k xs ≢ none → find change_path k ys ≡ none)
    → NodupKeys change_path xs
    → NodupKeys change_path ys
    → NodupKeys change_path (xs ++ ys)
append-NodupKeys [] ys apart nx ny = ny
append-NodupKeys (x ∷ xs) ys apart (h, nx) ny = (
  rw (find-append, h) (apart x.path (unfold find in rw bytes_eq_refl (λ e. cc))),
  append-NodupKeys xs ys (λ k hit. apart k (unfold find in ground (arith, bytes_eq_iff x.path k)))
      nx ny,
)

-- A list in which no key is found is empty.
eq_nil_of_find : (l : List FileChange) → ((k : Bytes) → find change_path k l ≡ none) → l ≡ []
unfolding find
eq_nil_of_find [] h = refl
eq_nil_of_find (c ∷ l) h = ground (arith, h c.path, bytes_eq_refl c.path)

module _ (old_m new_m : Manifest) (ho : IsManifest old_m) (hn : IsManifest new_m) where
  loops_apart :
      (k : Bytes)
      → find change_path k (upserts (by_path old_m) new_m.entries) ≢ none
      → find change_path k (deletions (by_path new_m) old_m.entries) ≡ none
  loops_apart k hit =
      rw (find-deletions k (by_path new_m) old_m.entries ho, get-by_path k new_m hn)
        (ground (arith, find-upserts k (by_path old_m) new_m.entries hn))

  -- Between two manifests that list each path once, the changes come in ascending order of their
  -- paths, and no path has two of them.
  pub diff-IsSorted :
      IsSorted change_path (diff old_m new_m) × NodupKeys change_path (diff old_m new_m)
  unfolding diff
  diff-IsSorted = (
    sort-IsSorted change_path
        (upserts (by_path old_m) new_m.entries ++ deletions (by_path new_m) old_m.entries),
    sort-NodupKeys change_path _
        (append-NodupKeys _ _ loops_apart (upserts-NodupKeys _ _ hn) (deletions-NodupKeys _ _ ho)),
  )

change_of_self : (o : Option FileEntry) → change_of o o ≡ none
change_of_self none = refl
change_of_self (some e) = ground (arith, bytes_eq_refl e.hash)

-- The diff of a manifest that lists each path once with itself is empty.
pub diff_self : (m : Manifest) → IsManifest m → diff m m ≡ []
diff_self m h = eq_nil_of_find (diff m m) (λ k. find-diff k m m h h ∙ change_of_self (entry_at k m))

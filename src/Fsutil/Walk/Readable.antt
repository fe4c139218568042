-- ===== src/Fsutil/Walk/Readable.antt =====
-- WalkManifest of internal/fsutil/fsutil.go on a tree that can be read, without limits on sizes.
use claude_share.Base.{
  ℕ, ◌≡◌, refl, ap, ◌∙◌, inl, inr, false, Bytes, codes, none, [], ◌++◌, Bool-cases, ok,
}
use claude_share.Base.Sort.{sort}
use claude_share.Base.Int64.{add64}
use claude_share.Domain.{FileEntry}
use claude_share.Fsutil.Walk.{
  Info, Node, regular, other, dir, Entries, end, entry, WalkOptions, Walk, walk_entries, walk_node,
  walk_root, walk_manifest, add_file, ignored, skips_dir, exceeds,
}
use claude_share.Fsutil.Walk.Listed.{listed, walk_manifest_lists}

unfoldable mutual
  pub IsReadable : Node → Type 0
  IsReadable other = Unit
  IsReadable (regular info content) =
      ((i : Info) × (info ≡ ok i)) × ((b : Bytes) × (content ≡ ok b))
  IsReadable (dir failure es) = (failure ≡ none) × AreReadable es

  pub AreReadable : Entries → Type 0
  AreReadable end = Unit
  AreReadable (entry name node es) = IsReadable node × AreReadable es

unlimited : (n : ℕ) → exceeds 0 n ≡ false
unfolding exceeds
unlimited n = refl

module _ (sum : Bytes → Bytes) (opts : WalkOptions) (any_size : opts.max_file_size ≡ 0)
    (any_total : opts.max_total_size ≡ 0) where
  add_file_lem :
      (rel : Bytes) (i : Info) (b : Bytes) (st : Walk)
      → (add_file sum opts rel (ok i) (ok b) st).0 ≡ ok tt
  unfolding add_file
  add_file_lem rel i b st =
      rw (any_size, any_total, unlimited i.size, unlimited (add64 st.total i.size)) refl

  mutual
    unfolding walk_entries walk_node IsReadable

    walk_entries-AreReadable :
        (prefix : Bytes) (es : Entries) (st : Walk)
        → AreReadable es
        → (walk_entries sum opts prefix es st).0 ≡ ok tt
    walk_entries-AreReadable prefix end st h = refl
    walk_entries-AreReadable prefix (entry name node es) st (h, hs) =
        rw (walk_node-IsReadable (prefix ++ name) name node st h) (
          walk_entries-AreReadable prefix es (walk_node sum opts (prefix ++ name) name node st).1
            hs)

    walk_node-IsReadable :
        (rel name : Bytes) (node : Node) (st : Walk)
        → IsReadable node
        → (walk_node sum opts rel name node st).0 ≡ ok tt
    walk_node-IsReadable rel name other st h = refl
    walk_node-IsReadable rel name (regular info content) st ((i, p), (b, q)) =
        elim (Bool-cases (ignored sum opts rel false)) [
          | inl r ↦ rw r refl
          | inr r ↦ rw (r, p, q) (add_file_lem rel i b st)
        ]
    walk_node-IsReadable rel name (dir failure es) st (p, hs) =
        elim (Bool-cases (skips_dir sum opts rel name)) [
          | inl r ↦ rw r refl
          | inr r ↦ rw (r, p) (walk_entries-AreReadable (rel ++ codes "/") es st hs)
        ]

  -- Without limits on sizes, the walk of a directory in which everything can be read succeeds, with
  -- the files that are to be listed.
  pub walk_manifest-AreReadable :
      (es : Entries)
      → AreReadable es
      → walk_manifest sum opts (ok (dir none es))
        ≡ ok (record {
          entries = sort (λ (e : FileEntry). e.path) (listed sum opts (ok (dir none es)));
        })
  unfolding walk_root walk_manifest sort
  walk_manifest-AreReadable es h =
      let start : Walk = record { entries = []; total = 0 } in
      let run : (walk_root sum opts (ok (dir none es)) start).0 ≡ ok tt =
        walk_entries-AreReadable [] es start h in
      let done : walk_manifest sum opts (ok (dir none es))
          ≡ ok (record {
            entries =
                sort (λ (e : FileEntry). e.path)
                  (walk_root sum opts (ok (dir none es)) start).1.entries;
          }) =
        rw (run, walk_manifest) refl in
      done
      ∙ ap ok (
          walk_manifest_lists sum opts (ok (dir none es))
            (record {
              entries =
                  sort (λ (e : FileEntry). e.path)
                    (walk_root sum opts (ok (dir none es)) start).1.entries;
            })
            done)

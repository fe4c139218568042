-- ===== src/Fsutil/Walk/Listed.antt =====
-- Which files WalkManifest of internal/fsutil/fsutil.go lists.
use claude_share.Base.{
  ◌≡◌, refl, sym, ap, ◌∙◌, inl, inr, false, Bytes, codes, none, some, List, [], ◌∷◌, ◌++◌,
  append_assoc, append-nil, if◌then◌else◌, Result, Result-cases, Option-cases, Bool-cases, ok, err,
}
use claude_share.Base.Sort.{sort}
use claude_share.Base.Exec.{lift, modify, ◌>>=◌}
use claude_share.Base.Int64.{add64}
use claude_share.Domain.{FileEntry, Manifest}
use claude_share.Fsutil.Hash.{hash_content}
use claude_share.Fsutil.Walk.{
  Info, Node, regular, other, dir, Entries, end, entry, WalkOptions, Walk, walk_entries, walk_node,
  walk_root, walk_manifest, add_file, ignored, skips_dir, exceeds,
}

module _ (sum : Bytes → Bytes) (opts : WalkOptions) where
  abbrev file_entry : Bytes → Result Info → Result Bytes → List FileEntry
  file_entry rel (ok i) (ok b) =
      record { path = rel; hash = hash_content sum b; size = i.size; mode = i.perm } ∷ []
  file_entry rel (ok i) (err e) = []
  file_entry rel (err e) content = []

  -- The regular files of a tree, each with the hash of its content: those that are not ignored, in
  -- directories that are not skipped.
  mutual
    pub listed_entries : Bytes → Entries → List FileEntry
    listed_entries prefix end = []
    listed_entries prefix (entry name node es) =
        listed_node (prefix ++ name) name node ++ listed_entries prefix es

    pub listed_node : Bytes → Bytes → Node → List FileEntry
    listed_node rel name other = []
    listed_node rel name (regular info content) =
        if ignored sum opts rel false then [] else file_entry rel info content
    listed_node rel name (dir failure es) =
        let inside = listed_entries (rel ++ codes "/") es in
        if skips_dir sum opts rel name then [] else inside

  abbrev Adds : List FileEntry → Walk → Result (Unit {0}) → Walk → Type 0
  Adds files st r st' = r ≡ ok tt → st'.entries ≡ st.entries ++ files

  add_file-Adds :
      (rel : Bytes) (info : Result Info) (content : Result Bytes) (st : Walk)
      → Adds
          (file_entry rel info content)
          st
          (add_file sum opts rel info content st).0
          (add_file sum opts rel info content st).1
  unfolding add_file
  add_file-Adds rel (err e) content st h = cc h
  add_file-Adds rel (ok i) content st h = elim (Bool-cases (exceeds opts.max_file_size i.size)) [
    | inl q ↦ cc (rw q at h)
    | inr q ↦ elim (Bool-cases (exceeds opts.max_total_size (add64 st.total i.size))) [
      | inl r ↦ cc (rw (q, r) at h)
      | inr r ↦ read content (rw (q, r) at h) q r
    ]
  ]
    where
      read :
          (content : Result Bytes)
          → ((lift content >>= λ b. modify λ (st' : Walk). record st' {
            entries =
                st'.entries
                ++ record { path = rel; hash = hash_content sum b; size = i.size; mode = i.perm }
                  ∷ [];
          })
              (record st { total = add64 st.total i.size })).0
            ≡ ok tt
          → exceeds opts.max_file_size i.size ≡ false
          → exceeds opts.max_total_size (add64 st.total i.size) ≡ false
          → (add_file sum opts rel (ok i) content st).1.entries
            ≡ st.entries ++ file_entry rel (ok i) content
      read (err e) h q r = cc h
      read (ok b) h q r = rw (q, r) refl

  mutual
    unfolding walk_entries walk_node listed_entries listed_node

    walk_entries-Adds :
        (prefix : Bytes) (es : Entries) (st : Walk)
        → Adds
            (listed_entries prefix es)
            st
            (walk_entries sum opts prefix es st).0
            (walk_entries sum opts prefix es st).1
    walk_entries-Adds prefix end st h = sym (append-nil st.entries)
    walk_entries-Adds prefix (entry name node es) st h =
        elim (Result-cases (walk_node sum opts (prefix ++ name) name node st).0) [
          | inl (e, q) ↦ cc (rw q at h)
          | inr (_, q) ↦
              let st' = (walk_node sum opts (prefix ++ name) name node st).1 in
              rw q (
                walk_entries-Adds prefix es st' (rw q at h)
                ∙ ap (λ x. x ++ listed_entries prefix es)
                    (walk_node-Adds (prefix ++ name) name node st q)
                ∙ append_assoc st.entries (listed_node (prefix ++ name) name node)
                    (listed_entries prefix es))
        ]

    walk_node-Adds :
        (rel name : Bytes) (node : Node) (st : Walk)
        → Adds
            (listed_node rel name node)
            st
            (walk_node sum opts rel name node st).0
            (walk_node sum opts rel name node st).1
    walk_node-Adds rel name other st h = sym (append-nil st.entries)
    walk_node-Adds rel name (regular info content) st h =
        elim (Bool-cases (ignored sum opts rel false)) [
          | inl q ↦ rw q (sym (append-nil st.entries))
          | inr q ↦ rw q (add_file-Adds rel info content st (rw q at h))
        ]
    walk_node-Adds rel name (dir failure es) st h =
        elim (Bool-cases (skips_dir sum opts rel name)) [
          | inl q ↦ rw q (sym (append-nil st.entries))
          | inr q ↦ elim (Option-cases failure) [
            | inl r ↦ rw (q, r) (walk_entries-Adds (rel ++ codes "/") es st (rw (q, r) at h))
            | inr (e, r) ↦ cc (rw (q, r) at h)
          ]
        ]

  pub listed : Result Node → List FileEntry
  listed (ok (dir none es)) = listed_entries [] es
  listed (ok (dir (some e) es)) = []
  listed (ok other) = []
  listed (ok (regular info content)) = []
  listed (err e) = []

  walk_root-Adds :
      (root : Result Node) (st : Walk)
      → Adds (listed root) st (walk_root sum opts root st).0 (walk_root sum opts root st).1
  unfolding walk_root listed
  walk_root-Adds (err e) st h = cc h
  walk_root-Adds (ok (dir (some e) es)) st h = cc h
  walk_root-Adds (ok (dir none es)) st h = walk_entries-Adds [] es st h
  walk_root-Adds (ok other) st h = sym (append-nil st.entries)
  walk_root-Adds (ok (regular info content)) st h = sym (append-nil st.entries)

  -- A walk that succeeds lists the regular files below the root that are not ignored and not in a
  -- skipped directory, each with the hash of its content, sorted by path.
  pub walk_manifest_lists :
      (root : Result Node) (m : Manifest)
      → walk_manifest sum opts root ≡ ok m
      → m ≡ record { entries = sort (λ (e : FileEntry). e.path) (listed root) }
  unfolding walk_manifest
  walk_manifest_lists root m h =
      let start : Walk = record { entries = []; total = 0 } in
      elim (Result-cases (walk_root sum opts root start).0) [
        | inl (e, q) ↦ cc (rw (q, walk_manifest) at h)
        | inr (_, q) ↦
            let e : walk_manifest sum opts root
                ≡ ok (record { entries = sort (λ (e : FileEntry). e.path) (listed root) }) =
              rw (q, walk_manifest, walk_root-Adds root start q) refl in
            cc (h, e)
      ]

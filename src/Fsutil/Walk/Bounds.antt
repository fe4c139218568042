-- ===== src/Fsutil/Walk/Bounds.antt =====
-- The limits of WalkManifest of internal/fsutil/fsutil.go.
use claude_share.Base.{
  ℕ, ◌+◌, ◌^◌, ◌≤◌, ◌<◌, ◌≡◌, refl, sym, ap, ◌∙◌, inl, inr, false, Bytes, codes, none, some, List,
  [], ◌∷◌, ◌++◌, Result, Result-cases, Option-cases, Bool-cases, Error, ok, err, subst, All,
  All-append, arith,
}
use claude_share.Base.Sort.{sort, insert, All-sort}
use claude_share.Base.Int64.{add64, lt64_of_nonneg}
use claude_share.Domain.{FileEntry, Manifest}
use claude_share.Fsutil.Hash.{hash_content}
use claude_share.Fsutil.Walk.{
  Info, Node, regular, other, dir, Entries, end, entry, WalkOptions, Walk, walk_entries, walk_node,
  walk_root, walk_manifest, add_file, ignored, skips_dir, exceeds,
}

-- The sizes of the files added up, without a bound.
unfoldable pub total_size : List FileEntry → ℕ
total_size [] = 0
total_size (e ∷ es) = e.size + total_size es

total_size-append_one :
    (es : List FileEntry) (e : FileEntry) → total_size (es ++ e ∷ []) ≡ total_size es + e.size
unfolding total_size
total_size-append_one [] e = omega arith
total_size-append_one (d ∷ es) e = omega (arith, total_size-append_one es e)

abbrev path_key : FileEntry → Bytes
path_key e = e.path

total_size-insert :
    (e : FileEntry) (es : List FileEntry)
    → total_size (insert path_key e es) ≡ e.size + total_size es
unfolding total_size insert
total_size-insert e [] = refl
total_size-insert e (d ∷ es) = ground (arith, total_size-insert e es)

total_size-sort : (es : List FileEntry) → total_size (sort path_key es) ≡ total_size es
unfolding total_size sort
total_size-sort [] = refl
total_size-sort (e ∷ es) = omega (arith, total_size-insert e (sort path_key es), total_size-sort es)

-- No file of the tree has a negative size.
unfoldable mutual
  pub AreSized : Entries → Type 0
  AreSized end = Unit
  AreSized (entry name node es) = IsSized node × AreSized es

  pub IsSized : Node → Type 0
  IsSized other = Unit
  IsSized (regular (ok i) content) = i.size < 2 ^ 63
  IsSized (regular (err e) content) = Unit
  IsSized (dir failure es) = AreSized es

abbrev pub IsSizedRoot : Result Node → Type 0
IsSizedRoot (ok node) = IsSized node
IsSizedRoot (err e) = Unit

not_exceeds :
    (limit n : ℕ) → 0 < limit → limit < 2 ^ 63 → n < 2 ^ 63 → exceeds limit n ≡ false → n ≤ limit
unfolding exceeds
not_exceeds limit n pos small h within =
    ground (arith, within, lt64_of_nonneg 0 limit, lt64_of_nonneg limit n)

module _ (sum : Bytes → Bytes) (opts : WalkOptions) (file_pos : 0 < opts.max_file_size)
    (file_small : opts.max_file_size < 2 ^ 62) (total_pos : 0 < opts.max_total_size)
    (total_small : opts.max_total_size < 2 ^ 62) where
  abbrev pub Fits : FileEntry → Type 0
  Fits e = (e.size ≤ opts.max_file_size) × (ignored sum opts e.path false ≡ false)

  -- What holds of the variables all along the walk.
  pub record Within (st : Walk) : Type 0 where
    pub fits : All Fits st.entries
    pub adds_up : total_size st.entries ≡ st.total
    pub bounded : st.total ≤ opts.max_total_size

  add_file-Within :
      (rel : Bytes) (i : Info) (content : Result Bytes) (st : Walk)
      → i.size < 2 ^ 63
      → ignored sum opts rel false ≡ false
      → Within st
      → (add_file sum opts rel (ok i) content st).0 ≡ ok tt
      → Within (add_file sum opts rel (ok i) content st).1
  unfolding add_file
  add_file-Within rel i content st sized seen w h =
      elim (Bool-cases (exceeds opts.max_file_size i.size)) [
        | inl q ↦ cc (rw q at h)
        | inr q ↦ elim (Bool-cases (exceeds opts.max_total_size (add64 st.total i.size))) [
          | inl r ↦ cc (rw (q, r) at h)
          | inr r ↦ elim (Result-cases content) [
            | inl (e, t) ↦ cc (rw (q, r, t) at h)
            | inr (b, t) ↦
                let small : i.size ≤ opts.max_file_size =
                  not_exceeds opts.max_file_size i.size file_pos (omega (arith, file_small)) sized
                    q in
                let no_wrap : add64 st.total i.size ≡ st.total + i.size =
                  omega (arith, small, w.bounded, file_small, total_small) in
                let one : FileEntry = record {
                  path = rel;
                  hash = hash_content sum b;
                  size = i.size;
                  mode = i.perm;
                } in
                rw (q, r, t)
                  (record {
                    fits = All-append Fits st.entries _ w.fits ((small, seen), tt);
                    adds_up =
                        total_size-append_one st.entries one
                        ∙ ap (λ n. n + i.size) w.adds_up
                        ∙ sym no_wrap;
                    bounded =
                        not_exceeds opts.max_total_size (add64 st.total i.size) total_pos
                          (omega (arith, total_small))
                          (omega (arith, small, w.bounded, no_wrap, file_small, total_small)) r;
                  })
          ]
        ]
      ]

  add_file-no_info :
      (rel : Bytes) (e : Error) (content : Result Bytes) (st : Walk)
      → (add_file sum opts rel (err e) content st).0 ≡ ok tt
      → Within (add_file sum opts rel (err e) content st).1
  unfolding add_file
  add_file-no_info rel e content st h = cc h

  mutual
    unfolding walk_entries walk_node AreSized

    walk_entries-Within :
        (prefix : Bytes) (es : Entries) (st : Walk)
        → AreSized es
        → Within st
        → (walk_entries sum opts prefix es st).0 ≡ ok tt
        → Within (walk_entries sum opts prefix es st).1
    walk_entries-Within prefix end st sized w h = w
    walk_entries-Within prefix (entry name node es) st (one, sized) w h =
        elim (Result-cases (walk_node sum opts (prefix ++ name) name node st).0) [
          | inl (e, q) ↦ cc (rw q at h)
          | inr (_, q) ↦
              let st' = (walk_node sum opts (prefix ++ name) name node st).1 in
              rw q (
                walk_entries-Within prefix es st' sized
                  (walk_node-Within (prefix ++ name) name node st one w q) (rw q at h))
        ]

    walk_node-Within :
        (rel name : Bytes) (node : Node) (st : Walk)
        → IsSized node
        → Within st
        → (walk_node sum opts rel name node st).0 ≡ ok tt
        → Within (walk_node sum opts rel name node st).1
    walk_node-Within rel name other st sized w h = w
    walk_node-Within rel name (regular (ok i) content) st sized w h =
        elim (Bool-cases (ignored sum opts rel false)) [
          | inl q ↦ rw q w
          | inr q ↦ rw q (add_file-Within rel i content st sized q w (rw q at h))
        ]
    walk_node-Within rel name (regular (err e) content) st sized w h =
        elim (Bool-cases (ignored sum opts rel false)) [
          | inl q ↦ rw q w
          | inr q ↦ rw q (add_file-no_info rel e content st (rw q at h))
        ]
    walk_node-Within rel name (dir failure es) st sized w h =
        elim (Bool-cases (skips_dir sum opts rel name)) [
          | inl q ↦ rw q w
          | inr q ↦ elim (Option-cases failure) [
            | inl r ↦
                rw (q, r) (walk_entries-Within (rel ++ codes "/") es st sized w (rw (q, r) at h))
            | inr (e, r) ↦ cc (rw (q, r) at h)
          ]
        ]

  walk_root-Within :
      (root : Result Node) (st : Walk)
      → IsSizedRoot root
      → Within st
      → (walk_root sum opts root st).0 ≡ ok tt
      → Within (walk_root sum opts root st).1
  unfolding walk_root AreSized
  walk_root-Within (err e) st sized w h = cc h
  walk_root-Within (ok (dir (some e) es)) st sized w h = cc h
  walk_root-Within (ok (dir none es)) st sized w h = walk_entries-Within [] es st sized w h
  walk_root-Within (ok other) st sized w h = w
  walk_root-Within (ok (regular info content)) st sized w h = w

  -- With limits that are positive and below 2 ^ 62, a walk that succeeds over files whose sizes are
  -- not negative lists no file that is larger than the limit for a file or ignored, and the sizes
  -- of the files listed add up, without a wrap, to no more than the limit for the project.
  pub walk_manifest_bounded :
      (root : Result Node) (m : Manifest)
      → IsSizedRoot root
      → walk_manifest sum opts root ≡ ok m
      → All Fits m.entries × (total_size m.entries ≤ opts.max_total_size)
  unfolding walk_manifest total_size
  walk_manifest_bounded root m sized h =
      let start : Walk = record { entries = []; total = 0 } in
      let started : Within start = record { fits = tt; adds_up = refl; bounded = omega arith } in
      elim (Result-cases (walk_root sum opts root start).0) [
        | inl (e, q) ↦ cc (rw (q, walk_manifest) at h)
        | inr (_, q) ↦
            let st = (walk_root sum opts root start).1 in
            let w = walk_root-Within root start sized started q in
            let run : walk_manifest sum opts root
                ≡ ok (record { entries = sort path_key st.entries }) =
              rw (q, walk_manifest) refl in
            let this : record { entries = sort path_key st.entries } ≡ m = cc (h, run) in
            subst
              (λ (m : Manifest). All Fits m.entries × (total_size m.entries ≤ opts.max_total_size))
              this
              (
                All-sort path_key Fits st.entries w.fits,
                omega (arith, total_size-sort st.entries, w.adds_up, w.bounded),
              )
      ]

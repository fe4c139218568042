-- ===== src/Localfs/Limits.antt =====
-- What Open and Manifest of internal/adapters/localfs/localfs.go keep out of a project.
use claude_share.Base.{
  ℕ, ◌^◌, ◌≤◌, ◌<◌, ◌≡◌, refl, inl, inr, Bool, false, Bytes, List, Result, Result-cases, ok, All,
  Bool-cases, some, subst,
}
use claude_share.Domain.{FileEntry, Manifest}
use claude_share.Fsutil.Path.{abs}
use claude_share.Fsutil.Walk.{Node}
use claude_share.Fsutil.Walk.Bounds.{IsSizedRoot, total_size, walk_manifest_bounded}
use claude_share.Localfs.Open.{
  Project, Answers, open_project, ignore_lines, is_ignored, project_manifest,
}

module _ (getwd : Result Bytes) (answers : Answers) (compile : List Bytes → Bytes → Bool)
    (root : Bytes) (max_file_size max_total : ℕ) where
  -- The project that is opened at a path.
  abbrev opened : Bytes → Project
  opened path = record {
    root = path;
    ig = some (compile (ignore_lines answers.read path));
    max_file_size = max_file_size;
    max_total = max_total;
  }

  open_project-eq_opened :
      (p : Project)
      → open_project getwd answers compile root max_file_size max_total ≡ ok p
      → p ≡ opened p.root
  unfolding open_project
  open_project-eq_opened p h = elim (Result-cases (abs getwd root)) [
    | inl (e, q) ↦ cc (rw q at h)
    | inr (path, q) ↦ elim (Result-cases (answers.stat path)) [
      | inl (e, r) ↦ cc (rw (q, r) at h)
      | inr (is_dir, r) ↦ elim (Bool-cases is_dir) [
        | inl t ↦
            let made : opened path ≡ p = cc (rw (q, r, t) at h) in
            subst (λ (p : Project). p ≡ opened p.root) made refl
        | inr t ↦ cc (rw (q, r, t) at h)
      ]
    ]
  ]

  -- A manifest of a project that was opened lists no file that the lines of its two ignore files
  -- match and none that is larger than the limit for a file, and the sizes of its files add up,
  -- without a wrap, to no more than the limit for the project. This is for limits that are positive
  -- and below 2 ^ 62, and files whose sizes are not negative.
  pub project_manifest_bounded :
      (p : Project) (sum : Bytes → Bytes) (node : Result Node) (m : Manifest)
      → 0 < max_file_size
      → max_file_size < 2 ^ 62
      → 0 < max_total
      → max_total < 2 ^ 62
      → open_project getwd answers compile root max_file_size max_total ≡ ok p
      → IsSizedRoot node
      → project_manifest sum p node ≡ ok m
      → All
          (λ (e : FileEntry).
            (e.size ≤ max_file_size) × (compile (ignore_lines answers.read p.root) e.path ≡ false))
          m.entries
        × (total_size m.entries ≤ max_total)
  unfolding project_manifest is_ignored
  project_manifest_bounded p sum node m file_pos file_small total_pos total_small is_open sized h =
      let this = open_project-eq_opened p is_open in
      let run : project_manifest sum (opened p.root) node ≡ ok m =
        subst (λ q. project_manifest sum q node ≡ ok m) this h in
      walk_manifest_bounded sum
        (record {
          ignore = some (is_ignored (opened p.root));
          max_file_size = max_file_size;
          max_total_size = max_total;
        })
        file_pos file_small total_pos total_small node m sized run

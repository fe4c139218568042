-- ===== src/Examples/Opened.antt =====
-- A project whose ignore file names one of its two files.
use claude_share.Base.{
  ◌≤◌, ◌≡◌, refl, Bool, true, false, ◌||◌, Bytes, bytes_eq, bytes_lt, codes, none, some, List, [],
  ◌∷◌, Result, ok, err, foreign, All, arith,
}
use claude_share.Base.Sort.{sort, insert}
use claude_share.Domain.{FileEntry, Manifest}
use claude_share.Fsutil.Hash.{hash_content, encode_to_string}
use claude_share.Fsutil.Path.{clean, join, abs, names, show, render, walk, split_path, is_abs}
use claude_share.Fsutil.Walk.{
  Node, regular, dir, end, entry, walk_manifest, walk_entries, skips_dir, exceeds, default_ignored,
  add_file,
}
use claude_share.Fsutil.Walk.Bounds.{AreSized, IsSizedRoot, total_size}
use claude_share.Localfs.{split_lines, split_from, trim_return}
use claude_share.Localfs.Open.{
  Project, Answers, ignore_lines, open_project, is_ignored, project_manifest,
}
use claude_share.Localfs.Limits.{project_manifest_bounded}

abbrev sum : Bytes → Bytes
sum b = b

abbrev answers : Answers
answers = record { stat = λ path. ok true; read = λ path. ok (codes "b\n") }

-- A matcher of whole names.
names_one : List Bytes → Bytes → Bool
names_one [] path = false
names_one (l ∷ ls) path = bytes_eq l path || names_one ls path

abbrev getwd : Result Bytes
getwd = err (foreign [])

abbrev project : Project
project = record {
  root = codes "/p";
  ig = some (names_one (codes "b" ∷ codes "b" ∷ []));
  max_file_size = 10;
  max_total = 20;
}

abbrev file : Bytes → Node
file b = regular (ok (record { size = 2; perm = 420 })) (ok b)

abbrev tree : Result Node
tree =
    ok (dir none (entry (codes "a") (file (codes "h")) (entry (codes "b") (file (codes "i")) end)))

abbrev found : Manifest
found = record {
  entries = record { path = codes "a"; hash = codes "68"; size = 2; mode = 420 } ∷ [];
}

opened : open_project getwd answers names_one (codes "/p") 10 20 ≡ ok project
unfolding open_project ignore_lines split_lines split_from trim_return clean join abs names show
    render walk split_path is_abs bytes_eq
opened = refl

manifest_run : project_manifest sum project tree ≡ ok found
unfolding project_manifest is_ignored walk_manifest walk_entries skips_dir exceeds default_ignored
    add_file bytes_eq bytes_lt sort insert hash_content encode_to_string names_one
manifest_run = refl

tree-IsSizedRoot : IsSizedRoot tree
unfolding AreSized
tree-IsSizedRoot = (omega arith, (omega arith, tt))

project_manifest_bounded_example :
    All
      (λ (e : FileEntry).
        (e.size ≤ 10) × (names_one (ignore_lines answers.read (codes "/p")) e.path ≡ false))
      found.entries
    × (total_size found.entries ≤ 20)
project_manifest_bounded_example =
    project_manifest_bounded getwd answers names_one (codes "/p") 10 20 project sum tree found
      (omega arith) (omega arith) (omega arith) (omega arith) opened tree-IsSizedRoot manifest_run

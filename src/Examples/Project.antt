-- ===== src/Examples/Project.antt =====
-- A change that is applied to a project on a disk on which the third call fails.
use claude_share.Base.{
  ℕ, ◌≡◌, ◌≢◌, ◌⊎◌, refl, Bytes, bytes_eq, codes, none, some, [], ◌∷◌, ◌++◌, if◌then◌else◌, ◌==◌,
  ok, err, foreign,
}
use claude_share.Base.Dict
use claude_share.Base.Dict.{bytes_key}
use claude_share.Base.Disk.{Disk, World}
use claude_share.Domain.{FileChange, change_modify}
use claude_share.Fsutil.Path.{clean, join, abs, names, show, render, walk, split_path, is_abs}
use claude_share.Fsutil.SafeJoin.{safe_join, is_unsafe, escapes, has_prefix}
use claude_share.Domain.{Manifest}
use claude_share.Fsstore.Workspace.{materialize}
use claude_share.Fsstore.Workspace.Written.{
  Serves, IsStored, final_content, materialize_writes, materialize_succeeds,
}
use claude_share.Base.{All}
use claude_share.Base.Exec.{Exec}
use claude_share.Localfs.{apply, temp_prefix, up_to_slash, dir_of}
use claude_share.Localfs.Atomic.{apply_atomic, changed}

abbrev failing : World
failing = record {
  faults = λ t. if t == 3 then some (foreign (codes "disk full")) else none;
  written = λ t. 1;
  random = λ t. t ∷ [];
}

abbrev disk : Disk
disk = record { files = (codes "/p/a", codes "old") ∷ []; time = 0 }

abbrev change : FileChange
change = record { op = change_modify; path = codes "a"; hash = codes "h"; mode = 420 }

pub joined : safe_join (err (foreign [])) (codes "/p") (codes "a") ≡ ok (codes "/p/a")
unfolding safe_join is_unsafe escapes has_prefix clean join abs names show render walk split_path
    is_abs bytes_eq
joined = refl

prefix_run : temp_prefix (codes "/p/a") ≡ codes "/p/.claude-share-"
unfolding temp_prefix dir_of up_to_slash clean join names show render walk split_path is_abs
    bytes_eq
prefix_run = refl

apart : (t : ℕ) → codes "/p/a" ≢ codes "/p/.claude-share-" ++ (t ∷ [])
apart t e = cc e

no_temp :
    (path : Bytes) (t : ℕ)
    → safe_join (err (foreign [])) (codes "/p") (codes "a") ≡ ok path
    → codes "/p/a" ≢ temp_prefix path ++ (t ∷ [])
no_temp path t h = let e : codes "/p/a" ≡ path = cc (joined, h) in rw (← e, prefix_run) (apart t)

apply_atomic_example :
    (Dict.get
        (codes "/p/a")
        (apply failing (err (foreign [])) (codes "/p") change (codes "new") disk).1.files
      ≡ Dict.get (codes "/p/a") disk.files)
    ⊎ ((safe_join (err (foreign [])) (codes "/p") (codes "a") ≡ ok (codes "/p/a"))
        × (Dict.get
              (codes "/p/a")
              (apply failing (err (foreign [])) (codes "/p") change (codes "new") disk).1.files
            ≡ changed change (codes "new")))
apply_atomic_example =
    apply_atomic failing (err (foreign [])) (codes "/p") change (codes "new") (codes "/p/a") disk
      no_temp

abbrev working : World
working = record { faults = λ t. none; written = λ t. 0; random = λ t. t ∷ [] }

abbrev manifest : Manifest
manifest = record {
  entries = record { path = codes "a"; hash = codes "h"; size = 2; mode = 420 } ∷ [];
}

-- A store with one content.
abbrev get_blob : Bytes → Exec Disk Bytes
get_blob h d = (ok (codes "hi"), d)

abbrev serves : Serves get_blob (λ h. codes "hi")
serves = record { Same = λ b. Unit; got = λ h c b same r. got_hi c r; kept = λ h b same. tt }
  where
    got_hi : (c : Bytes) → ok (codes "hi") ≡ ok c → c ≡ codes "hi"
    got_hi c r = cc r

entries-IsStored : All (IsStored (err (foreign [])) (codes "/p") (λ h. Unit)) manifest.entries
unfolding IsStored
entries-IsStored = (((codes "/p/a", joined), tt), tt)

materialize_run :
    (materialize get_blob working (err (foreign [])) (codes "/p") manifest (disk, disk)).0 ≡ ok tt
materialize_run =
    materialize_succeeds get_blob (λ h. codes "hi") serves (λ h. Unit) (λ h b has same. refl)
      working (λ t. refl) (err (foreign [])) (codes "/p") manifest disk disk entries-IsStored tt

materialize_writes_example :
    Dict.get
      (codes "/p/a")
      (materialize get_blob working (err (foreign [])) (codes "/p") manifest (disk, disk)).1.1.files
    ≡ final_content
        (err (foreign []))
        (codes "/p")
        (λ h. codes "hi")
        (codes "/p/a")
        manifest.entries
        (Dict.get (codes "/p/a") disk.files)
materialize_writes_example =
    materialize_writes get_blob (λ h. codes "hi") serves working (err (foreign [])) (codes "/p")
      (codes "/p/a") manifest disk disk tt materialize_run

-- ===== src/Base/Disk/Reads.antt =====
-- Reading a file whose path may be refused.
use mathlib.Core.Path.{◌≡◌, refl}
use mathlib.Core.Option.{none, some}
use mathlib.Core.List.{[]}
use native.Mathlib.Omega.{arith}
use claude_share.Base.Texts.{Bytes}
use claude_share.Base.Errors.{Result, ok, err}
use claude_share.Base.Dict
use claude_share.Base.Dict.{Dict, bytes_key}
use claude_share.Base.Exec.{lift, ◌>>=◌}
use claude_share.Base.Disk.{Disk, World, read_file}

-- What the files have at a path, nothing if there is no such file.
abbrev pub content_at : Dict Bytes Bytes → Result Bytes → Bytes
content_at files (err e) = []
content_at files (ok path) = elim (Dict.get path files) [ none ↦ [] | some c ↦ c ]

module _ (w : World) where
  read_file-kept : (path : Bytes) (d : Disk) → (read_file w path d).1.files ≡ d.files
  read_file-kept path d = ground arith

  pub read-kept :
      (r : Result Bytes) (d : Disk) → ((lift r >>= λ path. read_file w path) d).1.files ≡ d.files
  read-kept (err e) d = refl
  read-kept (ok path) d = read_file-kept path d

  read_file_is :
      (path c : Bytes) (d : Disk) → (read_file w path d).0 ≡ ok c → c ≡ content_at d.files (ok path)
  read_file_is path c d h = ground (arith, h)

  pub read_is :
      (r : Result Bytes) (c : Bytes) (d : Disk)
      → ((lift r >>= λ path. read_file w path) d).0 ≡ ok c
      → c ≡ content_at d.files r
  read_is (err e) c d h = cc h
  read_is (ok path) c d h = read_file_is path c d h

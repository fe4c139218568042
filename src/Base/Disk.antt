-- ===== src/Base/Disk.antt =====
-- One directory of a file system whose calls may fail at any point: `faults t` is the error of the
-- call made at time t, if it fails. A write that fails may have written a part.
pub mod Works
pub mod Reads
use Prim.Native.Nat.{ℕ, ◌+◌}
use mathlib.Core.Bool.{Bool, false}
use mathlib.Core.Option.{Option, none, some}
use mathlib.Core.List.{[], ◌++◌}
use claude_share.Base.Texts.{Bytes, codes, bytes_eq}
use claude_share.Base.Lists.{take}
use claude_share.Base.Errors.{Error, ok, err, foreign}
use claude_share.Base.Dict
use claude_share.Base.Dict.{Dict, bytes_key}
use claude_share.Base.Exec.{Exec}

pub record Disk : Type 0 where
  pub files : Dict Bytes Bytes
  pub time : ℕ

-- What the environment decides: the failures, the bytes that a failed write has written, and the
-- random part of a temporary name.
pub record World : Type 0 where
  pub faults : ℕ → Option Error
  pub written : ℕ → ℕ
  pub random : ℕ → Bytes

abbrev pub not_exist : Error
not_exist = foreign (codes "file does not exist")

-- errors.Is(err, os.ErrNotExist), os.IsNotExist(err)
abbrev pub is_not_exist : Error → Bool
is_not_exist (foreign m) = bytes_eq m (codes "file does not exist")
is_not_exist e = false

abbrev pub already_exists : Error
already_exists = foreign (codes "file already exists")

abbrev pub tick : Disk → Disk
tick d = record d { time = d.time + 1 }

module _ (w : World) where
  -- os.CreateTemp in the directory: a new empty file.
  abbrev pub create_temp : Bytes → Exec Disk Bytes
  create_temp prefix d =
      let name = prefix ++ w.random d.time in
      elim (w.faults d.time) [
        | some e ↦ (err e, tick d)
        | none ↦ elim (Dict.get name d.files) [
          | some _ ↦ (err already_exists, tick d)
          | none ↦ (ok name, record { files = Dict.put name [] d.files; time = d.time + 1 })
        ]
      ]

  abbrev pub write : Bytes → Bytes → Exec Disk Unit
  write name content d = elim (w.faults d.time) [
    | some e ↦ (
      err e,
      record { files = Dict.put name (take (w.written d.time) content) d.files; time = d.time + 1 },
    )
    | none ↦ (ok tt, record { files = Dict.put name content d.files; time = d.time + 1 })
  ]

  abbrev pub close : Exec Disk Unit
  close d = elim (w.faults d.time) [ some e ↦ (err e, tick d) | none ↦ (ok tt, tick d) ]

  -- os.Rename: it happens whole or not at all.
  abbrev pub rename : Bytes → Bytes → Exec Disk Unit
  rename from to d = elim (w.faults d.time) [
    | some e ↦ (err e, tick d)
    | none ↦ elim (Dict.get from d.files) [
      | none ↦ (err not_exist, tick d)
      | some c ↦
          (ok tt, record { files = Dict.put to c (Dict.delete from d.files); time = d.time + 1 })
    ]
  ]

  abbrev pub remove : Bytes → Exec Disk Unit
  remove name d = elim (w.faults d.time) [
    | some e ↦ (err e, tick d)
    | none ↦ elim (Dict.get name d.files) [
      | none ↦ (err not_exist, tick d)
      | some _ ↦ (ok tt, record { files = Dict.delete name d.files; time = d.time + 1 })
    ]
  ]

  abbrev pub read_file : Bytes → Exec Disk Bytes
  read_file name d = elim (w.faults d.time) [
    | some e ↦ (err e, tick d)
    | none ↦ elim (Dict.get name d.files) [
      | none ↦ (err not_exist, tick d)
      | some c ↦ (ok c, tick d)
    ]
  ]

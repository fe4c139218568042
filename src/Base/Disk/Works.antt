-- ===== src/Base/Disk/Works.antt =====
-- The calls on a disk on which none fails.
use Prim.Native.Nat.{ℕ, ◌+◌}
use mathlib.Core.Path.{◌≡◌}
use mathlib.Core.Option.{Option, none, some}
use mathlib.Core.List.{[], ◌++◌}
use native.Mathlib.Omega.{arith}
use claude_share.Base.Tests.{if◌then◌else◌}
use claude_share.Base.Texts.{Bytes, bytes_eq}
use claude_share.Base.Errors.{ok}
use claude_share.Base.Dict
use claude_share.Base.Dict.{Dict, bytes_key}
use claude_share.Base.Disk.{Disk, World, create_temp, write, close, rename, remove, tick}

-- Only the file of the path is another one.
abbrev pub Put : Bytes → Option Bytes → Disk → Disk → Type 0
Put path new d d' =
    (k : Bytes) → Dict.get k d'.files ≡ (if bytes_eq path k then new else Dict.get k d.files)

abbrev pub next : (Dict Bytes Bytes → Dict Bytes Bytes) → Disk → Disk
next f d = record { files = f d.files; time = d.time + 1 }

module _ (w : World) (works : (t : ℕ) → w.faults t ≡ none) where
  pub write_run :
      (name content : Bytes) (d : Disk)
      → write w name content d ≡ (ok tt, next (Dict.put name content) d)
  write_run name content d = ground (arith, works d.time)

  pub close_run : (d : Disk) → close w d ≡ (ok tt, tick d)
  close_run d = ground (arith, works d.time)

  pub rename_run :
      (from to c : Bytes) (d : Disk)
      → Dict.get from d.files ≡ some c
      → rename w from to d ≡ (ok tt, next (λ m. Dict.put to c (Dict.delete from m)) d)
  rename_run from to c d h = ground (arith, works d.time, h)

  pub create_temp_run :
      (prefix : Bytes) (d : Disk)
      → Dict.get (prefix ++ w.random d.time) d.files ≡ none
      → create_temp w prefix d
        ≡ (ok (prefix ++ w.random d.time), next (Dict.put (prefix ++ w.random d.time) []) d)
  create_temp_run prefix d h = ground (arith, works d.time, h)

  pub removed :
      (name : Bytes) (d : Disk) → Dict.get name d.files ≡ none → (remove w name d).1.files ≡ d.files
  removed name d h = ground (arith, works d.time, h)

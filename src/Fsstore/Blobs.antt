-- ===== src/Fsstore/Blobs.antt =====
-- internal/adapters/workspace/fsstore/blobstore.go. The state is the store's directory: a blob is
-- the file that has the hash for its name. SHA-256 is the parameter `sum`; the failures of the
-- file system are the parameter `w`.
pub mod Atomic
pub mod Stored
pub mod Working
use claude_share.Base.{
  Bool, true, false, not, ◌&&◌, Bytes, bytes_eq, codes, Option, none, some, List, [], ◌∷◌, ◌==◌,
  if◌then◌else◌, length, Error, Result, ok, err, invalid_hash, hash_mismatch,
}
use claude_share.Base.Dict
use claude_share.Base.Dict.{Dict, bytes_key}
use claude_share.Base.Exec.{Exec, pure, fail, lift, ◌>>=◌, ◌>>◌}
use claude_share.Base.Disk.{
  Disk, World, is_not_exist, create_temp, write, close, rename, remove, read_file, tick,
}
use claude_share.Fsutil.Hash.{all_hex, hash_content}

unfoldable pub valid_hash : Bytes → Bool
valid_hash h = if not (length h == 64) then false else all_hex h

abbrev check : Bool → Error → Exec Disk Unit
check test e d = if test then (ok tt, d) else (err e, d)

-- `defer os.Remove(name)`: the call's own result is dropped.
abbrev deferring_remove : World → Bytes → Exec Disk Unit → Exec Disk Unit
deferring_remove w name m d = let (r, d') = m d in (r, (remove w name d').1)

-- `NewBlobStore`, over os.MkdirAll; a `BlobStore` is its directory.
unfoldable pub new_blob_store : {S : Type 0} → (Bytes → Exec S Unit) → Bytes → Exec S Bytes
new_blob_store make_all dir = do make_all dir; pure dir

module _ (sum : Bytes → Bytes) (w : World) where
  -- `Has`: os.Stat, where a missing file is no error.
  unfoldable pub has : Bytes → Exec Disk Bool
  unfolding valid_hash
  has hash = do
    check (valid_hash hash) (invalid_hash hash)
    λ d. elim (w.faults d.time) [
      | some e ↦ (if is_not_exist e then ok false else err e, tick d)
      | none ↦ (ok (elim (Dict.get hash d.files) [ some _ ↦ true | none ↦ false ]), tick d)
    ]

  -- The writes of `Put`, from the temporary file on.
  store : Bytes → Bytes → Bytes → Exec Disk Unit
  store hash content tmp = do write w tmp content; close w; rename w tmp hash

  unfoldable pub put : Bytes → Bytes → Exec Disk Unit
  unfolding store valid_hash hash_content
  put hash content = do
    check (valid_hash hash) (invalid_hash hash)
    check (bytes_eq (hash_content sum content) hash) (hash_mismatch (hash_content sum content) hash)
    tmp ← create_temp w (codes ".tmp-")
    deferring_remove w tmp (store hash content tmp)

  unfoldable pub get : Bytes → Exec Disk Bytes
  unfolding valid_hash
  get hash = do check (valid_hash hash) (invalid_hash hash); read_file w hash

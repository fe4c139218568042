-- ===== src/Fsstore/Blobs/Stored.antt =====
-- `Put`, `Has` and `Get` of internal/adapters/workspace/fsstore/blobstore.go when no call fails.
use claude_share.Base.{
  ◌≡◌, ◌≢◌, inl, inr, ◌∙◌, true, Bytes, bytes_eq, bytes_eq_refl, Error, Bool-cases, bytes_eq_refl,
  codes, some, length, arith, Result, ok, err, All, IsByte,
}
use claude_share.Base.Dict
use claude_share.Base.Dict.{Dict, bytes_key, get-put, get-delete, get-put_self}
use claude_share.Base.Disk.{Disk, World, create_temp, write, close, rename}
use claude_share.Base.Exec.{Exec, bind-post, ◌>>=◌, ◌>>◌}
use claude_share.Fsutil.Hash.{hash_content, length-encode_to_string, all_hex-encode_to_string}
use claude_share.Fsstore.Blobs.Atomic.{ne_temp, remove_effect, create_name}
use claude_share.Fsstore.Blobs.{valid_hash, deferring_remove, store, put}

-- SHA-256 gives 32 bytes.
unfoldable pub IsSha256 : (Bytes → Bytes) → Type 0
IsSha256 sum = (b : Bytes) → (length (sum b) ≡ 32) × All IsByte (sum b)

pub valid_hash-hash_content :
    (sum : Bytes → Bytes) (b : Bytes) → IsSha256 sum → valid_hash (hash_content sum b) ≡ true
unfolding valid_hash hash_content IsSha256
valid_hash-hash_content sum b sha =
    ground (
      arith,
      length-encode_to_string (sum b),
      all_hex-encode_to_string (sum b) (sha b).1,
      (sha b).0,
    )

close_files : (w : World) (d : Disk) → (close w d).1.files ≡ d.files
close_files w d = ground arith

module _ (w : World) (tmp content : Bytes) where
  written :
      (d : Disk)
      → (write w tmp content d).0 ≡ ok tt
      → Dict.get tmp (close w (write w tmp content d).1).1.files ≡ some content
  written d h =
      rw (close_files w (write w tmp content d).1)
        (ground (arith, h, get-put tmp tmp content d.files, bytes_eq_refl tmp))

module _ (sum : Bytes → Bytes) (w : World) (hash content : Bytes) where
  abbrev Kept : Result (Unit {0}) → Disk → Type 0
  Kept r d = r ≡ ok tt → Dict.get hash d.files ≡ some content

  Kept-failed : (e : Error) (d : Disk) → Kept (err e) d
  Kept-failed e d h = cc h

  rename-Kept :
      (tmp : Bytes) (d : Disk)
      → Dict.get tmp d.files ≡ some content
      → Kept (rename w tmp hash d).0 (rename w tmp hash d).1
  rename-Kept tmp d h done =
      ground (arith, get-put hash hash content (Dict.delete tmp d.files), bytes_eq_refl hash)

  store-Kept :
      (tmp : Bytes) (d : Disk)
      → Kept (store sum w hash content tmp d).0 (store sum w hash content tmp d).1
  unfolding store
  store-Kept tmp d =
      bind-post Kept Kept-failed (write w tmp content) (λ _. do close w; rename w tmp hash) d
        (λ _ wrote.
          bind-post Kept Kept-failed (close w) (λ _. rename w tmp hash) (write w tmp content d).1
            (λ _ _.
              rename-Kept tmp (close w (write w tmp content d).1).1
                (written w tmp content d wrote)))

  abbrev rest : Exec Disk Unit
  rest =
      create_temp w (codes ".tmp-") >>= λ tmp. deferring_remove w tmp (store sum w hash content tmp)

  rest-Kept : (d : Disk) → valid_hash hash ≡ true → Kept (rest d).0 (rest d).1
  rest-Kept d valid =
      bind-post Kept Kept-failed (create_temp w (codes ".tmp-"))
        (λ tmp. deferring_remove w tmp (store sum w hash content tmp)) d
        (λ tmp named done.
          let opened = (create_temp w (codes ".tmp-") d).1 in
          let apart : hash ≢ tmp =
            rw (create_name sum w hash content hash d tmp named)
              (ne_temp hash (w.random d.time) valid) in
          remove_effect w hash tmp apart (store sum w hash content tmp opened).1
          ∙ store-Kept tmp opened done)

  -- After a Put that reports success, the blob is there, whole.
  pub put_stores :
      (d : Disk)
      → (put sum w hash content d).0 ≡ ok tt
      → Dict.get hash (put sum w hash content d).1.files ≡ some content
  unfolding put
  put_stores d = elim (Bool-cases (valid_hash hash)) [
    | inr e ↦ rw e (λ h. cc h)
    | inl e ↦ rw e (elim (Bool-cases (bytes_eq (hash_content sum content) hash)) [
      | inr f ↦ rw f (λ h. cc h)
      | inl f ↦ rw f (rest-Kept d e)
    ])
  ]

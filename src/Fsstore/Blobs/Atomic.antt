-- ===== src/Fsstore/Blobs/Atomic.antt =====
-- `Put` of internal/adapters/workspace/fsstore/blobstore.go under failures of the file system.
use claude_share.Base.{
  ◌≡◌, ◌≢◌, ◌⊎◌, inl, inr, refl, ap, sym, ◌∙◌, true, Bytes, bytes_eq, bytes_eq_iff, codes, some, [],
  ◌++◌, take, arith, ok, Bool-cases,
}
use claude_share.Base.Dict
use claude_share.Base.Dict.{Dict, bytes_key, get-put, get-delete}
use claude_share.Base.Exec.{bind-after, ◌>>=◌, ◌>>◌}
use claude_share.Base.Disk.{Disk, World, create_temp, write, close, rename, remove}
use claude_share.Fsutil.Hash.{hash_content}
use claude_share.Fsstore.Blobs.{valid_hash, deferring_remove, store, put}

-- A temporary file never has the name of a blob.
pub ne_temp : (k r : Bytes) → valid_hash k ≡ true → k ≢ codes ".tmp-" ++ r
ne_temp k r h e = no_temp r (rw e at h)
  where
    no_temp : (r : Bytes) → valid_hash (codes ".tmp-" ++ r) ≡ true → ⊥
    no_temp r h = unfold valid_hash in ground arith

-- What each call does to the file k, when k is not the temporary file.
module _ (w : World) (k tmp : Bytes) (apart : k ≢ tmp) where
  pub write_effect :
      (c : Bytes) (d : Disk)
      → (Dict.get k (write w tmp c d).1.files ≡ Dict.get k d.files)
        × ((write w tmp c d).0 ≡ ok tt → Dict.get tmp (write w tmp c d).1.files ≡ some c)
  write_effect c d = ground (
    arith,
    get-put tmp k c d.files,
    get-put tmp tmp c d.files,
    get-put tmp k (take (w.written d.time) c) d.files,
    bytes_eq_iff tmp k,
    bytes_eq_iff tmp tmp,
  )

  pub remove_effect : (d : Disk) → Dict.get k (remove w tmp d).1.files ≡ Dict.get k d.files
  remove_effect d = ground (arith, get-delete tmp k d.files, bytes_eq_iff tmp k)

  pub rename_effect :
      (to c : Bytes) (d : Disk)
      → Dict.get tmp d.files ≡ some c
      → (Dict.get k (rename w tmp to d).1.files ≡ Dict.get k d.files)
        ⊎ ((k ≡ to) × (Dict.get k (rename w tmp to d).1.files ≡ some c))
  rename_effect to c d h = ground (
    arith,
    get-put to k c (Dict.delete tmp d.files),
    get-delete tmp k d.files,
    bytes_eq_iff tmp k,
    bytes_eq_iff to k,
  )

pub close_effect : (w : World) (d : Disk) → (close w d).1.files ≡ d.files
close_effect w d = ground arith

module _ (sum : Bytes → Bytes) (w : World) (hash content k : Bytes) where
  abbrev Effect : Disk → Disk → Type 0
  Effect d d' =
      (Dict.get k d'.files ≡ Dict.get k d.files)
      ⊎ ((k ≡ hash) × (Dict.get k d'.files ≡ some content))

  store-Effect : (tmp : Bytes) (d : Disk) → k ≢ tmp → Effect d (store sum w hash content tmp d).1
  unfolding store
  store-Effect tmp d apart =
      let written = write_effect w k tmp apart content d in
      let closed = close_effect w (write w tmp content d).1 in
      bind-after (Effect d) (write w tmp content) (λ _. do close w; rename w tmp hash) d
        (inl written.0)
        (λ _ wrote.
          bind-after (Effect d) (close w) (λ _. rename w tmp hash) (write w tmp content d).1
            (inl (rw closed written.0))
            (λ _ _.
              elim (rename_effect w k tmp apart hash content (close w (write w tmp content d).1).1
                (rw closed (wrote_it wrote))) [
                  | inl same ↦ inl (same ∙ ap (Dict.get k) closed ∙ written.0)
                  | inr new ↦ inr new
                ]))
    where
      wrote_it :
          (write w tmp content d).0 ≡ ok tt
          → Dict.get tmp (write w tmp content d).1.files ≡ some content
      wrote_it = (write_effect w k tmp apart content d).1

  create_effect :
      (d : Disk)
      → valid_hash k ≡ true
      → Dict.get k (create_temp w (codes ".tmp-") d).1.files ≡ Dict.get k d.files
  create_effect d valid = ground (
    arith,
    get-put (codes ".tmp-" ++ w.random d.time) k [] d.files,
    bytes_eq_iff (codes ".tmp-" ++ w.random d.time) k,
    ne_temp k (w.random d.time) valid,
  )

  pub create_name :
      (d : Disk) (tmp : Bytes)
      → (create_temp w (codes ".tmp-") d).0 ≡ ok tmp
      → tmp ≡ codes ".tmp-" ++ w.random d.time
  create_name d tmp h = ground arith

  temp-Effect :
      (d : Disk)
      → valid_hash k ≡ true
      → Effect d
          ((create_temp w (codes ".tmp-") >>= λ tmp.
              deferring_remove w tmp (store sum w hash content tmp))
            d).1
  temp-Effect d valid =
      bind-after (Effect d) (create_temp w (codes ".tmp-"))
        (λ tmp. deferring_remove w tmp (store sum w hash content tmp)) d
        (inl (create_effect d valid))
        (λ tmp named.
          let opened = (create_temp w (codes ".tmp-") d).1 in
          let apart : k ≢ tmp = rw (create_name d tmp named) (ne_temp k (w.random d.time) valid) in
          let removed = remove_effect w k tmp apart (store sum w hash content tmp opened).1 in
          elim (store-Effect tmp opened apart) [
            | inl same ↦ inl (removed ∙ same ∙ create_effect d valid)
            | inr (this, new) ↦ inr (this, removed ∙ new)
          ])

  -- Whatever calls fail: a blob is as it was, or it is the one that was put, whole, and its bytes
  -- have the hash.
  pub put_atomic :
      (d : Disk)
      → valid_hash k ≡ true
      → (Dict.get k (put sum w hash content d).1.files ≡ Dict.get k d.files)
        ⊎ ((k ≡ hash)
            × (hash_content sum content ≡ hash)
            × (Dict.get k (put sum w hash content d).1.files ≡ some content))
  unfolding put
  put_atomic d valid = elim (Bool-cases (valid_hash hash)) [
    | inr e ↦ rw e (inl refl)
    | inl e ↦ rw e (elim (Bool-cases (bytes_eq (hash_content sum content) hash)) [
      | inr f ↦ rw f (inl refl)
      | inl f ↦ rw f (elim (temp-Effect d valid) [
        | inl same ↦ inl same
        | inr (this, new) ↦ inr (this, (bytes_eq_iff (hash_content sum content) hash).0 f, new)
      ])
    ])
  ]

-- Every blob has the bytes that its name is the hash of.
unfoldable pub IsAddressed : (Bytes → Bytes) → Disk → Type 0
IsAddressed sum d =
    (k c : Bytes) → valid_hash k ≡ true → Dict.get k d.files ≡ some c → hash_content sum c ≡ k

-- No call of Put, whatever fails in it, breaks the store.
pub put-IsAddressed :
    (sum : Bytes → Bytes) (w : World) (hash content : Bytes) (d : Disk)
    → IsAddressed sum d
    → IsAddressed sum (put sum w hash content d).1
unfolding IsAddressed
put-IsAddressed sum w hash content d before k c valid found =
    elim (put_atomic sum w hash content k d valid) [
      | inl same ↦ before k c valid (sym same ∙ found)
      | inr (this, right, new) ↦ cc (right, this, new, found)
    ]

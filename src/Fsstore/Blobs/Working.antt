-- ===== src/Fsstore/Blobs/Working.antt =====
-- internal/adapters/workspace/fsstore/blobstore.go on a disk on which no call fails.
use claude_share.Base.{
  ℕ, ◌+◌, ◌≡◌, refl, ap, ◌∙◌, Bool, true, false, Bytes, bytes_eq_iff, bytes_eq_refl, codes, Option,
  none, some, [], ◌++◌, arith, Result, ok,
}
use claude_share.Base.Dict
use claude_share.Base.Dict.{Dict, bytes_key, get-put, get-delete, get-put_self}
use claude_share.Base.Exec.{bind-run, ◌>>=◌, ◌>>◌}
use claude_share.Base.Disk.{Disk, World, create_temp, write, close, rename, remove, tick}
use claude_share.Base.Disk.Works.{
  Put, next, write_run, close_run, rename_run, create_temp_run, removed,
}
use claude_share.Fsutil.Hash.{hash_content}
use claude_share.Fsstore.Blobs.{valid_hash, deferring_remove, store, has, put, get}
use claude_share.Fsstore.Blobs.Atomic.{ne_temp}

-- Whether the store has a blob, and its bytes.
abbrev pub is_some : Option Bytes → Bool
is_some none = false
is_some (some _) = true

abbrev pub bytes_of : Option Bytes → Bytes
bytes_of none = []
bytes_of (some c) = c

-- No blob is being written.
abbrev pub IsSettled : World → Disk → Type 0
IsSettled w d = (t : ℕ) → Dict.get (codes ".tmp-" ++ w.random t) d.files ≡ none

module _ (sum : Bytes → Bytes) (w : World) where
  pub has_files : (hash : Bytes) (d : Disk) → (has sum w hash d).1.files ≡ d.files
  unfolding has
  has_files hash d = ground arith

  pub get_files : (hash : Bytes) (d : Disk) → (get sum w hash d).1.files ≡ d.files
  unfolding get
  get_files hash d = ground arith

  pub get_reads :
      (hash c : Bytes) (d : Disk) → (get sum w hash d).0 ≡ ok c → Dict.get hash d.files ≡ some c
  unfolding get
  get_reads hash c d h = ground (arith, h)

module _ (sum : Bytes → Bytes) (w : World) (works : (t : ℕ) → w.faults t ≡ none) where
  pub has_run :
      (hash : Bytes) (d : Disk)
      → valid_hash hash ≡ true
      → has sum w hash d ≡ (ok (is_some (Dict.get hash d.files)), tick d)
  unfolding has
  has_run hash d valid = ground (arith, valid, works d.time)

  pub get_run :
      (hash c : Bytes) (d : Disk)
      → valid_hash hash ≡ true
      → Dict.get hash d.files ≡ some c
      → get sum w hash d ≡ (ok c, tick d)
  unfolding get
  get_run hash c d valid found = ground (arith, valid, works d.time, found)

  store_run :
      (hash content tmp : Bytes) (d : Disk)
      → store sum w hash content tmp d ≡ (
        ok tt,
        record {
          files = Dict.put hash content (Dict.delete tmp (Dict.put tmp content d.files));
          time = d.time + 1 + 1 + 1;
        },
      )
  unfolding store
  store_run hash content tmp d =
      let d₁ = next (Dict.put tmp content) d in
      bind-run (write w tmp content) (λ _. do close w; rename w tmp hash) d d₁ tt
        (write_run w works tmp content d)
      ∙ bind-run (close w) (λ _. rename w tmp hash) d₁ (tick d₁) tt (close_run w works d₁)
      ∙ rename_run w works tmp hash content (tick d₁) (get-put_self tmp content d.files)

  -- A Put of a content under its hash succeeds; only the file of the hash is another one.
  pub put-Put :
      (hash content : Bytes) (d : Disk)
      → valid_hash hash ≡ true
      → hash_content sum content ≡ hash
      → IsSettled w d
      → ((put sum w hash content d).0 ≡ ok tt)
        × Put hash (some content) d (put sum w hash content d).1
  unfolding put
  put-Put hash content d valid right settled =
      let tmp = codes ".tmp-" ++ w.random d.time in
      let no_tmp : Dict.get tmp d.files ≡ none = settled d.time in
      let d₁ = next (Dict.put tmp []) d in
      let files = Dict.put hash content (Dict.delete tmp (Dict.put tmp content d₁.files)) in
      let set : Put hash (some content) d (record d { files = files }) = λ k. ground (
        arith,
        get-put hash k content (Dict.delete tmp (Dict.put tmp content d₁.files)),
        get-delete tmp k (Dict.put tmp content d₁.files),
        get-put tmp k content d₁.files,
        get-put tmp k [] d.files,
        bytes_eq_iff tmp k,
        no_tmp,
      ) in
      let d₂ : Disk = record { files = files; time = d₁.time + 1 + 1 + 1 } in
      let run : (create_temp w (codes ".tmp-") >>= λ tmp.
      deferring_remove w tmp (store sum w hash content tmp))
            d
          ≡ (ok tt, (remove w tmp d₂).1) =
        bind-run (create_temp w (codes ".tmp-"))
          (λ tmp. deferring_remove w tmp (store sum w hash content tmp)) d d₁ tmp
          (create_temp_run w works (codes ".tmp-") d no_tmp)
        ∙ ap (λ (q : Result (Unit {0}) × Disk). (q.0, (remove w tmp q.1).1))
            (store_run hash content tmp d₁) in
      let gone : Dict.get tmp files ≡ none =
        ground
          (arith, set tmp, no_tmp, bytes_eq_iff hash tmp, ne_temp hash (w.random d.time) valid) in
      rw (valid, right, bytes_eq_refl hash, run)
        (refl, λ k. rw (removed w works tmp d₂ gone) (set k))

  pub Put-IsSettled :
      (hash : Bytes) (new : Option Bytes) (d d' : Disk)
      → valid_hash hash ≡ true
      → Put hash new d d'
      → IsSettled w d
      → IsSettled w d'
  Put-IsSettled hash new d d' valid set settled t =
      let k = codes ".tmp-" ++ w.random t in
      ground (arith, set k, settled t, bytes_eq_iff hash k, ne_temp hash (w.random t) valid)

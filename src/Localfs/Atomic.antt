-- ===== src/Localfs/Atomic.antt =====
-- Apply of internal/adapters/localfs/localfs.go under failures of the file system.
use claude_share.Base.{
  ℕ, ◌≡◌, ◌≢◌, ◌⊎◌, inl, inr, refl, ap, sym, ◌∙◌, Bytes, bytes_eq, bytes_eq_iff, Option, none, some,
  [], ◌++◌, if◌then◌else◌, arith, Result, Result-cases, ok, Bool-cases,
}
use claude_share.Base.Dict
use claude_share.Base.Dict.{bytes_key, get-put, get-delete}
use claude_share.Base.Exec.{bind-after, ◌>>=◌, ◌>>◌}
use claude_share.Base.Disk.{Disk, World, create_temp, write, close, rename}
use claude_share.Domain.{FileChange, change_delete}
use claude_share.Fsutil.SafeJoin.{safe_join}
use claude_share.Fsstore.Blobs.Atomic.{write_effect, remove_effect, rename_effect, close_effect}
use claude_share.Localfs.{
  temp_prefix, untouched, deferring_remove, remove_file, replace, write_file, apply,
}

untouched_effect : (w : World) (d : Disk) → (untouched w d).1.files ≡ d.files
untouched_effect w d = ground arith

module _ (w : World) (path content k : Bytes) where
  abbrev Effect : Disk → Disk → Type 0
  Effect d d' =
      (Dict.get k d'.files ≡ Dict.get k d.files)
      ⊎ ((k ≡ path) × (Dict.get k d'.files ≡ some content))

  replace-Effect : (tmp : Bytes) (d : Disk) → k ≢ tmp → Effect d (replace w path content tmp d).1
  unfolding replace
  replace-Effect tmp d apart =
      let d₁ = (write w tmp content d).1 in
      let d₂ = (close w d₁).1 in
      let d₃ = (untouched w d₂).1 in
      let (same, wrote_it) = write_effect w k tmp apart content d in
      let closed = ap (Dict.get k) (close_effect w d₁) ∙ same in
      let set = ap (Dict.get k) (untouched_effect w d₂) ∙ closed in
      bind-after (Effect d) (write w tmp content) (λ _. do close w; untouched w; rename w tmp path)
        d (inl same)
        (λ _ wrote.
          bind-after (Effect d) (close w) (λ _. do untouched w; rename w tmp path) d₁ (inl closed)
            (λ _ _.
              bind-after (Effect d) (untouched w) (λ _. rename w tmp path) d₂ (inl set)
                (λ _ _.
                  elim (rename_effect w k tmp apart path content d₃
                    (rw (untouched_effect w d₂, close_effect w d₁) (wrote_it wrote))) [
                      | inl kept ↦ inl (kept ∙ set)
                      | inr new ↦ inr new
                    ])))

  create_effect :
      (prefix : Bytes) (d : Disk)
      → k ≢ prefix ++ w.random d.time
      → Dict.get k (create_temp w prefix d).1.files ≡ Dict.get k d.files
  create_effect prefix d apart = ground (
    arith,
    get-put (prefix ++ w.random d.time) k [] d.files,
    bytes_eq_iff (prefix ++ w.random d.time) k,
    apart,
  )

  create_name :
      (prefix : Bytes) (d : Disk) (tmp : Bytes)
      → (create_temp w prefix d).0 ≡ ok tmp
      → tmp ≡ prefix ++ w.random d.time
  create_name prefix d tmp h = ground arith

  write_file-Effect :
      (d : Disk)
      → ((t : ℕ) → k ≢ temp_prefix path ++ w.random t)
      → Effect d (write_file w path content d).1
  unfolding write_file
  write_file-Effect d no_temp =
      let prefix = temp_prefix path in
      let d₁ = (untouched w d).1 in
      let d₂ = (create_temp w prefix d₁).1 in
      let made = ap (Dict.get k) (untouched_effect w d) in
      let created = create_effect prefix d₁ (no_temp d₁.time) ∙ made in
      bind-after (Effect d) (untouched w)
        (λ _. create_temp w prefix >>= λ tmp. deferring_remove w tmp (replace w path content tmp)) d
        (inl made)
        (λ _ _.
          bind-after (Effect d) (create_temp w prefix)
            (λ tmp. deferring_remove w tmp (replace w path content tmp)) d₁ (inl created)
            (λ tmp named.
              let apart : k ≢ tmp = rw (create_name prefix d₁ tmp named) (no_temp d₁.time) in
              let removed = remove_effect w k tmp apart (replace w path content tmp d₂).1 in
              elim (replace-Effect tmp d₂ apart) [
                | inl same ↦ inl (removed ∙ same ∙ created)
                | inr (this, new) ↦ inr (this, removed ∙ new)
              ]))

module _ (w : World) (path k : Bytes) where
  remove_file_effect :
      (d : Disk)
      → (Dict.get k (remove_file w path d).1.files ≡ Dict.get k d.files)
        ⊎ ((k ≡ path) × (Dict.get k (remove_file w path d).1.files ≡ none))
  unfolding remove_file
  remove_file_effect d = ground (arith, get-delete path k d.files, bytes_eq_iff path k)

-- What a change makes of its file.
abbrev pub changed : FileChange → Bytes → Option Bytes
changed ch content = if bytes_eq ch.op change_delete then none else some content

-- Whatever calls fail in Apply: a file that is not a temporary one is as it was, or it is the one
-- that SafeJoin gives for the change, and is whole or gone as the change says.
pub apply_atomic :
    (w : World) (getwd : Result Bytes) (root : Bytes) (ch : FileChange) (content k : Bytes)
    (d : Disk)
    → ((path : Bytes) (t : ℕ)
        → safe_join getwd root ch.path ≡ ok path
        → k ≢ temp_prefix path ++ w.random t)
    → (Dict.get k (apply w getwd root ch content d).1.files ≡ Dict.get k d.files)
      ⊎ ((safe_join getwd root ch.path ≡ ok k)
          × (Dict.get k (apply w getwd root ch content d).1.files ≡ changed ch content))
unfolding apply
apply_atomic w getwd root ch content k d no_temp =
    elim (Result-cases (safe_join getwd root ch.path)) [
      | inl (e, h) ↦ rw h (inl refl)
      | inr (path, h) ↦ elim (Bool-cases (bytes_eq ch.op change_delete)) [
        | inl q ↦
            rw (h, q)
              (elim (remove_file_effect w path k d) [
                | inl same ↦ inl same
                | inr (this, gone) ↦ inr (ap ok (sym this), gone)
              ])
        | inr q ↦
            rw (h, q)
              (elim (write_file-Effect w path content k d (λ t. no_temp path t h)) [
                | inl same ↦ inl same
                | inr (this, new) ↦ inr (ap ok (sym this), new)
              ])
      ]
    ]

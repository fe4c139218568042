-- ===== src/Localfs/Applied.antt =====
-- Apply of internal/adapters/localfs/localfs.go where no call fails.
use claude_share.Base.{
  ℕ, ◌+◌, ◌≡◌, ◌≢◌, inl, inr, refl, ap, ◌∙◌, Bytes, bytes_eq, bytes_eq_iff, Option, none, some, [],
  ◌++◌, arith, Result, ok, Bool-cases,
}
use claude_share.Base.Dict
use claude_share.Base.Dict.{Dict, bytes_key, get-put, get-delete, get-put_self}
use claude_share.Base.Exec.{bind-run, ◌>>=◌, ◌>>◌}
use claude_share.Base.Disk.{Disk, World, create_temp, write, close, rename, remove, tick}
use claude_share.Base.Disk.Works.{
  Put, next, write_run, close_run, rename_run, create_temp_run, removed,
}
use claude_share.Domain.{FileChange, change_delete}
use claude_share.Fsutil.SafeJoin.{safe_join}
use claude_share.Localfs.{
  temp_prefix, untouched, deferring_remove, remove_file, replace, write_file, apply,
}
use claude_share.Localfs.Atomic.{changed}

-- No file has the name of a temporary one.
abbrev pub HasNoTemp : World → Disk → Type 0
HasNoTemp w d = (path : Bytes) (t : ℕ) → Dict.get (temp_prefix path ++ w.random t) d.files ≡ none

abbrev pub IsNoTemp : World → Bytes → Type 0
IsNoTemp w k = (path : Bytes) (t : ℕ) → k ≢ temp_prefix path ++ w.random t

module _ (w : World) (works : (t : ℕ) → w.faults t ≡ none) where
  untouched_run : (d : Disk) → untouched w d ≡ (ok tt, tick d)
  untouched_run d = ground (arith, works d.time)

  remove_file-Put :
      (path : Bytes) (d : Disk)
      → ((remove_file w path d).0 ≡ ok tt) × Put path none d (remove_file w path d).1
  unfolding remove_file bytes_eq
  remove_file-Put path d = (
    ground (arith, works d.time),
    λ k. ground (arith, works d.time, get-delete path k d.files, bytes_eq_iff path k),
  )

  replace_run :
      (path content tmp : Bytes) (d : Disk)
      → replace w path content tmp d ≡ (
        ok tt,
        record {
          files = Dict.put path content (Dict.delete tmp (Dict.put tmp content d.files));
          time = d.time + 1 + 1 + 1 + 1;
        },
      )
  unfolding replace
  replace_run path content tmp d =
      let d₁ = next (Dict.put tmp content) d in
      bind-run (write w tmp content) (λ _. do close w; untouched w; rename w tmp path) d d₁ tt
        (write_run w works tmp content d)
      ∙ bind-run (close w) (λ _. do untouched w; rename w tmp path) d₁ (tick d₁) tt
          (close_run w works d₁)
      ∙ bind-run (untouched w) (λ _. rename w tmp path) (tick d₁) (tick (tick d₁)) tt
          (untouched_run (tick d₁))
      ∙ rename_run w works tmp path content (tick (tick d₁)) (get-put_self tmp content d.files)

  write_file-Put :
      (path content : Bytes) (d : Disk)
      → HasNoTemp w d
      → IsNoTemp w path
      → ((write_file w path content d).0 ≡ ok tt)
        × Put path (some content) d (write_file w path content d).1
  unfolding write_file
  write_file-Put path content d free apart =
      let tmp = temp_prefix path ++ w.random (d.time + 1) in
      let no_tmp : Dict.get tmp d.files ≡ none = free path (d.time + 1) in
      let d₂ = next (Dict.put tmp []) (tick d) in
      let files = Dict.put path content (Dict.delete tmp (Dict.put tmp content d₂.files)) in
      let set : Put path (some content) d (record d { files = files }) = λ k. ground (
        arith,
        get-put path k content (Dict.delete tmp (Dict.put tmp content d₂.files)),
        get-delete tmp k (Dict.put tmp content d₂.files),
        get-put tmp k content d₂.files,
        get-put tmp k [] d.files,
        bytes_eq_iff tmp k,
        no_tmp,
      ) in
      let d₃ : Disk = record { files = files; time = d₂.time + 1 + 1 + 1 + 1 } in
      let run : write_file w path content d ≡ (ok tt, (remove w tmp d₃).1) =
        bind-run (untouched w)
          (λ _. create_temp w (temp_prefix path) >>= λ tmp.
            deferring_remove w tmp (replace w path content tmp))
          d (tick d) tt (untouched_run d)
        ∙ bind-run (create_temp w (temp_prefix path))
            (λ tmp. deferring_remove w tmp (replace w path content tmp)) (tick d) d₂ tmp
            (create_temp_run w works (temp_prefix path) (tick d) no_tmp)
        ∙ ap (λ (q : Result (Unit {0}) × Disk). (q.0, (remove w tmp q.1).1))
            (replace_run path content tmp d₂) in
      let gone : Dict.get tmp files ≡ none =
        ground (arith, set tmp, no_tmp, bytes_eq_iff path tmp, apart path (d.time + 1)) in
      rw run (refl, λ k. rw (removed w works tmp d₃ gone) (set k))

  -- Where no call fails, a change is made: the one file that differs afterwards is that of the
  -- path that SafeJoin gives, and it is whole or gone as the change says.
  pub apply-Put :
      (getwd : Result Bytes) (root path content : Bytes) (ch : FileChange) (d : Disk)
      → safe_join getwd root ch.path ≡ ok path
      → HasNoTemp w d
      → IsNoTemp w path
      → ((apply w getwd root ch content d).0 ≡ ok tt)
        × Put path (changed ch content) d (apply w getwd root ch content d).1
  unfolding apply
  apply-Put getwd root path content ch d placed free apart =
      elim (Bool-cases (bytes_eq ch.op change_delete)) [
        | inl q ↦ rw (placed, q) (remove_file-Put path d)
        | inr q ↦ rw (placed, q) (write_file-Put path content d free apart)
      ]

  pub Put-HasNoTemp :
      (path : Bytes) (new : Option Bytes) (d d' : Disk)
      → Put path new d d'
      → HasNoTemp w d
      → IsNoTemp w path
      → HasNoTemp w d'
  Put-HasNoTemp path new d d' set free apart p t =
      let k = temp_prefix p ++ w.random t in
      ground (arith, set k, free p t, bytes_eq_iff path k, apart p t)

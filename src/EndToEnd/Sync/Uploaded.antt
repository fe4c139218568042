-- ===== src/EndToEnd/Sync/Uploaded.antt =====
-- What the uploads of a sync leave in the store.
use claude_share.Base.{
  ℕ, ◌≡◌, refl, ap, ◌∙◌, inl, inr, true, not, ◌&&◌, Bytes, bytes_eq, bytes_eq_iff, none, some, List,
  [], ◌∷◌, codes, ◌++◌, Result, ok, All, arith, Bool-cases, Option-cases, subst, if◌then◌else◌,
}
use claude_share.Base.Dict
use claude_share.Base.Dict.{Dict, bytes_key}
use claude_share.Base.Exec.{bind-run, ◌>>◌}
use claude_share.Base.Disk.{Disk, World}
use claude_share.Base.Disk.Works.{Put}
use claude_share.Domain.{Manifest, FileEntry}
use claude_share.Fsutil.Hash.{hash_content}
use claude_share.Fsstore.Blobs
use claude_share.Fsstore.Blobs.{valid_hash}
use claude_share.Fsstore.Blobs.Atomic.{IsAddressed}
use claude_share.Fsstore.Blobs.Working.{
  is_some, IsSettled, has_run, has_files, put-Put, Put-IsSettled,
}
use claude_share.Session.{Deps, Service, start_session, put_blob, sync_done}
use claude_share.Session.Missing.{Answers, is_among, has_hash, start_session-missing}
use claude_share.Programs.Server.{Flags}
use claude_share.Programs.Server.Wiring.{Others, Machine, deps}
use claude_share.EndToEnd.Sync.{put_blobs, sync, CanSync, InOrder}

valid_of :
    (h : Bytes) (es : List FileEntry)
    → All (λ (e : FileEntry). valid_hash e.hash ≡ true) es
    → has_hash h es ≡ true
    → valid_hash h ≡ true
unfolding has_hash
valid_of h [] all has = cc has
valid_of h (e ∷ es) (p, all) has = elim (Bool-cases (bytes_eq e.hash h)) [
  | inl q ↦ subst (λ x. valid_hash x ≡ true) ((bytes_eq_iff e.hash h).0 q) p
  | inr q ↦ valid_of h es all (rw q at has)
]

module _ (sum : Bytes → Bytes) (b w : World) (getwd : Result Bytes) (flags : Flags) (q : Others)
    (works : (t : ℕ) → b.faults t ≡ none) where
  abbrev pub p : Deps
  p = deps sum b w getwd flags q

  -- Has answers from the files of the store, and changes no file.
  abbrev store-Answers :
      (s : Machine q)
      → Answers p (λ h. is_some (Dict.get h s.store.files)) (λ h. valid_hash h ≡ true)
  store-Answers s = record {
    Same = λ o. (o.store.files ≡ s.store.files) × (o.work ≡ s.work) × (o.rest ≡ s.rest);
    found = λ h o valid same. rw (has_run sum b works h o.store valid, same.0) refl;
    kept = λ h o same. (has_files sum b h o.store ∙ same.0, same.1, same.2);
  }

  -- The state after a blob was put.
  abbrev with_store : Service p → Disk → Service p
  with_store v d = record v { outside = record v.outside { store = d } }

  put_blob_run :
      (h c : Bytes) (v : Service p)
      → valid_hash h ≡ true
      → hash_content sum c ≡ h
      → IsSettled b v.outside.store
      → (d : Disk) × (put_blob p h c v ≡ (ok tt, with_store v d))
        × IsSettled b d
        × Put h (some c) v.outside.store d
  unfolding put_blob
  put_blob_run h c v valid right settled =
      let d = (Blobs.put sum b h c v.outside.store).1 in
      let (run, set) = put-Put sum b works h c v.outside.store valid right settled in
      (
        d,
        λ i. (run i, with_store v d),
        Put-IsSettled sum b works h (some c) v.outside.store d valid set settled,
        set,
      )

  put_blobs_run :
      (text : Bytes → Bytes) (hs : List Bytes) (v : Service p)
      → ((h : Bytes)
          → is_among h hs ≡ true
          → (valid_hash h ≡ true) × (hash_content sum (text h) ≡ h))
      → IsSettled b v.outside.store
      → (d : Disk) × (put_blobs p text hs v ≡ (ok tt, with_store v d))
        × IsSettled b d
        × ((k : Bytes)
            → Dict.get k d.files
              ≡ (if is_among k hs then some (text k) else Dict.get k v.outside.store.files))
  unfolding put_blobs is_among
  put_blobs_run text [] v good settled = (v.outside.store, refl, settled, λ k. refl)
  put_blobs_run text (h ∷ hs) v good settled =
      let (valid, right) = good h (ground (arith, bytes_eq_iff h h)) in
      let (d, run, settled', set) = put_blob_run h (text h) v valid right settled in
      let (d', runs, settled'', sets) =
        put_blobs_run text hs (with_store v d) (λ k a. good k (ground (arith, a))) settled' in
      (
        d',
        bind-run (put_blob p h (text h)) (λ _. put_blobs p text hs) v (with_store v d) tt run
            ∙ runs,
        settled'',
        λ k. ground (arith, sets k, set k, bytes_eq_iff h k),
      )

  -- After the blobs were put the store has every hash of the project.
  store_holds :
      (text : Bytes → Bytes) (hs : List Bytes) (es : List FileEntry) (old d : Disk) (h : Bytes)
      → IsAddressed sum old
      → ((k : Bytes)
          → Dict.get k d.files ≡ (if is_among k hs then some (text k) else Dict.get k old.files))
      → is_among h hs ≡ (has_hash h es && not (is_some (Dict.get h old.files)))
      → has_hash h es ≡ true
      → valid_hash h ≡ true
      → hash_content sum (text h) ≡ h
      → (c : Bytes) × (Dict.get h d.files ≡ some c) × (hash_content sum c ≡ h)
  unfolding IsAddressed
  store_holds text hs es old d h addressed sets is has valid right =
      elim (Option-cases (Dict.get h old.files)) [
        | inl r ↦ (text h, ground (arith, sets h, is, has, r), right)
        | inr (c, r) ↦ (c, ground (arith, sets h, is, has, r), addressed h c valid r)
      ]

  -- The store has every hash of the entries, with a content of that hash.
  abbrev pub Holds : List FileEntry → Disk → Type 0
  Holds es d =
      (h : Bytes)
      → has_hash h es ≡ true
      → (valid_hash h ≡ true)
        × (c : Bytes) × (Dict.get h d.files ≡ some c)
        × (hash_content sum c ≡ h)

  pub uploaded :
      (name : Bytes) (m : Manifest) (text : Bytes → Bytes) (v : Service p) (dir : Bytes)
      → CanSync sum getwd dir m text
      → InOrder sum b v.outside.store
      → (d : Disk) × (sync p text name m v
          ≡ sync_done p (record v { manifest = m; outside = record v.outside { store = d } }))
        × Holds m.entries d
  unfolding sync
  uploaded name m text v dir can order =
      let (hs, o, run, (files, work, rest), _, is) =
        start_session-missing p (λ h. is_some (Dict.get h v.outside.store.files))
          (λ h. valid_hash h ≡ true) (store-Answers v.outside) name m v can.valid
          (refl, refl, refl) in
      let v₁ : Service p = record v { manifest = m; outside = o } in
      let good : (h : Bytes)
          → has_hash h m.entries ≡ true
          → (valid_hash h ≡ true) × (hash_content sum (text h) ≡ h) =
        λ h has. (valid_of h m.entries can.valid has, can.right h has) in
      let (d, runs, _, sets) =
        put_blobs_run text hs v₁ (λ h asked. good h (ground (arith, is h, asked)))
          (λ t. ap (Dict.get (codes ".tmp-" ++ b.random t)) files ∙ order.settled t) in
      let sets' : (k : Bytes)
          → Dict.get k d.files
            ≡ (if is_among k hs then some (text k) else Dict.get k v.outside.store.files) =
        λ k. sets k ∙ ap (λ f. if is_among k hs then some (text k) else Dict.get k f) files in
      (
        d,
        bind-run (start_session p name m) (λ hs. do put_blobs p text hs; sync_done p) v v₁ hs run
            ∙ bind-run (put_blobs p text hs) (λ _. sync_done p) v₁ (with_store v₁ d) tt runs
            ∙ (λ i. sync_done p (record v {
              manifest = m;
              outside = record { store = d; work = work i; rest = rest i };
            })),
        λ h has.
            let (c, found, right) =
              store_holds text hs m.entries v.outside.store d h order.addressed sets' (is h) has
                (good h has).0 (good h has).1 in
            ((good h has).0, c, found, right),
      )

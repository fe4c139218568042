-- ===== src/Fsstore/Workspace/Written.antt =====
-- What Materialize of internal/adapters/workspace/fsstore/workspace.go leaves in the workspace.
use claude_share.Base.{
  ◌≡◌, refl, ap, ◌∙◌, inl, inr, Bytes, bytes_eq, List, [], ◌∷◌, Option, none, some, Result, Error,
  Result-cases, ok, err, ℕ, All, if◌then◌else◌, arith,
}
use claude_share.Base.Dict
use claude_share.Base.Dict.{Dict, bytes_key, get-put}
use claude_share.Base.Disk.{Disk, World, write, tick}
use claude_share.Base.Exec.{Exec}
use claude_share.Domain.{FileEntry, Manifest}
use claude_share.Fsutil.SafeJoin.{safe_join}
use claude_share.Fsstore.Workspace.{make_dirs, write_entry, write_entries, materialize}

-- What Materialize relies on: what the store returns for a hash is `text` of it, and a Get leaves
-- what the store holds as it is.
pub record Serves {B : Type 0} (get : Bytes → Exec B Bytes) (text : Bytes → Bytes) : Type 1 where
  pub Same : B → Type 0
  pub got : (h c : Bytes) (b : B) → Same b → (get h b).0 ≡ ok c → c ≡ text h
  pub kept : (h : Bytes) (b : B) → Same b → Same (get h b).1

module _ (getwd : Result Bytes) (dir : Bytes) (text : Bytes → Bytes) (k : Bytes) where
  abbrev pub written_to : Result Bytes → Bytes → Option Bytes → Option Bytes
  written_to (ok dst) content old = if bytes_eq dst k then some content else old
  written_to (err e) content old = old

  -- The content of the file k: that of the last entry whose path leads to it, and what was there
  -- before if there is none.
  unfoldable pub final_content : List FileEntry → Option Bytes → Option Bytes
  final_content [] old = old
  final_content (e ∷ es) old =
      final_content es (written_to (safe_join getwd dir e.path) (text e.hash) old)

-- The last entry whose path leads to the file k.
unfoldable pub last_to : Result Bytes → Bytes → Bytes → List FileEntry → Option FileEntry
last_to getwd dir k [] = none
last_to getwd dir k (e ∷ es) = elim (last_to getwd dir k es) [
  | some f ↦ some f
  | none ↦ elim (safe_join getwd dir e.path) [
    | err _ ↦ none
    | ok dst ↦ if bytes_eq dst k then some e else none
  ]
]

abbrev pub text_or : (Bytes → Bytes) → Option FileEntry → Option Bytes → Option Bytes
text_or text none old = old
text_or text (some e) old = some (text e.hash)

pub final_content-last_to :
    (getwd : Result Bytes) (dir : Bytes) (text : Bytes → Bytes) (k : Bytes) (es : List FileEntry)
    (old : Option Bytes)
    → final_content getwd dir text k es old ≡ text_or text (last_to getwd dir k es) old
unfolding final_content last_to
final_content-last_to getwd dir text k [] old = refl
final_content-last_to getwd dir text k (e ∷ es) old = ground (
  arith,
  final_content-last_to getwd dir text k es
      (written_to getwd dir text k (safe_join getwd dir e.path) (text e.hash) old),
)

module _ {B : Type 0} (get : Bytes → Exec B Bytes) (text : Bytes → Bytes) (serves : Serves get text)
    (w : World) (getwd : Result Bytes) (dir : Bytes) (k : Bytes) where
  -- If the call succeeds, the store is as before, and the file has the content.
  abbrev Leaves : Option Bytes → Result (Unit {0}) → B × Disk → Type 0
  Leaves c r s = r ≡ ok tt → serves.Same s.0 × (Dict.get k s.1.files ≡ c)

  Leaves-failed : (c : Option Bytes) (e : Error) (s : B × Disk) → Leaves c (err e) s
  Leaves-failed c e s h = cc h

  write_lem :
      (dst content : Bytes) (d : Disk)
      → (write w dst content d).0 ≡ ok tt
      → Dict.get k (write w dst content d).1.files
        ≡ (if bytes_eq dst k then some content else Dict.get k d.files)
  write_lem dst content d h = ground (arith, h, get-put dst k content d.files)

  make_dirs_lem : (d : Disk) → (make_dirs w getwd dir d).1.files ≡ d.files
  make_dirs_lem d = ground arith

  write_entry-Leaves :
      (e : FileEntry) (b : B) (d : Disk)
      → serves.Same b
      → Leaves
          (written_to getwd dir text k
            (safe_join getwd dir e.path)
            (text e.hash)
            (Dict.get k d.files))
          (write_entry get w getwd dir e (b, d)).0
          (write_entry get w getwd dir e (b, d)).1
  unfolding write_entry
  write_entry-Leaves e b d same h = elim (Result-cases (safe_join getwd dir e.path)) [
    | inl (x, p) ↦ cc (rw p at h)
    | inr (dst, p) ↦ elim (Result-cases (make_dirs w getwd dir d).0) [
      | inl (x, q) ↦ cc (rw (p, q) at h)
      | inr (_, q) ↦ elim (Result-cases (get e.hash b).0) [
        | inl (x, r) ↦ cc (rw (p, q, r) at h)
        | inr (content, r) ↦
            let put : Bytes → Dict Bytes Bytes → Option Bytes =
              λ c f. if bytes_eq dst k then some c else Dict.get k f in
            rw (p, q, r)
              (
                serves.kept e.hash b same,
                write_lem dst content (make_dirs w getwd dir d).1 (rw (p, q, r) at h)
                    ∙ ap (put content) (make_dirs_lem d)
                    ∙ ap (λ c. put c d.files) (serves.got e.hash content b same r),
              )
      ]
    ]
  ]

  write_entries-Leaves :
      (es : List FileEntry) (b : B) (d : Disk)
      → serves.Same b
      → Leaves
          (final_content getwd dir text k es (Dict.get k d.files))
          (write_entries get w getwd dir es (b, d)).0
          (write_entries get w getwd dir es (b, d)).1
  unfolding write_entries final_content
  write_entries-Leaves [] b d same h = (same, refl)
  write_entries-Leaves (e ∷ es) b d same h =
      elim (Result-cases (write_entry get w getwd dir e (b, d)).0) [
        | inl (x, q) ↦ cc (rw q at h)
        | inr (_, q) ↦
            let (b', d') = (write_entry get w getwd dir e (b, d)).1 in
            let (same', one) = write_entry-Leaves e b d same q in
            let (same'', rest) = write_entries-Leaves es b' d' same' (rw q at h) in
            rw q (same'', rest ∙ ap (final_content getwd dir text k es) one)
      ]

  -- After a Materialize that reports success every file of the disk has the content that the store
  -- has for the last entry whose path leads to it, and any other file is as it was.
  pub materialize_writes :
      (m : Manifest) (b : B) (d : Disk)
      → serves.Same b
      → (materialize get w getwd dir m (b, d)).0 ≡ ok tt
      → Dict.get k (materialize get w getwd dir m (b, d)).1.1.files
        ≡ final_content getwd dir text k m.entries (Dict.get k d.files)
  unfolding materialize
  materialize_writes m b d same h = (write_entries-Leaves m.entries b d same h).1

-- An entry whose path is safe and whose content the store can give.
unfoldable pub IsStored : Result Bytes → Bytes → (Bytes → Type 0) → FileEntry → Type 0
IsStored getwd dir Has e = ((dst : Bytes) × (safe_join getwd dir e.path ≡ ok dst)) × Has e.hash

module _ {B : Type 0} (get : Bytes → Exec B Bytes) (text : Bytes → Bytes) (serves : Serves get text)
    (Has : Bytes → Type 0)
    (gives : (h : Bytes) (b : B) → Has h → serves.Same b → (get h b).0 ≡ ok (text h)) (w : World)
    (quiet : (t : ℕ) → w.faults t ≡ none) (getwd : Result Bytes) (dir : Bytes) where
  made : (d : Disk) → make_dirs w getwd dir d ≡ (ok tt, tick d)
  made d = rw (quiet d.time, make_dirs) refl

  wrote : (dst c : Bytes) (d : Disk) → (write w dst c d).0 ≡ ok tt
  wrote dst c d = rw (quiet d.time, write) refl

  write_entry_lem :
      (e : FileEntry) (b : B) (d : Disk)
      → IsStored getwd dir Has e
      → serves.Same b
      → ((write_entry get w getwd dir e (b, d)).0 ≡ ok tt)
        × serves.Same (write_entry get w getwd dir e (b, d)).1.0
  unfolding write_entry IsStored
  write_entry_lem e b d ((dst, p), has) same =
      rw (p, made d, gives e.hash b has same)
        (wrote dst (text e.hash) (tick d), serves.kept e.hash b same)

  write_entries_lem :
      (es : List FileEntry) (b : B) (d : Disk)
      → All (IsStored getwd dir Has) es
      → serves.Same b
      → (write_entries get w getwd dir es (b, d)).0 ≡ ok tt
  unfolding write_entries
  write_entries_lem [] b d h same = refl
  write_entries_lem (e ∷ es) b d (h, hs) same =
      let (b', d') = (write_entry get w getwd dir e (b, d)).1 in
      let (run, same') = write_entry_lem e b d h same in
      rw run (write_entries_lem es b' d' hs same')

  -- When no call on the disk fails, Materialize of a manifest whose paths are safe and whose
  -- contents the store gives succeeds.
  pub materialize_succeeds :
      (m : Manifest) (b : B) (d : Disk)
      → All (IsStored getwd dir Has) m.entries
      → serves.Same b
      → (materialize get w getwd dir m (b, d)).0 ≡ ok tt
  unfolding materialize
  materialize_succeeds m b d h same = write_entries_lem m.entries b d h same

-- ===== src/ClientApp/Upload.antt =====
-- The upload of a project: toDTO and Run of internal/core/clientapp/clientapp.go, against
-- StartSession of internal/core/app/session.go at the other end.
use claude_share.Base.{
  inl, inr, ◌≡◌, refl, sym, ap, ◌∙◌, Bool, true, false, Bytes, bytes_eq, bytes_eq_iff, Option, none,
  some, List, [], ◌∷◌, ◌++◌, map, append-nil, append_assoc, if◌then◌else◌, Result, Result-cases,
  Option-cases, Bool-cases, ok, arith, All,
}
use claude_share.Base.Dict
use claude_share.Base.Dict.{Dict, bytes_key, get-put, get-empty}
use claude_share.Base.Exec.{◌>>=◌, ◌>>◌}
use claude_share.Domain.{Manifest, FileEntry}
use claude_share.ClientApp.{Ports, to_dto, hash_index, upload_loop}
use claude_share.Ws.Server.{to_manifest}
use claude_share.Session.{Deps, Service, start_session}
use claude_share.Session.Missing.{Answers, start_session-missing, is_among, has_hash}

-- The path of the first entry with a hash.
unfoldable pub path_of : Bytes → List FileEntry → Option Bytes
path_of h [] = none
path_of h (e ∷ es) = if bytes_eq e.hash h then some e.path else path_of h es

abbrev or_else : Option Bytes → Option Bytes → Option Bytes
or_else none b = b
or_else (some a) b = some a

hash_index_lem :
    (h : Bytes) (es : List FileEntry) (idx : Dict Bytes Bytes)
    → Dict.get h (hash_index es idx) ≡ or_else (Dict.get h idx) (path_of h es)
unfolding hash_index path_of
hash_index_lem h [] idx = ground arith
hash_index_lem h (e ∷ es) idx = ground (
  arith,
  hash_index_lem h es idx,
  hash_index_lem h es (Dict.put e.hash e.path idx),
  get-put e.hash h e.path idx,
  bytes_eq_iff e.hash h,
)

path_of-has_hash :
    (h : Bytes) (es : List FileEntry)
    → has_hash h es ≡ true
    → (path : Bytes) × (path_of h es ≡ some path)
unfolding has_hash path_of
path_of-has_hash h [] x = cc x
path_of-has_hash h (e ∷ es) x = elim (Bool-cases (bytes_eq e.hash h)) [
  | inl q ↦ (e.path, rw q refl)
  | inr q ↦ let (path, r) = path_of-has_hash h es (rw q at x) in (path, rw q r)
]

pub get-to_dto : (h : Bytes) (m : Manifest) → Dict.get h (to_dto m).1 ≡ path_of h m.entries
unfolding to_dto
get-to_dto h m =
    hash_index_lem h m.entries []
    ∙ ap (λ o. or_else o (path_of h m.entries)) (get-empty {V = Bytes} h)

-- The manifest survives the wire.
pub to_manifest-to_dto : (m : Manifest) → to_manifest (to_dto m).0 ≡ m
unfolding to_manifest to_dto
to_manifest-to_dto m = go m.entries
  where
    go :
        (es : List FileEntry)
        → to_manifest (to_dto (record { entries = es })).0 ≡ record { entries = es }
    go [] = refl
    go (e ∷ es) = ap (λ (n : Manifest). record { entries = e ∷ n.entries }) (go es)

-- Whatever the store holds, the server asks the client only for hashes that the client's index
-- knows, at the path of the first entry with the hash, so no upload ends with an unknown hash. This
-- is for valid hashes, and a store that answers for these.
pub requests_known :
    (p : Deps) (present : Bytes → Bool) (IsValid : Bytes → Type 0) (a : Answers p present IsValid)
    (name : Bytes) (m : Manifest) (s : Service p)
    → All (λ (e : FileEntry). IsValid e.hash) m.entries
    → a.Same s.outside
    → (hs : List Bytes) × ((start_session p name (to_manifest (to_dto m).0) s).0 ≡ ok hs)
      × ((h : Bytes)
          → is_among h hs ≡ true
          → (path : Bytes) × (Dict.get h (to_dto m).1 ≡ some path)
            × (path_of h m.entries ≡ some path)
            × (present h ≡ false))
requests_known p present IsValid a name m s valid same =
    let (hs, o', run, _, distinct, is) =
      start_session-missing p present IsValid a name m s valid same in
    let ran : start_session p name (to_manifest (to_dto m).0) s
        ≡ (ok hs, record s { manifest = m; outside = o' }) =
      rw (to_manifest-to_dto m) run in
    (
      hs,
      ap (λ (r : Result (List Bytes) × Service p). r.0) ran,
      λ h asked.
          let both = is h in
          let (path, q) = path_of-has_hash h m.entries (ground (arith, both, asked)) in
          (path, get-to_dto h m ∙ q, q, ground (arith, both, asked)),
    )

-- What the upload relies on: in the states in which the files are those of `text`, reading gives
-- their contents and does not upload, an upload that succeeds was made, and both lead to such states.
pub record Uploads (p : Ports) (text : Bytes → Bytes) : Type 1 where
  pub log : p.Outside → List (Bytes × Bytes)
  pub Same : p.Outside → Type 0
  pub kept-read_file : (path : Bytes) (o : p.Outside) → Same o → Same (p.read_file path o).1
  pub kept-upload_blob : (h c : Bytes) (o : p.Outside) → Same o → Same (p.upload_blob h c o).1
  pub log-read_file : (path : Bytes) (o : p.Outside) → log (p.read_file path o).1 ≡ log o
  pub read_is :
      (path c : Bytes) (o : p.Outside) → Same o → (p.read_file path o).0 ≡ ok c → c ≡ text path
  pub uploaded :
      (h c : Bytes) (o : p.Outside)
      → (p.upload_blob h c o).0 ≡ ok tt
      → log (p.upload_blob h c o).1 ≡ log o ++ (h, c) ∷ []

abbrev pub content_at : (Bytes → Bytes) → Option Bytes → Bytes
content_at text none = []
content_at text (some path) = text path

module _ (p : Ports) (text : Bytes → Bytes) (u : Uploads p text) (by_hash : Dict Bytes Bytes) where
  abbrev upload_of : Bytes → Bytes × Bytes
  upload_of h = (h, content_at text (Dict.get h by_hash))

  upload_one :
      (h path : Bytes) (hs : List Bytes) (o : p.Outside)
      → Dict.get h by_hash ≡ some path
      → upload_loop p by_hash (h ∷ hs) o
        ≡ (do content ← p.read_file path; p.upload_blob h content; upload_loop p by_hash hs) o
  unfolding upload_loop
  upload_one h path hs o q = rw (q, upload_loop) refl

  -- For a client whose uploads are noted when they succeed and over files that do not change, an
  -- upload loop that succeeds has uploaded what was asked for, in order, each hash with the content
  -- of the file that the index has for it.
  pub upload_loop_sends :
      (hs : List Bytes) (o : p.Outside)
      → u.Same o
      → (upload_loop p by_hash hs o).0 ≡ ok tt
      → u.log (upload_loop p by_hash hs o).1
        ≡ u.log o ++ map (λ h. (h, content_at text (Dict.get h by_hash))) hs
  unfolding upload_loop
  upload_loop_sends [] o same done = sym (append-nil (u.log o))
  upload_loop_sends (h ∷ hs) o same done = elim (Option-cases (Dict.get h by_hash)) [
    | inl q ↦ cc (done, q)
    | inr (path, q) ↦
        rw (upload_one h path hs o q, q)
          (one_sent path (rw (upload_one h path hs o q) at done)
            (λ o' same d. upload_loop_sends hs o' same d))
  ]
    where
      one_sent :
          (path : Bytes)
          → ((do content ← p.read_file path; p.upload_blob h content; upload_loop p by_hash hs) o).0
            ≡ ok tt
          → ((o' : p.Outside)
              → u.Same o'
              → (upload_loop p by_hash hs o').0 ≡ ok tt
              → u.log (upload_loop p by_hash hs o').1
                ≡ u.log o' ++ map (λ h. (h, content_at text (Dict.get h by_hash))) hs)
          → u.log
              ((do content ← p.read_file path; p.upload_blob h content; upload_loop p by_hash hs)
                o).1
            ≡ u.log o ++ (h, text path) ∷ map (λ h. (h, content_at text (Dict.get h by_hash))) hs
      one_sent path d rest = elim (Result-cases (p.read_file path o).0) [
        | inl (e, r) ↦ cc (rw r at d)
        | inr (c, r) ↦
            let o₁ = (p.read_file path o).1 in
            elim (Result-cases (p.upload_blob h c o₁).0) [
              | inl (e, t) ↦ cc (rw (r, t) at d)
              | inr (_, t) ↦
                  rw (r, t)
                    (rest (p.upload_blob h c o₁).1
                        (u.kept-upload_blob h c o₁ (u.kept-read_file path o same)) (rw (r, t) at d)
                      ∙ ap (λ x. x ++ map (λ h. (h, content_at text (Dict.get h by_hash))) hs)
                          (u.uploaded h c o₁ t
                            ∙ ap (λ x. x ++ (h, c) ∷ []) (u.log-read_file path o))
                      ∙ append_assoc (u.log o) ((h, c) ∷ [])
                          (map (λ h. (h, content_at text (Dict.get h by_hash))) hs)
                      ∙ ap
                          (λ c.
                            u.log o
                            ++ (h, c) ∷ map (λ h. (h, content_at text (Dict.get h by_hash))) hs)
                          (u.read_is path c o same r))
            ]
      ]

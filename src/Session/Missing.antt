-- ===== src/Session/Missing.antt =====
-- StartSession of internal/core/app/session.go: which hashes it asks for.
use claude_share.Base.{
  inl, inr, ◌≡◌, refl, ◌∙◌, Bool, true, false, not, ◌&&◌, ◌||◌, Bytes, bytes_eq, bytes_eq_iff, none,
  some, List, [], ◌∷◌, ◌++◌, if◌then◌else◌, ok, arith, Bool-cases, Option-cases, All,
}
use claude_share.Base.Exec.{Exec, bind-run}
use claude_share.Base.Dict
use claude_share.Base.Dict.{Dict, bytes_key, get-put, get-empty}
use claude_share.Domain.{Manifest, FileEntry}
use claude_share.Session.{Deps, Service, missing_loop, start_session}

unfoldable pub is_among : Bytes → List Bytes → Bool
is_among h [] = false
is_among h (g ∷ gs) = bytes_eq g h || is_among h gs

unfoldable pub has_hash : Bytes → List FileEntry → Bool
has_hash h [] = false
has_hash h (e ∷ es) = bytes_eq e.hash h || has_hash h es

-- No hash stands twice.
unfoldable pub all_distinct : List Bytes → Bool
unfolding is_among
all_distinct [] = true
all_distinct (g ∷ gs) = not (is_among g gs) && all_distinct gs

is_among-append :
    (h : Bytes) (gs hs : List Bytes) → is_among h (gs ++ hs) ≡ (is_among h gs || is_among h hs)
unfolding is_among
is_among-append h [] hs = refl
is_among-append h (g ∷ gs) hs = ground (arith, is_among-append h gs hs)

all_distinct-append_one :
    (h : Bytes) (gs : List Bytes)
    → all_distinct gs ≡ true
    → is_among h gs ≡ false
    → all_distinct (gs ++ h ∷ []) ≡ true
unfolding all_distinct is_among
all_distinct-append_one h [] d n = refl
all_distinct-append_one h (g ∷ gs) d n = ground (
  arith,
  all_distinct-append_one h gs,
  is_among-append g gs (h ∷ []),
  bytes_eq_iff g h,
  bytes_eq_iff h g,
)

is_seen : Bytes → Dict Bytes Bool → Bool
is_seen h seen = elim (Dict.get h seen) [ none ↦ false | some _ ↦ true ]

-- What StartSession relies on: the store answers for the hashes that are valid, and an answer leaves
-- what it holds as it is.
pub record Answers (p : Deps) (present : Bytes → Bool) (IsValid : Bytes → Type 0) : Type 1 where
  pub Same : p.Outside → Type 0
  pub found : (h : Bytes) (o : p.Outside) → IsValid h → Same o → (p.has h o).0 ≡ ok (present h)
  pub kept : (h : Bytes) (o : p.Outside) → Same o → Same (p.has h o).1

module _ (p : Deps) (present : Bytes → Bool) (IsValid : Bytes → Type 0)
    (a : Answers p present IsValid) where
  skip_seen :
      (e : FileEntry) (es : List FileEntry) (seen : Dict Bytes Bool) (missing : List Bytes)
      (b : Bool) (o : p.Outside)
      → Dict.get e.hash seen ≡ some b
      → missing_loop p (e ∷ es) seen missing o ≡ missing_loop p es seen missing o
  unfolding missing_loop
  skip_seen e es seen missing b o q = rw (q, missing_loop) refl

  abbrev ask :
      FileEntry → List FileEntry → Dict Bytes Bool → List Bytes → Bool → Exec p.Outside (List Bytes)
  ask e es seen missing found =
      missing_loop p es (Dict.put e.hash true seen)
        (if found then missing else missing ++ e.hash ∷ [])

  ask_once :
      (e : FileEntry) (es : List FileEntry) (seen : Dict Bytes Bool) (missing : List Bytes)
      (o : p.Outside)
      → IsValid e.hash
      → a.Same o
      → Dict.get e.hash seen ≡ none
      → missing_loop p (e ∷ es) seen missing o
        ≡ ask e es seen missing (present e.hash) (p.has e.hash o).1
  unfolding missing_loop
  ask_once e es seen missing o valid same q =
      rw (q, missing_loop)
        (bind-run (p.has e.hash) (ask e es seen missing) o (p.has e.hash o).1 (present e.hash)
          (λ i. (a.found e.hash o valid same i, (p.has e.hash o).1)))

  missing_loop_lem :
      (es : List FileEntry) (seen : Dict Bytes Bool) (missing : List Bytes) (o : p.Outside)
      → All (λ (e : FileEntry). IsValid e.hash) es
      → a.Same o
      → ((h : Bytes) → is_seen h seen ≡ false → is_among h missing ≡ false)
      → all_distinct missing ≡ true
      → (hs : List Bytes) × (o' : p.Outside) × (missing_loop p es seen missing o ≡ (ok hs, o'))
        × a.Same o'
        × (all_distinct hs ≡ true)
        × ((h : Bytes)
            → is_among h hs
              ≡ (is_among h missing || (has_hash h es && not (is_seen h seen) && not (present h))))
  unfolding missing_loop has_hash is_seen is_among
  missing_loop_lem [] seen missing o valid same inside d =
      (missing, o, refl, same, d, λ h. ground arith)
  missing_loop_lem (e ∷ es) seen missing o (valid, valids) same inside d =
      elim (Option-cases (Dict.get e.hash seen)) [
        | inr (b, q) ↦
            let (hs, o', run, same', distinct, is) =
              missing_loop_lem es seen missing o valids same inside d in
            (
              hs,
              o',
              skip_seen e es seen missing b o q ∙ run,
              same',
              distinct,
              λ h. ground (arith, is h, q, inside h, bytes_eq_iff e.hash h),
            )
        | inl q ↦
            let seen' = Dict.put e.hash true seen in
            elim (Bool-cases (present e.hash)) [
              | inl has ↦
                  let (hs, o', run, same', distinct, is) =
                    missing_loop_lem es seen' missing (p.has e.hash o).1 valids
                      (a.kept e.hash o same)
                      (λ h n. inside h (ground (arith, n, get-put e.hash h true seen))) d in
                  (
                    hs,
                    o',
                    ask_once e es seen missing o valid same q ∙ (rw has run),
                    same',
                    distinct,
                    λ h.
                        ground
                          (arith, is h, q, has, get-put e.hash h true seen, bytes_eq_iff e.hash h),
                  )
              | inr lacks ↦
                  let (hs, o', run, same', distinct, is) =
                    missing_loop_lem es seen' (missing ++ e.hash ∷ []) (p.has e.hash o).1 valids
                      (a.kept e.hash o same)
                      (λ h n. ground (
                        arith,
                        n,
                        inside h,
                        get-put e.hash h true seen,
                        is_among-append h missing (e.hash ∷ []),
                      ))
                      (all_distinct-append_one e.hash missing d
                        (inside e.hash (ground (arith, q)))) in
                  (
                    hs,
                    o',
                    ask_once e es seen missing o valid same q ∙ (rw lacks run),
                    same',
                    distinct,
                    λ h. ground (
                      arith,
                      is h,
                      q,
                      lacks,
                      inside h,
                      get-put e.hash h true seen,
                      bytes_eq_iff e.hash h,
                      is_among-append h missing (e.hash ∷ []),
                    ),
                  )
            ]
      ]

  -- The client is asked for each hash of its manifest that the store lacks, once, and for no other;
  -- the manifest is recorded. This is for valid hashes, and a store that answers for these.
  pub start_session-missing :
      (name : Bytes) (m : Manifest) (s : Service p)
      → All (λ (e : FileEntry). IsValid e.hash) m.entries
      → a.Same s.outside
      → (hs : List Bytes) × (o : p.Outside) × (start_session p name m s
          ≡ (ok hs, record s { manifest = m; outside = o }))
        × a.Same o
        × (all_distinct hs ≡ true)
        × ((h : Bytes) → is_among h hs ≡ (has_hash h m.entries && not (present h)))
  unfolding start_session is_among all_distinct is_seen
  start_session-missing name m s valid same =
      let (hs, o', run, same', distinct, is) =
        missing_loop_lem m.entries [] [] s.outside valid same (λ h n. refl) refl in
      (hs, o', rw run refl, same', distinct, λ h. ground (arith, is h, get-empty {V = Bool} h))

-- ===== src/Domain/ByPath.antt =====
-- `ByPath` finds the entry of each path.
use claude_share.Base.{◌≡◌, refl, Bytes, bytes_eq_iff, Option, none, some, List, [], ◌∷◌, arith}
use claude_share.Base.Dict
use claude_share.Base.Dict.{Dict, bytes_key}
use claude_share.Base.Sort.{find, NodupKeys}
use claude_share.Domain.{FileEntry, Manifest, by_path, by_path_loop}

abbrev pub entry_path : FileEntry → Bytes
entry_path e = e.path

-- The entry of a path in a manifest.
abbrev pub entry_at : Bytes → Manifest → Option FileEntry
entry_at k m = find entry_path k m.entries

-- A manifest lists a path once.
abbrev pub IsManifest : Manifest → Type 0
IsManifest m = NodupKeys entry_path m.entries

abbrev pub or_else {ℓ} : {A : Type ℓ} → Option A → Option A → Option A
or_else none b = b
or_else (some a) b = some a

module _ (k : Bytes) where
  get-by_path_loop :
      (es : List FileEntry) (idx : Dict Bytes FileEntry)
      → NodupKeys entry_path es
      → Dict.get k (by_path_loop es idx) ≡ or_else (find entry_path k es) (Dict.get k idx)
  unfolding by_path_loop find Dict.get Dict.put
  get-by_path_loop [] idx n = refl
  get-by_path_loop (e ∷ es) idx (h, n) =
      ground (arith, get-by_path_loop es (Dict.put e.path e idx) n, bytes_eq_iff e.path k)

  pub get-by_path : (m : Manifest) → IsManifest m → Dict.get k (by_path m) ≡ entry_at k m
  unfolding by_path Dict.get
  get-by_path m n = ground (arith, get-by_path_loop m.entries [] n)

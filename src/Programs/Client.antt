-- ===== src/Programs/Client.antt =====
-- cmd/client/main.go: the project's name.
pub mod Wiring
use claude_share.Base.{ℕ, Bool, false, Bytes, bytes_eq, [], ◌∷◌, ◌||◌, ◌==◌, if◌then◌else◌}

abbrev is_separator : ℕ → Bool
is_separator c = c == b'/' || c == b'\\'

has_separator : Bytes → Bool
has_separator [] = false
has_separator (c ∷ p) = is_separator c || has_separator p

-- `filepathBase`: what follows the last separator.
unfoldable pub filepath_base : Bytes → Bytes
unfolding has_separator
filepath_base [] = []
filepath_base (c ∷ p) =
    let rest = filepath_base p in
    if has_separator p then rest else if is_separator c then p else c ∷ p

unfoldable pub project_name : Bytes → Bytes → Bytes
unfolding filepath_base
project_name name root = if bytes_eq name [] then filepath_base root else name

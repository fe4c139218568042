-- ===== src/Programs/Server.antt =====
-- cmd/server/main.go: the token, the settings and the banner that shows a generated token. Flags,
-- the environment and the clock of the process are parameters.
pub mod Banner
pub mod Wiring
use claude_share.Base.{
  ℕ, Bool, true, false, not, Bytes, bytes_eq, codes, [], if◌then◌else◌, Result, ok, err, ◌>>=◌,
}
use claude_share.Agent.{Runner, new_runner}
use claude_share.Fsutil.Path.{join}
use claude_share.Ws.Server.{ServerConfig}

-- The flags.
pub record Flags : Type 0 where
  pub addr : Bytes
  pub data_dir : Bytes
  pub allow_public : Bool
  pub claude_bin : Bytes
  pub permission_mode : Bytes
  pub max_sessions : ℕ

-- `defaultDataDir`, from the result of os.UserHomeDir.
unfoldable pub default_data_dir : Result Bytes → Bytes
unfolding join
default_data_dir (err _) = codes ".claude-share"
default_data_dir (ok home) = join home (codes ".claude-share")

-- The flags that are not given.
unfoldable pub default_flags : Result Bytes → Flags
unfolding default_data_dir
default_flags home = record {
  addr = codes "127.0.0.1:8443";
  data_dir = default_data_dir home;
  allow_public = false;
  claude_bin = codes "claude";
  permission_mode = codes "acceptEdits";
  max_sessions = 8;
}

-- The token of the environment, or a generated one; and whether it was generated.
unfoldable pub choose_token : Bytes → Result Bytes → Result (Bytes × Bool)
choose_token given generated =
    if bytes_eq given [] then (generated >>= λ t. ok (t, true)) else ok (given, false)

-- What main makes of the flags and the key.
pub record Setup : Type 0 where
  pub objects_dir : Bytes
  pub runner : Runner
  pub config : ServerConfig

unfoldable pub setup : Flags → Bytes → Setup
unfolding join new_runner
setup flags psk = record {
  objects_dir = join flags.data_dir (codes "objects");
  runner = record new_runner { bin = flags.claude_bin; permission_mode = flags.permission_mode };
  config = record {
    addr = flags.addr;
    psk = psk;
    allow_public = flags.allow_public;
    max_sessions = flags.max_sessions;
  };
}

-- The directory of a session's workspace.
unfoldable pub workspace_dir : Flags → Bytes → Bytes
unfolding join
workspace_dir flags session_id =
    join (join (join flags.data_dir (codes "sessions")) session_id) (codes "workspace")

-- What main does before it serves: the result is the setup, the token and whether it is shown.
unfoldable pub prepare :
    (Bytes → Result Bytes) → Flags → Bytes → Result Bytes → Result (Setup × Bytes × Bool)
unfolding choose_token setup
prepare psk_from_token flags given generated = do
  chosen ← choose_token given generated
  psk ← psk_from_token chosen.0
  ok (setup flags psk, chosen.0, chosen.1)

-- `useColor`: NO_COLOR, and the result of Stat with the test for a character device.
unfoldable pub use_color : Bytes → Result Bool → Bool
use_color no_color (err _) = false
use_color no_color (ok is_device) = if not (bytes_eq no_color []) then false else is_device

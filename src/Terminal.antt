-- ===== src/Terminal.antt =====
-- internal/adapters/terminal/terminal.go: what the client shows. The two streams are the texts that
-- were written to them; a write that fails is dropped by the code and not modelled.
use claude_share.Base.{
  Option, none, some, ok, err, nil_dereference, ℕ, Bool, Bytes, bytes_eq, codes, [], ◌∷◌, ◌++◌,
  if◌then◌else◌,
}
use claude_share.Base.Exec.{Exec}
use claude_share.Domain.{
  agent_message, agent_tool_use, agent_tool_result, change_create, change_modify, change_delete,
}
use claude_share.Protocol.{StreamEventData, TurnDoneData}

-- `Renderer`: Out and Err.
pub record Renderer : Type 0 where
  pub out : Bytes
  pub errors : Bytes

abbrev to_out : Bytes → Renderer → Renderer
to_out text r = record r { out = r.out ++ text }

abbrev to_errors : Bytes → Renderer → Renderer
to_errors text r = record r { errors = r.errors ++ text }

-- The UTF-8 bytes of the bullet and of the gear.
abbrev pub bullet : Bytes
bullet = 226 ∷ 128 ∷ 162 ∷ []

abbrev pub gear : Bytes
gear = 226 ∷ 154 ∷ 153 ∷ []

-- `Info`, for a text that is already formatted.
unfoldable pub info : Bytes → Renderer → Renderer
info text = to_errors (bullet ++ codes " " ++ text ++ codes "\n")

-- A nil pointer is followed at the test of the kind, and after the first line of TurnDone.
unfoldable pub stream_event : Option StreamEventData → Exec Renderer Unit
stream_event none r = (err nil_dereference, r)
stream_event (some d) r = (
  ok tt,
  if bytes_eq d.kind agent_message
      then (if bytes_eq d.text [] then r else to_out d.text r)
      else if bytes_eq d.kind agent_tool_use
      then to_errors (codes "\n  " ++ gear ++ codes " tool use\n") r
      else if bytes_eq d.kind agent_tool_result
      then to_errors (codes "  " ++ gear ++ codes " tool result\n") r
      else r,
)

-- The symbol of an operation, `?` for one that is not known.
unfoldable pub symbol : Bytes → Bytes
symbol op =
    if bytes_eq op change_create
    then codes "+"
    else if bytes_eq op change_modify
    then codes "~"
    else if bytes_eq op change_delete
    then codes "-"
    else codes "?"

unfoldable pub file_changed : Bytes → Bytes → Renderer → Renderer
unfolding symbol
file_changed op path = to_errors (codes "\n  " ++ symbol op ++ codes " " ++ path ++ codes "\n")

-- `is_positive` and `four_places` are the test of a float64 and the verb %.4f.
unfoldable pub turn_done : (ℕ → Bool) → (ℕ → Bytes) → Option TurnDoneData → Exec Renderer Unit
turn_done is_positive four_places none r = (err nil_dereference, to_out (codes "\n") r)
turn_done is_positive four_places (some d) r =
    let ended = to_out (codes "\n") r in
    let told =
      if d.is_error then to_errors (bullet ++ codes " turn ended with error\n") ended else ended in
    (
      ok tt,
      if is_positive d.cost_usd
          then to_errors
              (bullet ++ codes " turn complete ($" ++ four_places d.cost_usd ++ codes ")\n") told
          else to_errors (bullet ++ codes " turn complete\n") told,
    )

unfoldable pub server_error : Bytes → Renderer → Renderer
server_error msg = to_errors (codes "! server error: " ++ msg ++ codes "\n")

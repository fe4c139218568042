-- ===== src/Agent.antt =====
-- internal/adapters/agent/claudecli/claudecli.go: the command line of the agent, the events that
-- its output is read into, and the tail of its error output. Processes, pipes and encoding/json
-- are parameters.
pub mod Process
pub mod Output
pub mod Tail
use claude_share.Base.{
  ℕ, ◌-◌, ◌*◌, Bool, true, false, not, ◌&&◌, ◌||◌, Bytes, bytes_eq, codes, Option, none, some, List,
  [], ◌∷◌, ◌++◌, ◌==◌, ltb, length, drop, if◌then◌else◌, Result, ok, err, interrupt_unsupported,
  Error,
}
use claude_share.Domain.{
  AgentEvent, AgentEventKind, TurnResult, agent_init, agent_message, agent_tool_use,
  agent_tool_result, agent_result,
}

pub record Runner : Type 0 where
  pub bin : Bytes
  pub permission_mode : Bytes
  pub extra_args : List Bytes

unfoldable pub new_runner : Runner
new_runner = record { bin = codes "claude"; permission_mode = codes "acceptEdits"; extra_args = [] }

-- The binary and the arguments that `Start` runs.
unfoldable pub command : Runner → Bytes → Bytes × List Bytes
command r session_id =
    let bin = if bytes_eq r.bin [] then codes "claude" else r.bin in
    let perm = if bytes_eq r.permission_mode [] then codes "acceptEdits" else r.permission_mode in
    (
      bin,
      (codes "-p"
            ∷ codes "--input-format"
            ∷ codes "stream-json"
            ∷ codes "--output-format"
            ∷ codes "stream-json"
            ∷ codes "--verbose"
            ∷ codes "--include-partial-messages"
            ∷ codes "--permission-mode"
            ∷ perm
            ∷ codes "--session-id"
            ∷ session_id
            ∷ [])
          ++ r.extra_args,
    )

-- `userMessage` with one text.
pub record UserMessage : Type 0 where
  pub typ : Bytes
  pub role : Bytes
  pub content : List (Bytes × Bytes)

-- The bytes that `Send` writes to the agent's input.
unfoldable pub prompt_line : (UserMessage → Result Bytes) → Bytes → Result Bytes
prompt_line marshal prompt =
    elim (marshal
      (record { typ = codes "user"; role = codes "user"; content = (codes "text", prompt) ∷ [] })) [
        | err e ↦ err e
        | ok b ↦ ok (b ++ b'\n' ∷ [])
      ]

-- `session.Interrupt`
unfoldable pub interrupt : Result (Unit {0})
interrupt = err interrupt_unsupported

pub record StreamLine : Type 0 where
  pub typ : Bytes
  pub subtype : Bytes
  pub message : Bytes
  pub is_error : Bool
  pub text : Bytes
  pub num_turns : ℕ
  pub total_cost_usd : ℕ

-- json.Unmarshal of a line, and of an assistant message into its (type, text) pairs, where a
-- failure leaves what was read so far.
pub record Parser : Type 0 where
  pub line : Bytes → Result StreamLine
  pub content : Bytes → List (Bytes × Bytes)

abbrev is_newline : ℕ → Bool
is_newline c = c == b'\n' || c == b'\r'

abbrev is_nil : Bytes → Bool
is_nil [] = true
is_nil (c ∷ b) = false

-- The newline characters at the end go.
unfoldable pub trim_newline : Bytes → Bytes
trim_newline [] = []
trim_newline (c ∷ b) =
    let out = trim_newline b in if is_nil out && is_newline c then [] else c ∷ out

-- The texts of an assistant message, one after the other, and whether it calls a tool.
unfoldable pub joined_text : List (Bytes × Bytes) → Bytes
joined_text [] = []
joined_text ((typ, text) ∷ cs) =
    let rest = joined_text cs in if bytes_eq typ (codes "text") then text ++ rest else rest

unfoldable pub has_tool : List (Bytes × Bytes) → Bool
has_tool [] = false
has_tool ((typ, text) ∷ cs) =
    let rest = has_tool cs in
    if bytes_eq typ (codes "text") then rest else bytes_eq typ (codes "tool_use") || rest

abbrev event : AgentEventKind → Bytes → Bytes → AgentEvent
event kind text raw = record { kind = kind; text = text; raw = raw; result = none }

unfoldable pub assistant_event : List (Bytes × Bytes) → Bytes → AgentEvent
unfolding joined_text has_tool
assistant_event content raw =
    if has_tool content && is_nil (joined_text content)
    then event agent_tool_use [] raw
    else event agent_message (joined_text content) raw

unfoldable pub event_of : Parser → StreamLine → Bytes → Option AgentEvent
unfolding assistant_event
event_of p sl raw =
    if bytes_eq sl.typ (codes "system")
    then (if bytes_eq sl.subtype (codes "init") then some (event agent_init [] []) else none)
    else if bytes_eq sl.typ (codes "assistant")
    then some (assistant_event (p.content sl.message) raw)
    else if bytes_eq sl.typ (codes "user")
    then some (event agent_tool_result [] raw)
    else if bytes_eq sl.typ (codes "result")
    then some (record {
      kind = agent_result;
      text = [];
      raw = raw;
      result = some (record {
        is_error = sl.is_error;
        cost_usd = sl.total_cost_usd;
        text = sl.text;
        num_turns = sl.num_turns;
      });
    })
    else none

unfoldable pub parse_line : Parser → Bytes → Option AgentEvent
unfolding event_of trim_newline
parse_line p line = elim (p.line line) [ err _ ↦ none | ok sl ↦ event_of p sl (trim_newline line) ]

-- What ReadBytes('\n') returns, call after call, up to the end of the output: `cur` is what it has
-- read of the line.
unfoldable pub read_lines : Bytes → Bytes → List Bytes
read_lines cur [] = if is_nil cur then [] else cur ∷ []
read_lines cur (c ∷ b) =
    let line = cur ++ c ∷ [] in
    let ended = read_lines [] b in
    let longer = read_lines line b in if c == b'\n' then line ∷ ended else longer

abbrev pub keep : Option AgentEvent → List AgentEvent → List AgentEvent
keep none evs = evs
keep (some ev) evs = ev ∷ evs

unfoldable pub parse_lines : Parser → List Bytes → List AgentEvent
unfolding parse_line
parse_lines p [] = []
parse_lines p (line ∷ lines) = keep (parse_line p line) (parse_lines p lines)

-- readLoop, for all that the agent prints.
unfoldable pub read_loop : Parser → Bytes → List AgentEvent
unfolding read_lines parse_lines
read_loop p stdout = parse_lines p (read_lines [] stdout)

pub record RingBuffer : Type 0 where
  pub buf : Bytes
  pub max : ℕ

unfoldable pub write : Bytes → RingBuffer → RingBuffer
write p r =
    let buf = r.buf ++ p in
    record r { buf = if ltb r.max (length buf) then drop (length buf - r.max) buf else buf }

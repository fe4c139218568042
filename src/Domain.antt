-- ===== src/Domain.antt =====
-- The business types of internal/core/domain/domain.go. A string type (`ChangeOp`,
-- `AgentEventKind`) stays a text, since values of it come off the wire unchecked. An `int64` and a
-- `float64` are their 64-bit patterns: the program passes the cost on and only tests its sign.
pub mod ByPath
use claude_share.Base.{ℕ, Bool, Bytes, codes, Option, List, [], ◌∷◌}
use claude_share.Base.Dict
use claude_share.Base.Dict.{Dict, bytes_key}

abbrev pub FileMode : Type 0
FileMode = ℕ

pub record FileEntry : Type 0 where
  pub path : Bytes
  pub hash : Bytes
  pub size : ℕ
  pub mode : FileMode

pub record Manifest : Type 0 where
  pub entries : List FileEntry

-- The loop of `ByPath`: a later entry of a path replaces an earlier one.
by_path_loop : List FileEntry → Dict Bytes FileEntry → Dict Bytes FileEntry
by_path_loop [] idx = idx
by_path_loop (e ∷ es) idx = by_path_loop es (Dict.put e.path e idx)

unfoldable pub by_path : Manifest → Dict Bytes FileEntry
unfolding by_path_loop
by_path m = by_path_loop m.entries []

abbrev pub ChangeOp : Type 0
ChangeOp = Bytes

abbrev pub change_create : ChangeOp
change_create = codes "create"

abbrev pub change_modify : ChangeOp
change_modify = codes "modify"

abbrev pub change_delete : ChangeOp
change_delete = codes "delete"

pub record FileChange : Type 0 where
  pub op : ChangeOp
  pub path : Bytes
  pub hash : Bytes
  pub mode : FileMode

abbrev pub AgentEventKind : Type 0
AgentEventKind = Bytes

abbrev pub agent_init : AgentEventKind
agent_init = codes "init"

abbrev pub agent_message : AgentEventKind
agent_message = codes "message"

abbrev pub agent_tool_use : AgentEventKind
agent_tool_use = codes "tool_use"

abbrev pub agent_tool_result : AgentEventKind
agent_tool_result = codes "tool_result"

abbrev pub agent_result : AgentEventKind
agent_result = codes "result"

pub record TurnResult : Type 0 where
  pub is_error : Bool
  pub cost_usd : ℕ
  pub text : Bytes
  pub num_turns : ℕ

pub record AgentEvent : Type 0 where
  pub kind : AgentEventKind
  pub text : Bytes
  pub raw : Bytes
  pub result : Option TurnResult

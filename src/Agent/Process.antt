-- ===== src/Agent/Process.antt =====
-- Start, Send and Close of internal/adapters/agent/claudecli/claudecli.go over a process as a
-- parameter.
use claude_share.Base.{
  ◌*◌, Bool, true, false, Bytes, bytes_eq, List, [], if◌then◌else◌, Error, Result, ok, err,
}
use claude_share.Base.Exec.{Exec, pure, lift, ◌>>=◌, ◌>>◌}
use claude_share.Agent.{Runner, RingBuffer, UserMessage, command, prompt_line}

-- exec.Cmd and its pipes. A cmd is made of the binary, the arguments and the directory.
pub record Os : Type 1 where
  pub State : Type 0
  pub Cmd : Type 0
  pub new_cmd : Bytes → List Bytes → Bytes → State → Cmd × State
  pub stdin_pipe : Cmd → Exec State Unit
  pub stdout_pipe : Cmd → Exec State Unit
  pub start : Cmd → Exec State Unit
  pub write_stdin : Cmd → Bytes → Exec State Unit
  pub close_stdin : Cmd → Exec State Unit
  pub wait : Cmd → Exec State Unit

-- `session`; `input_closed` says whether closeOnce has run.
pub record Session (os : Os) : Type 0 where
  pub cmd : os.Cmd
  pub stderr : RingBuffer
  pub input_closed : Bool

module _ (os : Os) where
  unfoldable pub start : Runner → Bytes → Bytes → Exec os.State (Session os)
  unfolding command
  start r session_id workspace_dir s₀ =
      let (bin, args) = command r session_id in
      let (cmd, s₁) = os.new_cmd bin args workspace_dir s₀ in
      (do
        os.stdin_pipe cmd
        os.stdout_pipe cmd
        os.start cmd
        pure (record {
          cmd = cmd;
          stderr = record { buf = []; max = 8 * 1024 };
          input_closed = false;
        }))
        s₁

  unfoldable pub send :
      (UserMessage → Result Bytes) → (Error → Error) → Session os → Bytes → Exec os.State Unit
  unfolding prompt_line
  send marshal write_prompt a prompt = do
    line ← lift (prompt_line marshal prompt)
    λ s.
        let (r, s') = os.write_stdin a.cmd line s in
        (elim r [ ok u ↦ ok u | err e ↦ err (write_prompt e) ], s')

  -- The error of Wait, with the end of the error output if that is not blank.
  exit_error : (Bytes → Bytes) → (Error → Bytes → Error) → RingBuffer → Error → Error
  exit_error trim_space with_tail stderr e =
      let tail = trim_space stderr.buf in if bytes_eq tail [] then e else with_tail e tail

  unfoldable pub close :
      (Bytes → Bytes)
      → (Error → Bytes → Error)
      → Session os
      → os.State
      → Result (Unit {0}) × Session os × os.State
  unfolding exit_error
  close trim_space with_tail a s₀ =
      let s₁ : os.State = if a.input_closed then s₀ else (os.close_stdin a.cmd s₀).1 in
      let (r, s₂) = os.wait a.cmd s₁ in
      (
        elim r [ ok u ↦ ok u | err e ↦ err (exit_error trim_space with_tail a.stderr e) ],
        record a { input_closed = true },
        s₂,
      )

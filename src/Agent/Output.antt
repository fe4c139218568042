-- ===== src/Agent/Output.antt =====
-- The agent's output, line by line: readLoop and parseLine of
-- internal/adapters/agent/claudecli/claudecli.go.
use claude_share.Base.{
  inl, inr, ◌≡◌, refl, ap, ◌∙◌, Bytes, List, [], ◌∷◌, ◌++◌, append_assoc, Bool-cases, ◌==◌,
}
use claude_share.Agent.{read_lines}

unfoldable pub concat : List Bytes → Bytes
concat [] = []
concat (p ∷ ps) = p ++ concat ps

read_lines_lem : (cur b : Bytes) → concat (read_lines cur b) ≡ cur ++ b
unfolding concat read_lines
read_lines_lem [] [] = refl
read_lines_lem (c ∷ cur) [] = refl
read_lines_lem cur (c ∷ b) = elim (Bool-cases (c == b'\n')) [
  | inl h ↦
      rw h (ap (λ x. (cur ++ c ∷ []) ++ x) (read_lines_lem [] b) ∙ append_assoc cur (c ∷ []) b)
  | inr h ↦ rw h (read_lines_lem (cur ++ c ∷ []) b ∙ append_assoc cur (c ∷ []) b)
]

-- No byte of the output is lost or moved: the lines that it is read in, one after the other, are
-- the output.
pub concat-read_lines : (stdout : Bytes) → concat (read_lines [] stdout) ≡ stdout
concat-read_lines stdout = read_lines_lem [] stdout

-- ===== src/Programs/Server/Banner.antt =====
-- `renderTokenBanner` of cmd/server/main.go. A text is the list of its code points here, since its
-- width counts them.
pub mod Shown
pub mod Framed
use claude_share.Base.{
  ℕ, ◌+◌, ◌-◌, ◌*◌, ◌/◌, Bool, true, false, not, ◌||◌, Bytes, bytes_eq, codes, Option, List, [],
  ◌∷◌, ◌++◌, ltb, if◌then◌else◌, length, replicate, Result, ok, err, Error, ◌>>=◌, foreign,
}

abbrev ansi_reset : Bytes
ansi_reset = 27 ∷ codes "[0m"

abbrev ansi_bold : Bytes
ansi_bold = 27 ∷ codes "[1m"

abbrev ansi_dim : Bytes
ansi_dim = 27 ∷ codes "[2m"

abbrev ansi_token : Bytes
ansi_token = 27 ∷ codes "[1;36m"

abbrev ansi_frame : Bytes
ansi_frame = 27 ∷ codes "[38;5;244m"

unfoldable pub paint : Bool → Bytes → Bytes → Bytes
paint color s code =
    if not color || bytes_eq code [] || bytes_eq s [] then s else code ++ (s ++ ansi_reset)

pub record Line : Type 0 where
  pub text : Bytes
  pub code : Bytes
  pub center : Bool

-- "claude-share · generated share token"; the dot in it is the code point 183.
abbrev title : Bytes
title = codes "claude-share " ++ 183 ∷ codes " generated share token"

abbrev notice : Bytes
notice = codes "No CLAUDE_SHARE_TOKEN was set, so one was generated for this run."

abbrev advice : Bytes
advice = codes "Set CLAUDE_SHARE_TOKEN to the value above on every client to connect."

unfoldable pub banner_lines : Bytes → List Line
banner_lines token =
    record { text = title; code = ansi_bold; center = false }
    ∷ record { text = []; code = []; center = false }
    ∷ record { text = token; code = ansi_token; center = true }
    ∷ record { text = []; code = []; center = false }
    ∷ record { text = notice; code = ansi_dim; center = false }
    ∷ record { text = advice; code = ansi_dim; center = false }
    ∷ []

-- The loop for the width.
unfoldable pub widest : ℕ → List Line → ℕ
widest width [] = width
widest width (l ∷ ls) = widest (if ltb width (length l.text) then length l.text else width) ls

abbrev pub pad_x : ℕ
pad_x = 3

-- strings.Repeat of one code point, a - b times; a negative count ends the program.
unfoldable pub repeat : ℕ → ℕ → ℕ → Result Bytes
repeat c a b =
    if ltb a b
    then err (foreign (codes "strings: negative Repeat count"))
    else ok (replicate (a - b) c)

-- The blanks before the text. The subtraction in it is of a number that is not negative.
unfoldable pub left_of : ℕ → Line → ℕ
left_of inner l = if l.center then pad_x + (inner - 2 * pad_x - length l.text) / 2 else pad_x

abbrev frame : Bool → ℕ → Bytes
frame color c = paint color (c ∷ []) ansi_frame

-- One round of the loop that writes the lines.
unfoldable pub row : Bool → ℕ → Line → Result Bytes
unfolding left_of repeat paint
row color inner l = do
  before ← repeat b' ' (left_of inner l) 0
  after ← repeat b' ' inner (left_of inner l + length l.text)
  ok (
      frame color 9474
      ++ (before ++ (paint color l.text l.code ++ (after ++ (frame color 9474 ++ b'\n' ∷ [])))))

unfoldable pub rows : Bool → ℕ → List Line → Result Bytes
unfolding row
rows color inner [] = ok []
rows color inner (l ∷ ls) = do
  first ← row color inner l
  rest ← rows color inner ls
  ok (first ++ rest)

abbrev pub edge : ℕ → ℕ → ℕ → Bytes
edge from to inner = from ∷ (replicate inner 9472 ++ to ∷ [])

-- The box round the lines.
unfoldable pub box : Bool → ℕ → List Line → Result Bytes
unfolding rows paint
box color inner lines = do
  body ← rows color inner lines
  ok (
      b'\n'
      ∷ (paint color (edge 9581 9582 inner) ansi_frame
          ++ (b'\n' ∷ (body ++ (paint color (edge 9584 9583 inner) ansi_frame ++ codes "\n\n")))))

unfoldable pub render_token_banner : Bytes → Bool → Result Bytes
render_token_banner token color =
    let lines = banner_lines token in box color (widest 0 lines + pad_x * 2) lines

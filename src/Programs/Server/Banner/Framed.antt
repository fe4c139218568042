-- ===== src/Programs/Server/Banner/Framed.antt =====
-- What of the banner of cmd/server/main.go a terminal shows.
use claude_share.Base.{
  ℕ, ◌+◌, ◌-◌, ◌*◌, ◌≤◌, ◌≡◌, ◌≢◌, refl, ap, ◌∙◌, subst, Bool, map, Bytes, codes, List, [], ◌∷◌,
  ◌++◌, append_assoc, append-nil, ltb, if◌then◌else◌, length, length-append, length-replicate,
  replicate, All, All-append, ok, arith,
}
use claude_share.Programs.Server.Banner.{
  ansi_frame, paint, Line, banner_lines, widest, pad_x, repeat, left_of, row, rows, edge, box,
  render_token_banner, frame, title, notice, advice,
}
use claude_share.Programs.Server.Banner.Shown.{
  shown, IsPlain, shown_nil, Shows, Shows-append, plain-Shows, frame-Shows, paint-Shows,
  replicate-IsPlain, has_no_escape, has_no_escape-IsPlain,
}

blanks-Shows : (n : ℕ) → Shows (replicate n b' ') (replicate n b' ')
blanks-Shows n = plain-Shows (replicate n b' ') (replicate-IsPlain n b' ' (omega arith))

bar-Shows : (color : Bool) → Shows (frame color 9474) (9474 ∷ [])
bar-Shows color = paint-Shows color (9474 ∷ []) ansi_frame (omega arith, tt) frame-Shows

-- The line as it is shown.
abbrev pub shown_row : ℕ → Line → Bytes
shown_row inner l =
    9474
    ∷ (replicate (left_of inner l) b' '
        ++ (l.text ++ (replicate (inner - (left_of inner l + length l.text)) b' ' ++ 9474 ∷ [])))

-- A line that fits, in plain text, with a style that is not shown.
abbrev IsFitting : ℕ → Line → Type 0
IsFitting inner l = (length l.text + 6 ≤ inner) × IsPlain l.text × Shows l.code []

left_of_fits :
    (inner : ℕ) (l : Line) → length l.text + 6 ≤ inner → left_of inner l + length l.text + 3 ≤ inner
unfolding left_of
left_of_fits inner l h = ground arith

length-shown_row :
    (inner : ℕ) (l : Line) → length l.text + 6 ≤ inner → length (shown_row inner l) ≡ inner + 2
length-shown_row inner l h =
    let fits = left_of_fits inner l h in
    omega (
      arith,
      fits,
      length-append {A = ℕ} (replicate (left_of inner l) b' ')
          (l.text ++ (replicate (inner - (left_of inner l + length l.text)) b' ' ++ 9474 ∷ [])),
      length-append {A = ℕ} l.text
          (replicate (inner - (left_of inner l + length l.text)) b' ' ++ 9474 ∷ []),
      length-append {A = ℕ} (replicate (inner - (left_of inner l + length l.text)) b' ')
          (9474 ∷ []),
      length-replicate {A = ℕ} (left_of inner l) b' ',
      length-replicate {A = ℕ} (inner - (left_of inner l + length l.text)) b' ',
    )

repeat_ok : (c a b : ℕ) → b ≤ a → repeat c a b ≡ ok (replicate (a - b) c)
unfolding repeat
repeat_ok c a b h = ground arith

repeat_from_zero : (c n : ℕ) → repeat c n 0 ≡ ok (replicate n c)
repeat_from_zero c n =
    let e : n - 0 ≡ n = omega arith in
    repeat_ok c n 0 (omega arith) ∙ ap (λ k. ok (replicate k c)) e

newline-Shows : Shows (b'\n' ∷ []) (b'\n' ∷ [])
newline-Shows = plain-Shows (b'\n' ∷ []) (omega arith, tt)

row-Shows :
    (color : Bool) (inner : ℕ) (l : Line)
    → IsFitting inner l
    → (r : Bytes) × (row color inner l ≡ ok r) × Shows r (shown_row inner l ++ b'\n' ∷ [])
unfolding row
row-Shows color inner l (fits, plain, hidden) =
    let left = replicate (left_of inner l) b' ' in
    let right = replicate (inner - (left_of inner l + length l.text)) b' ' in
    let bar = frame color 9474 in
    let text = paint color l.text l.code in
    let newline : Bytes = b'\n' ∷ [] in
    let fit = left_of_fits inner l fits in
    let same : 9474 ∷ (left ++ (l.text ++ (right ++ 9474 ∷ newline)))
        ≡ shown_row inner l ++ newline =
      simp append_assoc in
    (
      bar ++ (left ++ (text ++ (right ++ (bar ++ newline)))),
      rw
          (
            repeat_from_zero b' ' (left_of inner l),
            repeat_ok b' ' inner (left_of inner l + length l.text) (omega (arith, fit)),
          )
          refl,
      subst (λ x. Shows (bar ++ (left ++ (text ++ (right ++ (bar ++ newline))))) x) same
          (Shows-append bar (left ++ (text ++ (right ++ (bar ++ newline)))) (9474 ∷ [])
            (left ++ (l.text ++ (right ++ 9474 ∷ newline))) (bar-Shows color)
            (Shows-append left (text ++ (right ++ (bar ++ newline))) left
              (l.text ++ (right ++ 9474 ∷ newline)) (blanks-Shows (left_of inner l))
              (Shows-append text (right ++ (bar ++ newline)) l.text (right ++ 9474 ∷ newline)
                (paint-Shows color l.text l.code plain hidden)
                (Shows-append right (bar ++ newline) right (9474 ∷ newline)
                  (blanks-Shows (inner - (left_of inner l + length l.text)))
                  (Shows-append bar newline (9474 ∷ []) newline (bar-Shows color)
                    newline-Shows))))),
    )

-- Lines one below the other.
abbrev pub stacked : List Bytes → Bytes
stacked [] = []
stacked (r ∷ rs) = (r ++ b'\n' ∷ []) ++ stacked rs

rows-Shows :
    (color : Bool) (inner : ℕ) (ls : List Line)
    → All (IsFitting inner) ls
    → (r : Bytes) × (rows color inner ls ≡ ok r) × Shows r (stacked (map (shown_row inner) ls))
unfolding rows
rows-Shows color inner [] all = ([], refl, λ b. refl)
rows-Shows color inner (l ∷ ls) (fits, all) =
    let (r, run, first) = row-Shows color inner l fits in
    let (rs, runs, rest) = rows-Shows color inner ls all in
    (
      r ++ rs,
      rw (run, runs) refl,
      Shows-append r rs (shown_row inner l ++ b'\n' ∷ []) (stacked (map (shown_row inner) ls)) first
          rest,
    )

rows_width :
    (inner : ℕ) (ls : List Line)
    → All (IsFitting inner) ls
    → All (λ r. length r ≡ inner + 2) (map (shown_row inner) ls)
rows_width inner [] all = tt
rows_width inner (l ∷ ls) (fits, all) = (length-shown_row inner l fits.0, rows_width inner ls all)

edge_width : (from to inner : ℕ) → length (edge from to inner) ≡ inner + 2
edge_width from to inner = omega (
  arith,
  length-append {A = ℕ} (replicate inner 9472) (to ∷ []),
  length-replicate {A = ℕ} inner 9472,
)

-- No line is wider than the widest.
widest_lem :
    (w : ℕ) (ls : List Line) → (w ≤ widest w ls) × All (λ l. length l.text ≤ widest w ls) ls
unfolding widest
widest_lem w [] = (omega arith, tt)
widest_lem w (l ∷ ls) =
    let w' = if ltb w (length l.text) then length l.text else w in
    let (more, all) = widest_lem w' ls in
    let (a, b) : (w ≤ w') × (length l.text ≤ w') = ground arith in
    (omega (arith, a, more), (omega (arith, b, more), all))

-- The lines of the banner are plain, if the token is, and their styles are not shown.
lines-IsPlain :
    (token : Bytes)
    → IsPlain token
    → All (λ (l : Line). IsPlain l.text × Shows l.code []) (banner_lines token)
unfolding banner_lines has_no_escape shown
lines-IsPlain token p = (
  (has_no_escape-IsPlain title refl, λ b. refl),
  (
    (tt, λ b. refl),
    (
      (p, λ b. refl),
      (
        (tt, λ b. refl),
        (
          (has_no_escape-IsPlain notice refl, λ b. refl),
          ((has_no_escape-IsPlain advice refl, λ b. refl), tt),
        ),
      ),
    ),
  ),
)

fit-All :
    (w : ℕ) (ls : List Line)
    → All (λ (l : Line). length l.text ≤ w) ls
    → All (λ (l : Line). IsPlain l.text × Shows l.code []) ls
    → All (IsFitting (w + 6)) ls
fit-All w [] a b = tt
fit-All w (l ∷ ls) (h, a) ((p, s), b) = ((omega arith, p, s), fit-All w ls a b)

-- What is shown of a box.
abbrev pub shown_box : ℕ → List Line → Bytes
shown_box inner ls =
    (b'\n' ∷ edge 9581 9582 inner)
    ++ (b'\n' ∷ (stacked (map (shown_row inner) ls) ++ (edge 9584 9583 inner ++ codes "\n\n")))

edge-IsPlain : (from to n : ℕ) → from ≢ 27 → to ≢ 27 → IsPlain (edge from to n)
edge-IsPlain from to n hf ht = (
  hf,
  All-append _ (replicate n 9472) (to ∷ []) (replicate-IsPlain n 9472 (omega arith)) (ht, tt),
)

box-Shows :
    (color : Bool) (inner : ℕ) (ls : List Line)
    → All (IsFitting inner) ls
    → (t : Bytes) × (box color inner ls ≡ ok t) × Shows t (shown_box inner ls)
unfolding box
box-Shows color inner ls all =
    let (body, run, shows) = rows-Shows color inner ls all in
    let newline : Bytes = b'\n' ∷ [] in
    let two : Bytes = codes "\n\n" in
    let top = edge 9581 9582 inner in
    let bottom = edge 9584 9583 inner in
    let painted_top = paint color top ansi_frame in
    let painted_bottom = paint color bottom ansi_frame in
    let rs = stacked (map (shown_row inner) ls) in
    (
      newline ++ (painted_top ++ (newline ++ (body ++ (painted_bottom ++ two)))),
      rw run refl,
      Shows-append newline (painted_top ++ (newline ++ (body ++ (painted_bottom ++ two)))) newline
          (top ++ (newline ++ (rs ++ (bottom ++ two)))) newline-Shows
          (Shows-append painted_top (newline ++ (body ++ (painted_bottom ++ two))) top
            (newline ++ (rs ++ (bottom ++ two)))
            (paint-Shows color top ansi_frame
              (edge-IsPlain 9581 9582 inner (omega arith) (omega arith)) frame-Shows)
            (Shows-append newline (body ++ (painted_bottom ++ two)) newline (rs ++ (bottom ++ two))
              newline-Shows
              (Shows-append body (painted_bottom ++ two) rs (bottom ++ two) shows (
                Shows-append painted_bottom two bottom two
                  (paint-Shows color bottom ansi_frame
                    (edge-IsPlain 9584 9583 inner (omega arith) (omega arith)) frame-Shows)
                  (plain-Shows two (omega arith, (omega arith, tt))))))),
    )

-- The inner width of the box.
abbrev pub inner_width : Bytes → ℕ
inner_width token = widest 0 (banner_lines token) + pad_x * 2

-- The banner is a box, in colour or not: no count of blanks is negative, what a terminal shows of
-- it are the two edges with the lines between them, among them the token, and all of these have the
-- same width. This is for a token without an escape character.
pub banner_framed :
    (token : Bytes) (color : Bool)
    → IsPlain token
    → (t : Bytes) × (render_token_banner token color ≡ ok t)
      × (shown t ≡ shown_box (inner_width token) (banner_lines token))
      × All
          (λ r. length r ≡ inner_width token + 2)
          (edge 9581 9582 (inner_width token)
            ∷ edge 9584 9583 (inner_width token)
            ∷ map (shown_row (inner_width token)) (banner_lines token))
unfolding render_token_banner
banner_framed token color p =
    let ls = banner_lines token in
    let inner = inner_width token in
    let fits = fit-All (widest 0 ls) ls (widest_lem 0 ls).1 (lines-IsPlain token p) in
    let (t, run, shows) = box-Shows color inner ls fits in
    (
      t,
      run,
      rw⁻¹ (append-nil t) (
          shows [] ∙ ap (λ x. shown_box inner ls ++ x) shown_nil ∙ append-nil (shown_box inner ls)),
      (edge_width 9581 9582 inner, (edge_width 9584 9583 inner, rows_width inner ls fits)),
    )

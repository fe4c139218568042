-- ===== src/Programs/Server/Banner/Shown.antt =====
-- What a terminal shows of a text with the escape sequences of cmd/server/main.go.
use claude_share.Base.{
  ℕ, ◌≡◌, ◌≢◌, inl, inr, refl, ap, ◌∙◌, subst, Bool, true, false, not, ◌||◌, ◌&&◌, Bytes, bytes_eq,
  [], ◌∷◌, ◌++◌, append_assoc, append-nil, ◌==◌, if◌then◌else◌, replicate, All, Bool-cases, arith,
}
use claude_share.Programs.Server.Banner.{ansi_reset, ansi_frame, paint}

-- A terminal shows no escape sequence: what stands from an escape character to the next `m`.
show_from : Bool → Bytes → Bytes
show_from escaped [] = []
show_from escaped (c ∷ b) =
    let inside = show_from true b in
    let outside = show_from false b in
    if escaped
    then (if c == b'm' then outside else inside)
    else if c == 27
    then inside
    else c ∷ outside

unfoldable pub shown : Bytes → Bytes
unfolding show_from
shown b = show_from false b

abbrev pub IsPlain : Bytes → Type 0
IsPlain b = All (λ c. c ≢ 27) b

pub shown_nil : shown [] ≡ []
unfolding shown
shown_nil = refl

-- The first text is shown as the second, whatever comes after it.
abbrev pub Shows : Bytes → Bytes → Type 0
Shows p s = (b : Bytes) → shown (p ++ b) ≡ s ++ shown b

pub Shows-append : (p q s t : Bytes) → Shows p s → Shows q t → Shows (p ++ q) (s ++ t)
Shows-append p q s t hp hq b =
    rw (append_assoc p q b, append_assoc s t (shown b)) (hp (q ++ b) ∙ ap (λ x. s ++ x) (hq b))

pub plain-Shows : (s : Bytes) → IsPlain s → Shows s s
unfolding shown
plain-Shows [] p b = refl
plain-Shows (c ∷ s) (n, p) b = ground (arith, n, plain-Shows s p b)

pub reset-Shows : Shows ansi_reset []
unfolding shown
reset-Shows b = refl

pub frame-Shows : Shows ansi_frame []
unfolding shown
frame-Shows b = refl

pub paint-Shows :
    (color : Bool) (s code : Bytes) → IsPlain s → Shows code [] → Shows (paint color s code) s
unfolding paint
paint-Shows color s code p hidden =
    elim (Bool-cases (not color || bytes_eq code [] || bytes_eq s [])) [
      | inl q ↦ rw q (plain-Shows s p)
      | inr q ↦ rw q (
          subst (λ x. Shows (code ++ (s ++ ansi_reset)) x) (append-nil s)
            (Shows-append code (s ++ ansi_reset) [] (s ++ []) hidden
              (Shows-append s ansi_reset s [] (plain-Shows s p) reset-Shows)))
    ]

pub replicate-IsPlain : (n c : ℕ) → c ≢ 27 → IsPlain (replicate n c)
replicate-IsPlain ℕ.zero c h = tt
replicate-IsPlain (ℕ.suc n) c h = (h, replicate-IsPlain n c h)

unfoldable pub has_no_escape : Bytes → Bool
has_no_escape [] = true
has_no_escape (c ∷ b) = not (c == 27) && has_no_escape b

pub has_no_escape-IsPlain : (b : Bytes) → has_no_escape b ≡ true → IsPlain b
unfolding has_no_escape
has_no_escape-IsPlain [] h = tt
has_no_escape-IsPlain (c ∷ b) h = ground (arith, has_no_escape-IsPlain b)

-- ===== src/Examples/Shown.antt =====
-- The banner with a token.
use claude_share.Base.{Bytes, ◌+◌, ◌≡◌, refl, true, codes, ◌∷◌, length, All, ok, map}
use claude_share.Programs.Server.Banner.{render_token_banner, banner_lines, edge}
use claude_share.Programs.Server.Banner.Shown.{shown, has_no_escape, has_no_escape-IsPlain}
use claude_share.Programs.Server.Banner.Framed.{shown_row, shown_box, inner_width, banner_framed}

banner_framed_example :
    (t : Bytes) × (render_token_banner (codes "yo-ho") true ≡ ok t)
    × (shown t ≡ shown_box (inner_width (codes "yo-ho")) (banner_lines (codes "yo-ho")))
    × All
        (λ r. length r ≡ inner_width (codes "yo-ho") + 2)
        (edge 9581 9582 (inner_width (codes "yo-ho"))
          ∷ edge 9584 9583 (inner_width (codes "yo-ho"))
          ∷ map (shown_row (inner_width (codes "yo-ho"))) (banner_lines (codes "yo-ho")))
unfolding has_no_escape
banner_framed_example =
    banner_framed (codes "yo-ho") true (has_no_escape-IsPlain (codes "yo-ho") refl)

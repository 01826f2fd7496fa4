-- ===== src/Evaluation/Style/Ansi.antt =====
-- src/contexts/evaluation/domain/style_spec.rs (to_ansi_style), style_spec/color.rs and
-- style_spec/modifiers.rs: a style made of the operations of the terminal library.
use merge_ready.Prelude.{ℕ, Text, Bool, Option, none, some, if◌then◌else◌}
use merge_ready.Evaluation.Style.{
  NamedColor, black, red, green, yellow, blue, purple, cyan, white, bright_black, bright_red,
  bright_green, bright_yellow, bright_blue, bright_purple, bright_cyan, bright_white, ColorSpec,
  named, ansi256, rgb, bold, italic, underline, dimmed, inverted, blink, hidden, strikethrough,
  StyleModifiers, StyleSpec, none_style, styled,
}

-- What the source uses of `nu_ansi_term`: its colours, the operations on its styles, and
-- `paint(…).to_string()`.
pub record NuAnsiTerm (Color Style : Type 0) : Type 0 where
  pub black : Color
  pub red : Color
  pub green : Color
  pub yellow : Color
  pub blue : Color
  pub purple : Color
  pub cyan : Color
  pub white : Color
  pub dark_gray : Color
  pub light_red : Color
  pub light_green : Color
  pub light_yellow : Color
  pub light_blue : Color
  pub light_purple : Color
  pub light_cyan : Color
  pub light_gray : Color
  pub fixed : ℕ → Color
  pub rgb : ℕ → ℕ → ℕ → Color
  pub new_style : Style
  pub fg : Color → Style → Style
  pub on : Color → Style → Style
  pub bold : Style → Style
  pub italic : Style → Style
  pub underline : Style → Style
  pub dimmed : Style → Style
  pub reverse : Style → Style
  pub blink : Style → Style
  pub hidden : Style → Style
  pub strikethrough : Style → Style
  pub paint : Style → Text → Text

module _ {Color Style : Type 0} (nu : NuAnsiTerm Color Style) where
  unfoldable pub named_color_to_nu : NamedColor → Color
  named_color_to_nu black = nu.black
  named_color_to_nu red = nu.red
  named_color_to_nu green = nu.green
  named_color_to_nu yellow = nu.yellow
  named_color_to_nu blue = nu.blue
  named_color_to_nu purple = nu.purple
  named_color_to_nu cyan = nu.cyan
  named_color_to_nu white = nu.white
  named_color_to_nu bright_black = nu.dark_gray
  named_color_to_nu bright_red = nu.light_red
  named_color_to_nu bright_green = nu.light_green
  named_color_to_nu bright_yellow = nu.light_yellow
  named_color_to_nu bright_blue = nu.light_blue
  named_color_to_nu bright_purple = nu.light_purple
  named_color_to_nu bright_cyan = nu.light_cyan
  named_color_to_nu bright_white = nu.light_gray

  unfoldable pub color_spec_to_nu : ColorSpec → Color
  unfolding named_color_to_nu
  color_spec_to_nu (named n) = named_color_to_nu n
  color_spec_to_nu (ansi256 n) = nu.fixed n
  color_spec_to_nu (rgb r g b) = nu.rgb r g b

  abbrev only_if : Bool → (Style → Style) → Style → Style
  only_if contained f style = if contained then f style else style

  -- `StyleModifiers::apply_to`, which looks at the flags in this order.
  unfoldable pub apply_to : StyleModifiers → Style → Style
  apply_to modifiers style = only_if (modifiers strikethrough) nu.strikethrough (
      only_if (modifiers hidden) nu.hidden (
        only_if (modifiers blink) nu.blink (
          only_if (modifiers inverted) nu.reverse (
            only_if (modifiers dimmed) nu.dimmed (
              only_if (modifiers underline) nu.underline
                (only_if (modifiers italic) nu.italic (only_if (modifiers bold) nu.bold style)))))))

  with_color : (Color → Style → Style) → Option ColorSpec → Style → Style
  unfolding color_spec_to_nu
  with_color set none style = style
  with_color set (some c) style = set (color_spec_to_nu c) style

  unfoldable pub to_ansi_style : StyleSpec → Style
  unfolding with_color apply_to
  to_ansi_style none_style = nu.new_style
  to_ansi_style (styled fg bg modifiers) =
      apply_to modifiers (with_color nu.on bg (with_color nu.fg fg nu.new_style))

  -- The painting that the rendering of formats is given.
  unfoldable pub paint_style : StyleSpec → Text → Text
  unfolding to_ansi_style
  paint_style style t = nu.paint (to_ansi_style style) t

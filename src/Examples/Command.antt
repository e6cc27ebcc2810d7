-- ===== src/Examples/Command.antt =====
-- A command with a placeholder, and an argument that no token takes.
use puff.Common.{true, ◌≡◌, refl, [], ◌∷◌, codes, text_beq, ok}
use puff.Common.Strings.{has_part, starts_with, is_whitespace}
use puff.Common.Json.{Json, bool, string, end, object, field, find}
use puff.Tools.{render_cli_command}
use puff.Tools.Render.{CommandLine, render_cli_command-CommandLine}

abbrev arguments : Json
arguments =
    object (field (codes "who") (string (codes "x --y")) (field (codes "all") (bool true) end))

rendered :
    render_cli_command
      (λ v. [])
      (codes "log")
      (codes "git log")
      (codes "--author={who}" ∷ [])
      arguments
    ≡ ok (codes "git", codes "log" ∷ codes "--author=x --y" ∷ codes "--all" ∷ [])
unfolding render_cli_command has_part starts_with text_beq is_whitespace find
rendered = refl

render_cli_command-CommandLine_example :
    CommandLine
      (codes "git log")
      (codes "--author={who}" ∷ [])
      (codes "git")
      (codes "log" ∷ codes "--author=x --y" ∷ codes "--all" ∷ [])
render_cli_command-CommandLine_example =
    render_cli_command-CommandLine (λ v. []) (codes "log") (codes "git log")
      (codes "--author={who}" ∷ []) arguments (codes "git")
      (codes "log" ∷ codes "--author=x --y" ∷ codes "--all" ∷ []) rendered

-- ===== src/Tools/Render.antt =====
-- Which parts of a command line the arguments of a call can change.
use mathlib.Core.Path.{subst}
use puff.Common.{
  ◌≡◌, refl, sym, ap, ◌∙◌, false, Option, none, some, List, [], ◌∷◌, ◌++◌, Text, codes, Result, ok,
  err, ◌>>=◌, arith,
}
use puff.Common.Strings.{has_part, starts_with}
use puff.Common.Json.{Json, Fields}
use puff.Tools.{
  split_whitespace, split_command, split_at, argument_map, render_rest, render_template_token,
  render_tokens, remaining_of, render_cli_command,
}

-- Both steps of a chain that succeeds do.
module _ {E A B : Type 0} where
  both_ok :
      (next : A → Result E B) (m : Result E A) (b : B)
      → (m >>= next) ≡ ok b
      → (x : A) × (next x ≡ ok b) × (m ≡ ok x)
  both_ok next (err e) b h = cc
  both_ok next (ok x) b h = (x, h, refl)

ok_pair {ℓ κ} :
    {E : Type ℓ} {A B : Type κ} {a a' : A} {b b' : B}
    → ◌≡◌ {A = Result E (A × B)} (ok (a, b)) (ok (a', b'))
    → (a ≡ a') × (b ≡ b')
ok_pair h = (cc, cc)

-- One argument for each token, which is the token where that has no placeholder.
abbrev pub Renders : List Text → List Text → Type 0
Renders [] args = args ≡ []
Renders (token ∷ tokens) [] = ⊥
Renders (token ∷ tokens) (arg ∷ args) =
    (has_part (codes "{") token ≡ false → arg ≡ token) × Renders tokens args

no_placeholder : (s : Text) → has_part (codes "{") s ≡ false → split_at b'{' s ≡ none
unfolding has_part starts_with split_at
no_placeholder [] h = refl
no_placeholder (c ∷ s) h = ground (arith, no_placeholder s)

first_of_command :
    (command program : Text) (words : List Text)
    → split_command command ≡ ok (program, words)
    → split_whitespace command ≡ program ∷ words
unfolding split_command
first_of_command command program words h = ground arith

module _ (show : Json → Text) (tool_name : Text) where
  kept :
      (token : Text) (arguments : Option Fields) (arg : Text) (names : List Text)
      → render_template_token show tool_name token arguments ≡ ok (arg, names)
      → has_part (codes "{") token ≡ false
      → arg ≡ token
  unfolding render_template_token render_rest
  kept token none arg names h n = ground arith
  kept [] (some arguments) arg names h n = ground arith
  kept (c ∷ token) (some arguments) arg names h n = ground (arith, no_placeholder (c ∷ token))

  rendered :
      (tokens : List Text) (arguments : Option Fields) (args names : List Text)
      → render_tokens show tool_name tokens arguments ≡ ok (args, names)
      → Renders tokens args
  unfolding render_tokens
  rendered [] arguments args names h = cc
  rendered (token ∷ more) arguments args names h =
      let ((arg, taken), h', e) =
        both_ok _ (render_template_token show tool_name token arguments) _ h in
      let ((args', others), h'', e') =
        both_ok _ (render_tokens show tool_name more arguments) _ h' in
      let same : arg ∷ args' ≡ args = cc in
      subst (Renders (token ∷ more)) same
        (kept token arguments arg taken e, rendered more arguments args' others e')

-- The command line of a call.
pub record CommandLine (command : Text) (args_template : List Text) (program : Text)
    (args : List Text) : Type 0 where
  pub words : List Text
  pub fixed : List Text
  pub flags : List Text
  pub first : split_whitespace command ≡ program ∷ words
  pub all : args ≡ fixed ++ flags
  pub one_each : Renders (words ++ args_template) fixed

Renders-append :
    (tokens more args others : List Text)
    → Renders tokens args
    → Renders more others
    → Renders (tokens ++ more) (args ++ others)
Renders-append [] more args others h k = rw h k
Renders-append (token ∷ tokens) more [] others h k = absurd h
Renders-append (token ∷ tokens) more (arg ∷ args) others h k =
    (h.0, Renders-append tokens more args others h.1 k)

-- Whatever the arguments of the call are: the program is the first word of the tool's command, each
-- other word of the command and each token of its template becomes one argument, in their order and
-- unchanged where it has no placeholder, and what the call adds stands behind these.
pub render_cli_command-CommandLine :
    (show : Json → Text) (tool_name command : Text) (args_template : List Text) (arguments : Json)
    (program : Text) (args : List Text)
    → render_cli_command show tool_name command args_template arguments ≡ ok (program, args)
    → CommandLine command args_template program args
unfolding render_cli_command
render_cli_command-CommandLine show tool_name command args_template arguments program args h =
    let (map, h1, e0) = both_ok _ (argument_map show tool_name arguments) _ h in
    let ((program', words), h2, e1) = both_ok _ (split_command command) _ h1 in
    let ((from_command, consumed), h3, e2) =
      both_ok _ (render_tokens show tool_name words map) _ h2 in
    let ((from_template, consumed'), h4, e3) =
      both_ok _ (render_tokens show tool_name args_template map) _ h3 in
    let (rest, h5, e4) = both_ok _ (remaining_of show tool_name (consumed ++ consumed') map) _ h4 in
    let (same, whole) = ok_pair h5 in
    record {
      words = words;
      fixed = from_command ++ from_template;
      flags = rest;
      first = first_of_command command program' words e1 ∙ ap (λ p. p ∷ words) same;
      all = sym whole;
      one_each =
          Renders-append words args_template from_command from_template
            (rendered show tool_name words map from_command consumed e2)
            (rendered show tool_name args_template map from_template consumed' e3);
    }

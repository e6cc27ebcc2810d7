-- ===== src/Examples/Skilled.antt =====
-- A skill for GitHub, and patterns of commands.
use puff.Common.{
  ◌≡◌, ◌↔◌, refl, true, false, none, some, List, [], ◌∷◌, ◌++◌, codes, ok, err, map, All, inl,
  arith,
}
use puff.Common.Json.{null}
use puff.Tools.{RegisteredTool, noop, csv}
use puff.Skills.{SkillPermissions, glob_matches, command_allowed, split_stars}
use puff.Skills.Glob.{IsOpen}
use puff.Skills.Glob.Meaning.{Globs, glob_matches_iff, denied_is_allowed}
use puff.Skills.Loading.{Skill, SkillTool, Host, registered_tool, into_registered_tools}
use puff.Skills.Loading.Tools.{IsAllowed, module_tools, into_registered_tools_iff}

abbrev permissions : SkillPermissions
permissions = record {
  allow = codes "gh pr *" ∷ codes "gh issue *" ∷ [];
  deny = codes "gh pr close *" ∷ [];
}

lists_allowed : command_allowed permissions (codes "gh pr list") ≡ true
unfolding command_allowed
lists_allowed = refl

close_denied : command_allowed permissions (codes "gh pr close 10") ≡ false
unfolding command_allowed
close_denied = refl

-- Two stars side by side match anything.
two_stars : glob_matches (codes "gh ** list") (codes "gh repo delete") ≡ true
unfolding glob_matches
two_stars = refl

glob_matches_iff_example :
    (glob_matches (codes "gh * --repo *") (codes "gh pr list --repo a") ≡ true)
    ↔ Globs (codes "gh * --repo *") (codes "gh pr list --repo a")
unfolding split_stars IsOpen
glob_matches_iff_example =
    glob_matches_iff (codes "gh * --repo *") (codes "gh pr list --repo a") (inl tt)

denied_is_allowed_example :
    Globs (codes "*rm") (codes "rm a; rm")
    × (command_allowed (record { allow = []; deny = codes "*rm" ∷ [] }) (codes "rm a; rm") ≡ true)
denied_is_allowed_example =
    denied_is_allowed 114 (codes "m") (codes " a; ")
      (λ e. absurd (omega (arith, e)), (λ e. absurd (omega (arith, e)), tt))

abbrev list_tool : SkillTool
list_tool = record {
  name = codes "gh_pr_list";
  description = codes "List open PRs";
  command = some (codes "gh pr list");
  wasm_path = none;
  args = (codes "repo", codes "string") ∷ [];
  output_format = csv;
  requires_approval = false;
}

abbrev extra : RegisteredTool
extra = record {
  definition = record { name = codes "extra"; description = []; input_schema = null };
  executor = noop;
  requires_approval = true;
  timeout_ms = 5;
}

abbrev host : Host
host = record {
  parse_toml = λ s. err (codes "no TOML");
  to_lowercase = λ s. s;
  join_path = λ dir name. dir ++ codes "/" ++ name;
  exists = λ path. false;
  read_to_string = λ path. err (codes "no file");
  trim = λ s. s;
  load_python_tools_module = λ m. ok (extra ∷ []);
}

abbrev skill : Skill
skill = record {
  name = codes "github";
  description = codes "GitHub skill";
  version = codes "1.0.0";
  tools_module = some (codes "m");
  tools = list_tool ∷ [];
  permissions = permissions;
  context = none;
  source_dir = codes "/s";
}

into_registered_tools_iff_example :
    (into_registered_tools host skill ≡ ok (registered_tool list_tool ∷ extra ∷ [])) ↔ (
      All (λ t. IsAllowed permissions t.command) (list_tool ∷ [])
      × ((more : List RegisteredTool) × (module_tools host (some (codes "m")) ≡ ok more)
          × (registered_tool list_tool ∷ extra ∷ []
              ≡ map registered_tool (list_tool ∷ []) ++ more)))
into_registered_tools_iff_example =
    into_registered_tools_iff host skill (registered_tool list_tool ∷ extra ∷ [])

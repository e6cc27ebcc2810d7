-- ===== src/Skills/Loading/Tools.antt =====
-- The tools that a skill registers, and their commands.
use puff.Common.{
  ◌≡◌, ◌↔◌, refl, sym, ap, ◌∙◌, true, Option, none, some, List, [], ◌∷◌, ◌++◌, Text, map, Result,
  ok, err, ◌>>=◌, All, arith,
}
use mathlib.Core.List.{append-nil}
use puff.Errors.{AgentError}
use puff.Tools.{RegisteredTool}
use puff.Skills.{SkillPermissions, command_allowed}
use puff.Skills.Loading.{
  Skill, SkillTool, Host, registered_tool, refusal, unless_refused, register_each, with_module,
  into_registered_tools,
}

-- The permissions allow the command, if there is one.
unfoldable pub IsAllowed : SkillPermissions → Option Text → Type 0
IsAllowed permissions none = Unit
IsAllowed permissions (some command) = command_allowed permissions command ≡ true

-- The tools of the Python module, if the skill has one.
pub module_tools : Host → Option Text → Result AgentError (List RegisteredTool)
module_tools host none = ok []
module_tools host (some tools_module) = host.load_python_tools_module tools_module

refusal-IsAllowed :
    (permissions : SkillPermissions) (skill : Text) (t : SkillTool) (command : Option Text)
    → (refusal permissions skill t command ≡ none) ↔ IsAllowed permissions command
unfolding IsAllowed
refusal-IsAllowed permissions skill t none = (λ h. tt, λ h. refl)
refusal-IsAllowed permissions skill t (some command) = (λ h. ground (arith, h), λ h. rw h refl)

unless_refused_ok :
    (o : Option AgentError) (r : RegisteredTool) (rest : Result AgentError (List RegisteredTool))
    (rs : List RegisteredTool)
    → unless_refused o r rest ≡ ok rs
    → (o ≡ none) × (tl : List RegisteredTool) × (rest ≡ ok tl) × (rs ≡ r ∷ tl)
unless_refused_ok (some e) r rest rs h = cc
unless_refused_ok none r (err e) rs h = cc
unless_refused_ok none r (ok tl) rs h = (refl, tl, refl, cc)

register_each_sound :
    (permissions : SkillPermissions) (skill : Text) (ts : List SkillTool) (rs : List RegisteredTool)
    → register_each permissions skill ts ≡ ok rs
    → All (λ t. IsAllowed permissions t.command) ts × (rs ≡ map registered_tool ts)
unfolding register_each
register_each_sound permissions skill [] rs h = (tt, cc)
register_each_sound permissions skill (t ∷ ts) rs h =
    let (o, tl, e, f) = unless_refused_ok (refusal permissions skill t t.command) _ _ rs h in
    let (a, g) = register_each_sound permissions skill ts tl e in
    (
      ((refusal-IsAllowed permissions skill t t.command).0 o, a),
      f ∙ ap (λ x. registered_tool t ∷ x) g,
    )

register_each_complete :
    (permissions : SkillPermissions) (skill : Text) (ts : List SkillTool)
    → All (λ t. IsAllowed permissions t.command) ts
    → register_each permissions skill ts ≡ ok (map registered_tool ts)
unfolding register_each
register_each_complete permissions skill [] a = refl
register_each_complete permissions skill (t ∷ ts) (a, as') =
    ap (λ o. unless_refused o (registered_tool t) (register_each permissions skill ts))
      ((refusal-IsAllowed permissions skill t t.command).1 a)
    ∙ ap (unless_refused none (registered_tool t)) (register_each_complete permissions skill ts as')

bind_ok :
    {A B : Type 0} (x : Result AgentError A) (f : A → Result AgentError B) (b : B)
    → (x >>= f) ≡ ok b
    → (a : A) × (x ≡ ok a) × (f a ≡ ok b)
bind_ok (ok a) f b h = (a, refl, h)
bind_ok (err e) f b h = cc

with_module_ok :
    (host : Host) (m : Option Text) (xs rs : List RegisteredTool)
    → with_module host m xs ≡ ok rs
    → (more : List RegisteredTool) × (module_tools host m ≡ ok more) × (rs ≡ xs ++ more)
unfolding module_tools
with_module_ok host none xs rs h = let e : rs ≡ xs = cc in ([], refl, e ∙ sym (append-nil xs))
with_module_ok host (some m) xs rs h =
    let (more, e, f) = bind_ok (host.load_python_tools_module m) (λ more. ok (xs ++ more)) rs h in
    (more, e, cc)

with_module_complete :
    (host : Host) (m : Option Text) (xs more : List RegisteredTool)
    → module_tools host m ≡ ok more
    → with_module host m xs ≡ ok (xs ++ more)
unfolding module_tools
with_module_complete host none xs more h =
    let e : [] ≡ more = cc in ap ok (sym (append-nil xs) ∙ ap (λ t. xs ++ t) e)
with_module_complete host (some m) xs more h = rw h refl

-- A skill becomes tools exactly when its permissions allow the command of each of its tools that has one and its module of Python
-- tools, if it has one, loads: then the tools are its own, in their order, and those of the module.
pub into_registered_tools_iff :
    (host : Host) (skill : Skill) (tools : List RegisteredTool)
    → (into_registered_tools host skill ≡ ok tools) ↔ (
        All (λ t. IsAllowed skill.permissions t.command) skill.tools
        × ((more : List RegisteredTool) × (module_tools host skill.tools_module ≡ ok more)
            × (tools ≡ map registered_tool skill.tools ++ more)))
unfolding into_registered_tools
into_registered_tools_iff host skill tools = (
  λ h.
      let (xs, e, f) =
        bind_ok (register_each skill.permissions skill.name skill.tools)
          (with_module host skill.tools_module) tools h in
      let (a, g) = register_each_sound skill.permissions skill.name skill.tools xs e in
      let (more, k, w) = with_module_ok host skill.tools_module xs tools f in
      (a, (more, k, w ∙ ap (λ t. t ++ more) g)),
  λ (a, (more, k, w)).
      ap (λ x. x >>= with_module host skill.tools_module)
        (register_each_complete skill.permissions skill.name skill.tools a)
      ∙ with_module_complete host skill.tools_module (map registered_tool skill.tools) more k
      ∙ ap ok (sym w),
)

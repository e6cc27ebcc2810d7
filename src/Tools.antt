-- ===== src/Tools.antt =====
-- src/agents/tool.rs: the tool registry, and the command line that a tool call becomes. `show` is
-- the text of a JSON value. A `HashSet` of names is a list.
pub mod Render
pub mod Execute
use puff.Common.{
  ℕ, zero, suc, Bool, true, false, ◌&&◌, ◌||◌, Option, none, some, List, [], ◌∷◌, ◌++◌, Text, codes,
  ltb, contains, length, if◌then◌else◌, ◌==◌, text_eq, nat_eq, Result, ok, err, ◌>>=◌,
}
use puff.Common.Table.{Table}
use puff.Common.Table as Table
use puff.Common.Strings.{is_whitespace, has_part}
use puff.Common.Json.{Json, null, bool, number, string, array, object, Fields, end, field, find}
use puff.Errors.{
  Message, AgentError, config_error, tool_execution_error, empty_command, null_argument,
  not_an_object, arguments_required, unclosed_placeholder, missing_argument,
}

pub data OutputFormat : Type 0 where
  json text csv : OutputFormat

pub data ToolExecutor : Type 0 where
  python : Text → Text → ToolExecutor
  cli : Text → List Text → OutputFormat → ToolExecutor
  wasm : Text → ToolExecutor
  graphql graphql_schema graphql_validate : Option Text → ToolExecutor
  registry_message registry_scan noop : ToolExecutor

pub record ToolDefinition : Type 0 where
  pub name : Text
  pub description : Text
  pub input_schema : Json

pub record RegisteredTool : Type 0 where
  pub definition : ToolDefinition
  pub executor : ToolExecutor
  pub requires_approval : Bool
  pub timeout_ms : ℕ

pub record ToolRegistry : Type 0 where
  pub tools : Table Text RegisteredTool

-- `ToolRegistry::new`
abbrev pub empty_registry : ToolRegistry
empty_registry = record { tools = [] }

unfoldable pub register : RegisteredTool → ToolRegistry → ToolRegistry
register tool r = record { tools = Table.insert tool.definition.name tool r.tools }

unfoldable pub get : Text → ToolRegistry → Option RegisteredTool
get name r = Table.get name r.tools

unfoldable pub is_native : ToolExecutor → Bool
is_native (python module_name function) = false
is_native _ = true

unfoldable pub all_of : List RegisteredTool → Bool
unfolding is_native
all_of [] = true
all_of (t ∷ ts) = is_native t.executor && all_of ts

unfoldable pub all_native : ToolRegistry → Bool
unfolding all_of
all_native r = all_of (Table.values r.tools)

-- `split_whitespace`: the word that is being read, and the words after it.
unfoldable pub words_from : Text → List Text × Text
words_from [] = ([], [])
words_from (c ∷ s) =
    let (words, w) = words_from s in
    if is_whitespace c then ((if w == [] then words else w ∷ words), []) else (words, c ∷ w)

unfoldable pub split_whitespace : Text → List Text
unfolding words_from
split_whitespace s = let (words, w) = words_from s in if w == [] then words else w ∷ words

unfoldable pub split_command : Text → Result AgentError (Text × List Text)
unfolding split_whitespace
split_command command = elim (split_whitespace command) [
  | [] ↦ err (config_error empty_command)
  | (program ∷ parts) ↦ ok (program, parts)
]

-- What stands before and after the first such character: `find(c)` and the slices at it.
unfoldable pub split_at : ℕ → Text → Option (Text × Text)
split_at mark [] = none
split_at mark (c ∷ s) =
    let later = split_at mark s in
    if c == mark
    then some ([], s)
    else elim later [ none ↦ none | some (before, after) ↦ some (c ∷ before, after) ]

-- The order of texts, by their characters.
unfoldable pub text_leb : Text → Text → Bool
text_leb [] t = true
text_leb (c ∷ s) [] = false
text_leb (c ∷ s) (d ∷ t) = ltb c d || (c == d && text_leb s t)

-- `sort_by`, which is stable.
unfoldable pub insert_entry : Text × Json → List (Text × Json) → List (Text × Json)
unfolding text_leb
insert_entry e [] = e ∷ []
insert_entry e (f ∷ entries) =
    if text_leb e.0 f.0 then e ∷ f ∷ entries else f ∷ insert_entry e entries

unfoldable pub sorted_entries : Fields → List (Text × Json)
unfolding insert_entry
sorted_entries end = []
sorted_entries (field name value more) = insert_entry (name, value) (sorted_entries more)

module _ (show : Json → Text) (tool_name : Text) where
  -- An error of the tool.
  abbrev pub fails : {A : Type 0} → Message → Result AgentError A
  fails why = err (tool_execution_error tool_name why)

  unfoldable pub json_value_to_arg : Json → Result AgentError Text
  json_value_to_arg null = fails null_argument
  json_value_to_arg (string s) = ok s
  json_value_to_arg (bool true) = ok (codes "true")
  json_value_to_arg (bool false) = ok (codes "false")
  json_value_to_arg (number s) = ok s
  json_value_to_arg (array items) = ok (show (array items))
  json_value_to_arg (object fields) = ok (show (object fields))

  -- The text of a named argument.
  unfoldable pub argument : Fields → Text → Result AgentError Text
  unfolding json_value_to_arg
  argument arguments key = elim (find key arguments) [
    | none ↦ fails (missing_argument key)
    | some value ↦ json_value_to_arg value
  ]

  -- The loop of `render_template_token` over what remains, with its length as fuel: each round takes
  -- two characters at least. It returns the text and the names that it took.
  unfoldable pub render_rest : ℕ → Fields → Text → Text → Result AgentError (Text × List Text)
  unfolding split_at argument
  render_rest zero arguments template remaining = ok (remaining, [])
  render_rest (suc fuel) arguments template remaining = elim (split_at b'{' remaining) [
    | none ↦ ok (remaining, [])
    | some (before, rest) ↦ elim (split_at b'}' rest) [
      | none ↦ fails (unclosed_placeholder template)
      | some (key, more) ↦ do
        value ← argument arguments key
        (rendered, names) ← render_rest fuel arguments template more
        ok (before ++ value ++ rendered, key ∷ names)
    ]
  ]

  unfoldable pub render_template_token : Text → Option Fields → Result AgentError (Text × List Text)
  unfolding render_rest
  render_template_token template none =
      if has_part (codes "{") template
      then fails (arguments_required template)
      else ok (template, [])
  render_template_token template (some arguments) =
      render_rest (length template) arguments template template

  -- Either loop over tokens: the arguments, one for each token, and the names that they took.
  unfoldable pub render_tokens :
      List Text → Option Fields → Result AgentError (List Text × List Text)
  unfolding render_template_token
  render_tokens [] arguments = ok ([], [])
  render_tokens (token ∷ more) arguments = do
    (arg, names) ← render_template_token token arguments
    (args, others) ← render_tokens more arguments
    ok (arg ∷ args, names ++ others)

  -- The flag of an argument that no token took.
  unfoldable pub flags_of : Text → Json → Result AgentError (List Text)
  unfolding json_value_to_arg
  flags_of name null = ok []
  flags_of name (bool true) = ok ((codes "--" ++ name) ∷ [])
  flags_of name (bool false) = ok []
  flags_of name value = do arg ← json_value_to_arg value; ok ((codes "--" ++ name) ∷ arg ∷ [])

  unfoldable pub render_remaining : List Text → List (Text × Json) → Result AgentError (List Text)
  unfolding flags_of
  render_remaining consumed [] = ok []
  render_remaining consumed ((name, value) ∷ more) = do
    flags ← if contains consumed name then ok [] else flags_of name value
    rest ← render_remaining consumed more
    ok (flags ++ rest)

  -- The arguments as a map, if there are any.
  unfoldable pub argument_map : Json → Result AgentError (Option Fields)
  argument_map null = ok none
  argument_map (object fields) = ok (some fields)
  argument_map other = fails (not_an_object other)

  unfoldable pub remaining_of : List Text → Option Fields → Result AgentError (List Text)
  unfolding render_remaining sorted_entries
  remaining_of consumed none = ok []
  remaining_of consumed (some fields) = render_remaining consumed (sorted_entries fields)

  unfoldable pub render_cli_command : Text → List Text → Json → Result AgentError (Text × List Text)
  unfolding argument_map split_command render_tokens remaining_of
  render_cli_command command args_template arguments = do
    map ← argument_map arguments
    (program, command_tokens) ← split_command command
    (from_command, consumed) ← render_tokens command_tokens map
    (from_template, consumed') ← render_tokens args_template map
    rest ← remaining_of (consumed ++ consumed') map
    ok (program, from_command ++ from_template ++ rest)

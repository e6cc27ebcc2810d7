-- ===== src/Capabilities/Serde.antt =====
-- src/agents/capabilities.rs: the hand-written `Serialize` and `Deserialize` of the capabilities, to
-- and from JSON values.
pub mod RoundTrip
use puff.Common.{
  ◌≡◌, refl, ap, Bool, true, false, Option, List, [], ◌∷◌, Text, codes, arith, if◌then◌else◌, ◌==◌,
  text_eq, text_beq, Result, ok, err, ◌>>=◌,
}
use puff.Common.Json.{
  Json, null, bool, number, string, array, object, Items, nil, cons, Fields, end, field, find,
  as_str,
}
use puff.Capabilities.Types.{
  SqlCapability, HttpCapability, FsCapability, ToolCapability, AgentCapability,
}

-- The messages of `serde::de::Error::custom`.
pub data SerdeError : Type 0 where
  expected_sql expected_http expected_fs expected_tools expected_agents : SerdeError
  read_only_not_array read_write_not_array : SerdeError

-- `Vec<String>` as a JSON array.
unfoldable pub strings : List Text → Items
strings [] = nil
strings (s ∷ ss) = cons (string s) (strings ss)

-- `v.as_str().unwrap_or("")`
unfoldable pub text_of : Json → Text
text_of (string s) = s
text_of _ = []

-- `arr.iter().map(..).collect()`
unfoldable pub texts : Items → List Text
unfolding text_of
texts nil = []
texts (cons v vs) = text_of v ∷ texts vs

unfoldable pub sql_to_json : SqlCapability → Json
sql_to_json SqlCapability.none = string (codes "none")
sql_to_json SqlCapability.read_only = string (codes "read_only")
sql_to_json SqlCapability.read_write = string (codes "read_write")

unfoldable pub sql_from_json : Json → Result SerdeError SqlCapability
sql_from_json (string s) =
    if s == codes "none"
    then ok SqlCapability.none
    else if s == codes "read_only"
    then ok SqlCapability.read_only
    else if s == codes "read_write"
    then ok SqlCapability.read_write
    else err expected_sql
sql_from_json _ = err expected_sql

unfoldable pub http_to_json : HttpCapability → Json
unfolding strings
http_to_json HttpCapability.none = string (codes "none")
http_to_json HttpCapability.any = string (codes "any")
http_to_json (HttpCapability.allowlist v) = array (strings v)

unfoldable pub http_from_json : Json → Result SerdeError HttpCapability
unfolding texts
http_from_json (string s) =
    if s == codes "none"
    then ok HttpCapability.none
    else if s == codes "any"
    then ok HttpCapability.any
    else err expected_http
http_from_json (array arr) = ok (HttpCapability.allowlist (texts arr))
http_from_json _ = err expected_http

unfoldable pub fs_to_json : FsCapability → Json
unfolding strings
fs_to_json FsCapability.none = string (codes "none")
fs_to_json (FsCapability.read_only paths) =
    object (field (codes "read_only") (array (strings paths)) end)
fs_to_json (FsCapability.read_write paths) =
    object (field (codes "read_write") (array (strings paths)) end)

-- `as_array().ok_or_else(..)`, and the paths.
paths_in : SerdeError → Json → Result SerdeError (List Text)
unfolding texts
paths_in e (array arr) = ok (texts arr)
paths_in e _ = err e

as_read_write : Option Json → Result SerdeError FsCapability
unfolding paths_in
as_read_write Option.none = err expected_fs
as_read_write (Option.some v) = do
  paths ← paths_in read_write_not_array v
  ok (FsCapability.read_write paths)

as_read_only : Option Json → Option Json → Result SerdeError FsCapability
unfolding paths_in as_read_write
as_read_only Option.none other = as_read_write other
as_read_only (Option.some v) other = do
  paths ← paths_in read_only_not_array v
  ok (FsCapability.read_only paths)

unfoldable pub fs_from_json : Json → Result SerdeError FsCapability
unfolding as_read_only find
fs_from_json (string s) = if s == codes "none" then ok FsCapability.none else err expected_fs
fs_from_json (object map) =
    as_read_only (find (codes "read_only") map) (find (codes "read_write") map)
fs_from_json _ = err expected_fs

unfoldable pub tools_to_json : ToolCapability → Json
unfolding strings
tools_to_json ToolCapability.none = string (codes "none")
tools_to_json ToolCapability.all = string (codes "all")
tools_to_json (ToolCapability.specific v) = array (strings v)

unfoldable pub tools_from_json : Json → Result SerdeError ToolCapability
unfolding texts
tools_from_json (string s) =
    if s == codes "none"
    then ok ToolCapability.none
    else if s == codes "all"
    then ok ToolCapability.all
    else err expected_tools
tools_from_json (array arr) = ok (ToolCapability.specific (texts arr))
tools_from_json _ = err expected_tools

unfoldable pub agents_to_json : AgentCapability → Json
unfolding strings
agents_to_json AgentCapability.none = string (codes "none")
agents_to_json AgentCapability.all = string (codes "all")
agents_to_json (AgentCapability.specific v) = array (strings v)

unfoldable pub agents_from_json : Json → Result SerdeError AgentCapability
unfolding texts
agents_from_json (string s) =
    if s == codes "none"
    then ok AgentCapability.none
    else if s == codes "all"
    then ok AgentCapability.all
    else err expected_agents
agents_from_json (array arr) = ok (AgentCapability.specific (texts arr))
agents_from_json _ = err expected_agents

-- ===== src/Capabilities/Serde/RoundTrip.antt =====
-- What is written is read back.
use puff.Common.{◌≡◌, refl, ap, List, [], ◌∷◌, Text, text_eq, text_beq, ok}
use puff.Capabilities.Types.{
  SqlCapability, HttpCapability, FsCapability, ToolCapability, AgentCapability, AgentCapabilities,
}
use puff.Capabilities.Serde.{
  strings, texts, sql_to_json, sql_from_json, http_to_json, http_from_json, fs_to_json,
  fs_from_json, tools_to_json, tools_from_json, agents_to_json, agents_from_json,
}

texts-strings : (v : List Text) → texts (strings v) ≡ v
unfolding texts strings
texts-strings [] = refl
texts-strings (s ∷ v) = ap (◌∷◌ s) (texts-strings v)

sql_round_trip : (c : SqlCapability) → sql_from_json (sql_to_json c) ≡ ok c
unfolding sql_from_json sql_to_json text_beq
sql_round_trip SqlCapability.none = refl
sql_round_trip SqlCapability.read_only = refl
sql_round_trip SqlCapability.read_write = refl

http_round_trip : (c : HttpCapability) → http_from_json (http_to_json c) ≡ ok c
unfolding http_from_json http_to_json text_beq
http_round_trip HttpCapability.none = refl
http_round_trip HttpCapability.any = refl
http_round_trip (HttpCapability.allowlist v) = rw (texts-strings v)

fs_round_trip : (c : FsCapability) → fs_from_json (fs_to_json c) ≡ ok c
unfolding fs_from_json fs_to_json text_beq
fs_round_trip FsCapability.none = refl
fs_round_trip (FsCapability.read_only v) = rw (texts-strings v)
fs_round_trip (FsCapability.read_write v) = rw (texts-strings v)

tools_round_trip : (c : ToolCapability) → tools_from_json (tools_to_json c) ≡ ok c
unfolding tools_from_json tools_to_json text_beq
tools_round_trip ToolCapability.none = refl
tools_round_trip ToolCapability.all = refl
tools_round_trip (ToolCapability.specific v) = rw (texts-strings v)

agents_round_trip : (c : AgentCapability) → agents_from_json (agents_to_json c) ≡ ok c
unfolding agents_from_json agents_to_json text_beq
agents_round_trip AgentCapability.none = refl
agents_round_trip AgentCapability.all = refl
agents_round_trip (AgentCapability.specific v) = rw (texts-strings v)

-- Each capability of an agent that is written as JSON is read back as it was.
pub from_json-to_json :
    {F64 : Type 0} (c : AgentCapabilities F64)
    → (sql_from_json (sql_to_json c.sql) ≡ ok c.sql)
      × (http_from_json (http_to_json c.http) ≡ ok c.http)
      × (fs_from_json (fs_to_json c.filesystem) ≡ ok c.filesystem)
      × (tools_from_json (tools_to_json c.tools) ≡ ok c.tools)
      × (agents_from_json (agents_to_json c.agents) ≡ ok c.agents)
from_json-to_json c = (
  sql_round_trip c.sql,
  http_round_trip c.http,
  fs_round_trip c.filesystem,
  tools_round_trip c.tools,
  agents_round_trip c.agents,
)

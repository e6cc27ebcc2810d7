-- ===== src/Conversation.antt =====
-- src/agents/conversation.rs: the messages of a conversation, and the compaction that turns old messages
-- into text. Lengths and indices are those of the UTF-8 bytes; a slice at an index that is no character
-- boundary panics, which is `none` here. `show` is the display of a JSON value.
pub mod Boundary
pub mod Compaction
use mathlib.Core.Option
use puff.Common.{
  ℕ, zero, suc, ◌+◌, ◌-◌, Bool, true, false, ◌&&◌, ◌||◌, not, Option, none, some, List, [], ◌∷◌,
  ◌++◌, Text, codes, ltb, leb, nat_beq, length, if◌then◌else◌, ◌==◌, text_eq,
}
use puff.Common.Json.{Json}

pub data Role : Type 0 where
  system user assistant tool : Role

pub data ContentBlock : Type 0 where
  text : Text → ContentBlock
  tool_use : Text → Text → Json → ContentBlock
  tool_result : Text → Text → Option Bool → ContentBlock

pub data MessageContent : Type 0 where
  plain : Text → MessageContent
  blocks : List ContentBlock → MessageContent

pub record Message : Type 0 where
  pub role : Role
  pub content : MessageContent
  pub tool_call_id : Option Text

pub record Conversation : Type 0 where
  pub id : Text
  pub agent_name : Text
  pub messages : List Message
  pub archived_context : Text
  pub token_count : ℕ
  pub created_at : ℕ
  pub updated_at : ℕ

unfoldable pub new : Text → Text → ℕ → Conversation
new agent_name uuid now = record {
  id = uuid;
  agent_name = agent_name;
  messages = [];
  archived_context = [];
  token_count = 0;
  created_at = now;
  updated_at = now;
}

unfoldable pub with_id : Text → Conversation → Conversation
with_id id c = record c { id = id }

unfoldable pub add_message : Message → ℕ → Conversation → Conversation
add_message message now c = record c { messages = c.messages ++ message ∷ []; updated_at = now }

unfoldable pub add_user_message : Text → ℕ → Conversation → Conversation
unfolding add_message
add_user_message content now c =
    add_message (record { role = user; content = plain content; tool_call_id = none }) now c

unfoldable pub add_assistant_message : Text → ℕ → Conversation → Conversation
unfolding add_message
add_assistant_message content now c =
    add_message (record { role = assistant; content = plain content; tool_call_id = none }) now c

-- The number of bytes of a character in UTF-8, and of a text.
unfoldable pub utf8_len : ℕ → ℕ
utf8_len c = if ltb c 128 then 1 else if ltb c 2048 then 2 else if ltb c 65536 then 3 else 4

unfoldable pub len : Text → ℕ
unfolding utf8_len
len [] = 0
len (c ∷ s) = utf8_len c + len s

unfoldable pub is_char_boundary : Text → ℕ → Bool
is_char_boundary [] index = nat_beq index 0
is_char_boundary (c ∷ s) index =
    let later = is_char_boundary s (index - utf8_len c) in
    if nat_beq index 0 then true else if leb (utf8_len c) index then later else false

-- `&text[index..]`
unfoldable pub slice_from : Text → ℕ → Option Text
slice_from [] index = if nat_beq index 0 then some [] else none
slice_from (c ∷ s) index =
    let later = slice_from s (index - utf8_len c) in
    if nat_beq index 0 then some (c ∷ s) else if leb (utf8_len c) index then later else none

-- The loop of `find_char_boundary`, with the number of bytes after the index as fuel.
unfoldable pub next_boundary : ℕ → Text → ℕ → ℕ
unfolding len is_char_boundary
next_boundary zero s index = index
next_boundary (suc fuel) s index =
    let later = next_boundary fuel s (suc index) in
    if ltb index (len s) && not (is_char_boundary s index) then later else index

unfoldable pub find_char_boundary : Text → ℕ → ℕ
unfolding next_boundary
find_char_boundary s index = next_boundary (len s - index) s index

role_name : Role → Text
role_name system = codes "system"
role_name user = codes "user"
role_name assistant = codes "assistant"
role_name tool = codes "tool"

module _ (show : Json → Text) where
  block_text : ContentBlock → Text
  block_text (text s) = s
  block_text (tool_use id name input) = codes "[tool_use " ++ name ++ codes "] " ++ show input
  block_text (tool_result id content (some true)) = codes "[tool_result error] " ++ content
  block_text (tool_result id content _) = codes "[tool_result] " ++ content

  block_lines : Role → List ContentBlock → Text
  unfolding block_text role_name
  block_lines role [] = []
  block_lines role (b ∷ bs) =
      role_name role ++ codes ": " ++ block_text b ++ codes "\n" ++ block_lines role bs

  -- What `append_compacted_message` appends.
  unfoldable pub compacted : Role → MessageContent → Text
  unfolding block_lines role_name
  compacted role (plain s) = role_name role ++ codes ": " ++ s ++ codes "\n"
  compacted role (blocks bs) = block_lines role bs

  -- The loop over the drained messages.
  unfoldable pub archive_of : List Message → Text
  unfolding compacted
  archive_of [] = []
  archive_of (m ∷ ms) = compacted m.role m.content ++ archive_of ms

  -- `push('\n')` unless the context is empty, and `push_str`.
  unfoldable pub joined : Text → Text → Text
  joined [] archived = archived
  joined (c ∷ s) archived = (c ∷ s) ++ codes "\n" ++ archived

  -- The cut of a context that is too long.
  unfoldable pub truncated : ℕ → Text → Option Text
  unfolding find_char_boundary slice_from
  truncated max_archived_chars context =
      if ltb max_archived_chars (len context)
      then Option.map (λ rest. codes "[Earlier context truncated]\n" ++ rest)
          (slice_from context (find_char_boundary context (len context - max_archived_chars)))
      else some context

  -- `drain(..n)`: the drained messages and those that stay.
  unfoldable pub drain : ℕ → List Message → List Message × List Message
  drain zero ms = ([], ms)
  drain (suc n) [] = ([], [])
  drain (suc n) (m ∷ ms) = let (a, b) = drain n ms in (m ∷ a, b)

  unfoldable pub archived_into : Text → ℕ → ℕ → Conversation → Option Conversation
  unfolding joined truncated
  archived_into [] max_archived_chars now c = some c
  archived_into (d ∷ archived) max_archived_chars now c =
      Option.map (λ context. record c { archived_context = context; updated_at = now })
        (truncated max_archived_chars (joined c.archived_context (d ∷ archived)))

  unfoldable pub compact : ℕ → ℕ → ℕ → Conversation → Option Conversation
  unfolding drain archive_of archived_into
  compact keep_recent_messages max_archived_chars now c =
      if nat_beq keep_recent_messages 0 || leb (length c.messages) keep_recent_messages
      then some c
      else (let (drained, kept) = drain (length c.messages - keep_recent_messages) c.messages in
          archived_into (archive_of drained) max_archived_chars now (record c { messages = kept }))

-- ===== src/Llm/Shapes.antt =====
-- The streams that the providers send_part, and the responses that they make.
use mathlib.Core.List.{append_assoc, append-nil}
use puff.Common.{
  ℕ, ◌≡◌, refl, sym, ap, ◌∙◌, Bool, true, false, Option, some, List, [], ◌∷◌, ◌++◌, Text, arith, ok,
  map, bind_then, text_eq, text_beq_iff,
}
use puff.Common.Json.{Json}
use puff.Agents.{ToolCall, StopReason}
use puff.Llm.{
  StreamChunk, text_delta, tool_call_start, tool_call_delta, tool_call_end, done, PendingToolCall,
  Collected, nothing_yet, position, target_idx, extend_at, extend, remove, finalise, end_at,
  end_call, extend_call, finish, if_positive, flush, response_of, collect_chat_response,
}

-- A part of a response: text, or a tool call whose JSON comes in pieces, which may carry the call's id.
pub data Part : Type 0 where
  says : Text → Part
  calls : Text → Text → Bool → List Text → Part

abbrev pub key : Text → Bool → Text
key id true = id
key id false = []

pub concat : List Text → Text
concat [] = []
concat (t ∷ ts) = t ++ concat ts

-- The chunks of a part, before others.
pub send_part : Part → List StreamChunk → List StreamChunk
send_part (says t) later = text_delta t ∷ later
send_part (calls id name keyed pieces) later =
    tool_call_start id name
    ∷ (map (tool_call_delta (key id keyed)) pieces ++ tool_call_end (key id keyed) ∷ later)

pub send_parts : List Part → List StreamChunk → List StreamChunk
send_parts [] later = later
send_parts (p ∷ ps) later = send_part p (send_parts ps later)

pub said : List Part → Text
said [] = []
said (says t ∷ ps) = t ++ said ps
said (calls id name keyed pieces ∷ ps) = said ps

target_first :
    (id : Text) (keyed : Bool) (tc : PendingToolCall)
    → tc.id ≡ id
    → target_idx (key id keyed) (some 0) (tc ∷ []) ≡ some 0
unfolding target_idx position
target_first id false tc e = refl
target_first [] true tc e = refl
target_first (c ∷ id) true tc e = rw ((text_beq_iff tc.id (c ∷ id)).1 e) refl

from_zero : (n : ℕ) → if_positive n 0 ≡ n
unfolding if_positive
from_zero n = ground arith

module _ (from_str : Text → Option Json) (model : Text) where
  pub called : List Part → List ToolCall
  called [] = []
  called (says t ∷ ps) = called ps
  called (calls id name keyed pieces ∷ ps) =
      finalise from_str (record { id = id; name = name; json_buf = concat pieces }) ∷ called ps

  -- Between two parts.
  abbrev between : Text → List ToolCall → Collected
  between text completed = record nothing_yet { text = text; completed_tool_calls = completed }

  -- In a tool call.
  abbrev within : Text → List ToolCall → PendingToolCall → Collected
  within text completed tc = record (between text completed) {
    pending_tool_calls = tc ∷ [];
    current_tool_idx = some 0;
  }

  extend_within :
      (text : Text) (completed : List ToolCall) (id name : Text) (keyed : Bool) (buf s : Text)
      → extend_call from_str
          (key id keyed)
          s
          (within text completed (record { id = id; name = name; json_buf = buf }))
        ≡ within text completed (record { id = id; name = name; json_buf = buf ++ s })
  unfolding extend_call extend extend_at nothing_yet
  extend_within text completed id name keyed buf s =
      let tc : PendingToolCall = record { id = id; name = name; json_buf = buf } in
      ap (λ o. record (within text completed tc) { pending_tool_calls = extend o s (tc ∷ []) })
        (target_first id keyed tc refl)

  end_within :
      (text : Text) (completed : List ToolCall) (keyed : Bool) (tc : PendingToolCall)
      → end_call from_str (key tc.id keyed) (within text completed tc)
        ≡ some (between text (completed ++ finalise from_str tc ∷ []))
  unfolding end_call end_at remove nothing_yet
  end_within text completed keyed tc =
      ap (λ o. end_at from_str o (within text completed tc)) (target_first tc.id keyed tc refl)

  -- A pending call gets its pieces, and is completed.
  abbrev complete : Text → Text → Text → ToolCall
  complete id name buf = finalise from_str (record { id = id; name = name; json_buf = buf })

  pieces_join :
      (text : Text) (completed : List ToolCall) (id name : Text) (keyed : Bool) (buf : Text)
      (pieces : List Text) (later : List StreamChunk)
      → collect_chat_response from_str model
          (map (tool_call_delta (key id keyed)) pieces ++ tool_call_end (key id keyed) ∷ later)
          (within text completed (record { id = id; name = name; json_buf = buf }))
        ≡ collect_chat_response from_str model later
            (between text (completed ++ complete id name (buf ++ concat pieces) ∷ []))
  unfolding collect_chat_response concat
  pieces_join text completed id name keyed buf [] later =
      bind_then _ (collect_chat_response from_str model later)
        (end_within text completed keyed (record { id = id; name = name; json_buf = buf }))
        (ap
          (λ b.
            collect_chat_response from_str model later
              (between text (completed ++ complete id name b ∷ [])))
          (sym (append-nil buf)))
  pieces_join text completed id name keyed buf (s ∷ pieces) later =
      ap
        (collect_chat_response from_str model
          (map (tool_call_delta (key id keyed)) pieces ++ tool_call_end (key id keyed) ∷ later))
        (extend_within text completed id name keyed buf s)
      ∙ pieces_join text completed id name keyed (buf ++ s) pieces later
      ∙ ap
          (λ b.
            collect_chat_response from_str model later
              (between text (completed ++ complete id name b ∷ [])))
          (append_assoc buf s (concat pieces))

  parts_join :
      (text : Text) (completed : List ToolCall) (parts : List Part) (later : List StreamChunk)
      → collect_chat_response from_str model (send_parts parts later) (between text completed)
        ≡ collect_chat_response from_str model later
            (between (text ++ said parts) (completed ++ called parts))
  unfolding send_parts send_part said called collect_chat_response concat nothing_yet
  parts_join text completed [] later = rw (append-nil text, append-nil completed) refl
  parts_join text completed (says t ∷ parts) later =
      parts_join (text ++ t) completed parts later
      ∙ ap (λ t. collect_chat_response from_str model later (between t (completed ++ called parts)))
          (append_assoc text t (said parts))
  parts_join text completed (calls id name keyed pieces ∷ parts) later =
      pieces_join text completed id name keyed [] pieces (send_parts parts later)
      ∙ parts_join text (completed ++ complete id name (concat pieces) ∷ []) parts later
      ∙ ap (λ c. collect_chat_response from_str model later (between (text ++ said parts) c))
          (append_assoc completed (complete id name (concat pieces) ∷ []) (called parts))

  -- The parts of a response, sent as chunks with the counts of tokens at the end, come back: the texts in one,
  -- and each tool call with the value that its pieces make, or null, in their order, whether the pieces carry
  -- the call's id or none.
  pub collect_chat_response-send_parts :
      (parts : List Part) (it ot : ℕ) (sr : StopReason)
      → collect_chat_response from_str model (send_parts parts (done it ot sr ∷ [])) nothing_yet
        ≡ some (
            ok (record {
              text = said parts;
              tool_calls = called parts;
              input_tokens = it;
              output_tokens = ot;
              stop_reason = sr;
              model = model;
            }))
  unfolding collect_chat_response finish nothing_yet response_of flush if_positive
  collect_chat_response-send_parts parts it ot sr =
      parts_join [] [] parts (done it ot sr ∷ [])
      ∙ rw (append-nil (called parts), from_zero it, from_zero ot) refl

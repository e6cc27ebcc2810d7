-- ===== src/Llm/Calls.antt =====
-- A response has each tool call that was started, and all of the text.
use mathlib.Core.Option
use mathlib.Core.List.{append_assoc, append-nil}
use puff.Common.{
  ℕ, zero, suc, ◌+◌, ◌<◌, ◌≡◌, refl, sym, ap, ◌∙◌, Bool, Option, none, some, List, [], ◌∷◌, ◌++◌,
  Text, length, arith, Result, ok, err, count, count-append, length-append, Gives-bind, Gives,
  text_eq,
}
use puff.Common.Json.{Json}
use puff.Errors.{Message, AgentError, llm_error}
use puff.Agents.{ToolCall, LlmResponse}
use puff.Llm.{
  StreamChunk, text_delta, tool_call_start, tool_call_delta, tool_call_end, done, error,
  PendingToolCall, Collected, nothing_yet, target_idx, extend_at, extend, remove, finalise, end_at,
  end_call, extend_call, start_call, finish, flush, response_of, collect_chat_response,
}
use puff.Llm.Pending.{InRange, target_idx-InRange, extend-InRange}

-- The first error of a stream ends it.
pub first_error : List StreamChunk → Option AgentError
first_error [] = none
first_error (error e ∷ more) = some (llm_error (Message.text e))
first_error (_ ∷ more) = first_error more

pub all_text : List StreamChunk → Text
all_text [] = []
all_text (text_delta delta ∷ more) = delta ++ all_text more
all_text (_ ∷ more) = all_text more

-- The ids and names of the tool calls that are started.
pub started : List StreamChunk → List (Text × Text)
started [] = []
started (tool_call_start id name ∷ more) = (id, name) ∷ started more
started (_ ∷ more) = started more

module _ (p : Text × Text → Bool) where
  abbrev pending_count : List PendingToolCall → ℕ
  pending_count pending = count (λ tc. p (tc.id, tc.name)) pending

  abbrev pub call_count : List ToolCall → ℕ
  call_count calls = count (λ tc. p (tc.id, tc.name)) calls

  count-extend_at :
      (i : ℕ) (s : Text) (pending : List PendingToolCall)
      → pending_count (extend_at i s pending) ≡ pending_count pending
  unfolding extend_at
  count-extend_at i s [] = refl
  count-extend_at zero s (tc ∷ more) = refl
  count-extend_at (suc i) s (tc ∷ more) = rw (count-extend_at i s more) refl

  count-extend :
      (target : Option ℕ) (s : Text) (pending : List PendingToolCall)
      → pending_count (extend target s pending) ≡ pending_count pending
  unfolding extend
  count-extend none s pending = refl
  count-extend (some i) s pending = count-extend_at i s pending

  remove_counts :
      (i : ℕ) (pending : List PendingToolCall)
      → i < length pending
      → Gives
          (λ (tc, rest). pending_count pending ≡ pending_count (tc ∷ []) + pending_count rest)
          (remove i pending)
  unfolding remove
  remove_counts i [] h = absurd (omega arith)
  remove_counts zero (tc ∷ more) h = ((tc, more), refl, ground arith)
  remove_counts (suc i) (tc ∷ more) h =
      let ((found, rest), e, counts) = remove_counts i more (omega arith) in
      ((found, tc ∷ rest), rw e refl, ground arith)

  count-flush :
      (from_str : Text → Option Json) (pending : List PendingToolCall)
      → call_count (flush from_str pending) ≡ pending_count pending
  unfolding flush finalise
  count-flush from_str [] = refl
  count-flush from_str (tc ∷ more) = rw (count-flush from_str more) refl

  module _ (from_str : Text → Option Json) (model : Text) where
    abbrev counted : Collected → ℕ
    counted c = call_count c.completed_tool_calls + pending_count c.pending_tool_calls

    abbrev Valid : Collected → Type 0
    Valid c = InRange c.current_tool_idx c.pending_tool_calls

    end_at_counts :
        (target : Option ℕ) (c : Collected)
        → InRange target c.pending_tool_calls
        → Valid c
        → Gives
            (λ c'. Valid c' × (counted c' ≡ counted c) × (c'.text ≡ c.text))
            (end_at from_str target c)
    unfolding end_at finalise
    end_at_counts none c h v = (c, refl, (v, refl, refl))
    end_at_counts (some i) c h v =
        let ((tc, rest), e, counts) = remove_counts i c.pending_tool_calls h in
        (
          _,
          ap (Option.map _) e,
          (
            tt,
            omega (
              arith,
              count-append (λ t. p (t.id, t.name)) c.completed_tool_calls
                  (finalise from_str tc ∷ []),
              counts,
            ),
            refl,
          ),
        )

    start_counts :
        (id name : Text) (c : Collected) (later : List (Text × Text))
        → counted (start_call from_str id name c) + count p later
          ≡ counted c + count p ((id, name) ∷ later)
    unfolding start_call
    start_counts id name c later = ground (
      arith,
      count-append (λ t. p (t.id, t.name)) c.pending_tool_calls
          (record { id = id; name = name; json_buf = [] } ∷ []),
    )

    -- What a response comes to: the first error, or all of the text and of the calls.
    abbrev pub Collects : List StreamChunk → Text → ℕ → Result AgentError LlmResponse → Type 0
    Collects chunks text n (err e) = first_error chunks ≡ some e
    Collects chunks text n (ok response) =
        (first_error chunks ≡ none)
        × (response.text ≡ text ++ all_text chunks)
        × (call_count response.tool_calls ≡ n + count p (started chunks))

    goes_on :
        (chunks more : List StreamChunk) (c c' : Collected)
        → first_error chunks ≡ first_error more
        → c'.text ++ all_text more ≡ c.text ++ all_text chunks
        → counted c' + count p (started more) ≡ counted c + count p (started chunks)
        → (o : Option (Result AgentError LlmResponse))
        → Gives (Collects more c'.text (counted c')) o
        → Gives (Collects chunks c.text (counted c)) o
    goes_on chunks more c c' f t n o (err e, h, k) = (err e, h, f ∙ k)
    goes_on chunks more c c' f t n o (ok r, h, (k, l, m)) = (ok r, h, (f ∙ k, l ∙ t, m ∙ n))

    collects :
        (chunks : List StreamChunk) (c : Collected)
        → Valid c
        → Gives (Collects chunks c.text (counted c)) (collect_chat_response from_str model chunks c)
    unfolding collect_chat_response response_of start_call extend_call finish first_error all_text
        started
    collects [] c v = (
      _,
      refl,
      (
        refl,
        sym (append-nil c.text),
        omega (
          arith,
          count-append (λ t. p (t.id, t.name)) c.completed_tool_calls
              (flush from_str c.pending_tool_calls),
          count-flush from_str c.pending_tool_calls,
        ),
      ),
    )
    collects (text_delta delta ∷ more) c v =
        goes_on (text_delta delta ∷ more) more c (record c { text = c.text ++ delta }) refl
          (append_assoc c.text delta (all_text more)) refl _
          (collects more (record c { text = c.text ++ delta }) v)
    collects (tool_call_start id name ∷ more) c v =
        goes_on (tool_call_start id name ∷ more) more c (start_call from_str id name c) refl refl
          (start_counts id name c (started more)) _
          (collects more (start_call from_str id name c) (
            omega (
              arith,
              length-append c.pending_tool_calls
                  (record { id = id; name = name; json_buf = [] } ∷ []),
            )))
    collects (tool_call_delta id input_json ∷ more) c v =
        goes_on (tool_call_delta id input_json ∷ more) more c (extend_call from_str id input_json c)
          refl refl
          (ap (λ n. call_count c.completed_tool_calls + n + count p (started more))
            (count-extend (target_idx id c.current_tool_idx c.pending_tool_calls) input_json
              c.pending_tool_calls))
          _
          (collects more (extend_call from_str id input_json c)
            (extend-InRange c.current_tool_idx _ input_json c.pending_tool_calls v))
    collects (tool_call_end id ∷ more) c v =
        Gives-bind _ _ (end_call from_str id c) (collect_chat_response from_str model more)
          (end_at_counts _ c (target_idx-InRange id c.current_tool_idx c.pending_tool_calls v) v)
          (λ c' (v', n, t).
            goes_on (tool_call_end id ∷ more) more c c' refl (ap (λ s. s ++ all_text more) t)
              (ap (λ m. m + count p (started more)) n) _ (collects more c' v'))
    collects (done it ot sr ∷ more) c v =
        goes_on (done it ot sr ∷ more) more c (finish from_str it ot sr c) refl refl refl _
          (collects more (finish from_str it ot sr c) v)
    collects (error e ∷ more) c v = (_, refl, refl)

-- Collecting the chunks of a stream does not panic. It ends with the first error, if there is one; if not,
-- the response has the texts in their order, and for any test of ids and names as many tool calls that pass
-- it as were started, whether they were ended or not.
pub collect_chat_response-Collects :
    (p : Text × Text → Bool) (from_str : Text → Option Json) (model : Text)
    (chunks : List StreamChunk)
    → (r : Result AgentError LlmResponse) × (collect_chat_response from_str model chunks nothing_yet
        ≡ some r)
      × Collects p from_str model chunks [] 0 r
unfolding nothing_yet
collect_chat_response-Collects p from_str model chunks =
    collects p from_str model chunks nothing_yet tt

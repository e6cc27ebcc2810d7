-- ===== src/Streaming/Chunks.antt =====
-- The events do not depend on how the bytes arrive.
use mathlib.Core.List.{append_assoc}
use puff.Common.{
  ℕ, zero, suc, ◌≤◌, ◌≡◌, refl, sym, ap, ◌∙◌, Option, none, some, List, [], ◌++◌, length, arith,
  inl, inr, Option-cases,
}
use puff.Streaming.{
  Bytes, SseEvent, SseParser, new, find_from, find_event_delimiter, take, drop, parse_event,
  push_event, drain, feed,
}
use puff.Streaming.Delimiter.{find_bounds, find_from-append, take-append, drop-append, length-drop}

abbrev pub holding : Bytes → SseParser
holding s = record { buffer = s }

-- An event in front of what a parser returns.
abbrev after : Option SseEvent → SseParser × List SseEvent → SseParser × List SseEvent
after event (p, events) = (p, push_event event events)

-- What a parser returns, and then a chunk.
abbrev pub and_then : SseParser × List SseEvent → Bytes → SseParser × List SseEvent
and_then (p, events) chunk = ((feed chunk p).0, events ++ (feed chunk p).1)

drain_done :
    (fuel : ℕ) (s : Bytes) → find_from 0 s ≡ none → drain fuel (holding s) ≡ (holding s, [])
unfolding drain find_event_delimiter
drain_done zero s h = refl
drain_done (suc fuel) s h = rw h refl

drain_more :
    (fuel : ℕ) (s : Bytes) (start end : ℕ)
    → find_from 0 s ≡ some (start, end)
    → drain (suc fuel) (holding s)
      ≡ after (parse_event (take start s)) (drain fuel (holding (drop end s)))
unfolding drain find_event_delimiter
drain_more fuel s start end h = rw h refl

-- Where an event ends, there is fuel for a round.
no_fuel : (s : Bytes) (start end : ℕ) → find_from 0 s ≡ some (start, end) → length s ≤ 0 → ⊥
no_fuel s start end e h = omega (arith, find_bounds 0 s start end e)

shorter :
    (s : Bytes) (start end fuel : ℕ)
    → find_from 0 s ≡ some (start, end)
    → length s ≤ suc fuel
    → length (drop end s) ≤ fuel
shorter s start end fuel e h = omega (arith, find_bounds 0 s start end e, length-drop end s)

-- Each round shortens the buffer, so its length is fuel enough.
drain-fuel :
    (f g : ℕ) (s : Bytes) → length s ≤ f → length s ≤ g → drain f (holding s) ≡ drain g (holding s)
drain-fuel zero g s hf hg = elim (Option-cases (find_from 0 s)) [
  | inl n ↦ drain_done zero s n ∙ sym (drain_done g s n)
  | inr ((start, end), e) ↦ absurd (no_fuel s start end e hf)
]
drain-fuel (suc f) zero s hf hg = elim (Option-cases (find_from 0 s)) [
  | inl n ↦ drain_done (suc f) s n ∙ sym (drain_done zero s n)
  | inr ((start, end), e) ↦ absurd (no_fuel s start end e hg)
]
drain-fuel (suc f) (suc g) s hf hg = elim (Option-cases (find_from 0 s)) [
  | inl n ↦ drain_done (suc f) s n ∙ sym (drain_done (suc g) s n)
  | inr ((start, end), e) ↦
      let same =
        drain-fuel f g (drop end s) (shorter s start end f e hf) (shorter s start end g e hg) in
      drain_more f s start end e
      ∙ ap (after (parse_event (take start s))) same
      ∙ sym (drain_more g s start end e)
]

-- A buffer that holds one event and no more.
pub drain_one :
    (s : Bytes) (start end : ℕ)
    → find_from 0 s ≡ some (start, end)
    → drop end s ≡ []
    → drain (length s) (holding s) ≡ (holding [], push_event (parse_event (take start s)) [])
drain_one s start end e empty =
    drain-fuel (length s) (suc (length s)) s (omega arith) (omega arith)
    ∙ drain_more (length s) s start end e
    ∙ rw empty (rw (drain_done (length s) [] (unfold find_from in refl)) refl)

pub feed_new : (chunk : Bytes) → feed chunk new ≡ drain (length chunk) (holding chunk)
unfolding feed new
feed_new chunk = refl

after-append :
    (event : Option SseEvent) (r : SseParser × List SseEvent) (t : Bytes)
    → after event (and_then r t) ≡ and_then (after event r) t
unfolding push_event
after-append none r t = refl
after-append (some event) r t = refl

-- The rounds over a buffer with more bytes behind are those over the buffer, and then the rest.
drain-append :
    (f g : ℕ) (s t : Bytes)
    → length s ≤ f
    → length (s ++ t) ≤ g
    → drain g (holding (s ++ t)) ≡ and_then (drain f (holding s)) t
unfolding feed
drain-append zero g s t hf hg = elim (Option-cases (find_from 0 s)) [
  | inl n ↦ drain-fuel g (length (s ++ t)) (s ++ t) hg (omega arith)
  | inr ((start, end), e) ↦ absurd (no_fuel s start end e hf)
]
drain-append (suc f) zero s t hf hg = elim (Option-cases (find_from 0 s)) [
  | inl n ↦
      rw (drain_done (suc f) s n) (drain-fuel zero (length (s ++ t)) (s ++ t) hg (omega arith))
  | inr ((start, end), e) ↦
      absurd (no_fuel (s ++ t) start end (find_from-append 0 s t (start, end) e) hg)
]
drain-append (suc f) (suc g) s t hf hg = elim (Option-cases (find_from 0 s)) [
  | inl n ↦
      rw (drain_done (suc f) s n) (drain-fuel (suc g) (length (s ++ t)) (s ++ t) hg (omega arith))
  | inr ((start, end), e) ↦
      let (_, below, within) = find_bounds 0 s start end e in
      let e' = find_from-append 0 s t (start, end) e in
      let cut = drop-append end s t (omega arith) in
      let less = shorter (s ++ t) start end g e' hg in
      let ih = drain-append f g (drop end s) t (shorter s start end f e hf) (rw cut at less) in
      drain_more g (s ++ t) start end e'
      ∙ rw (take-append start s t (omega arith), cut, ih)
          (after-append (parse_event (take start s)) (drain f (holding (drop end s))) t)
      ∙ ap (λ r. and_then r t) (sym (drain_more f s start end e))
]

-- A chunk in two parts gives the events, and leaves the buffer, that it gives as a whole.
pub feed-append : (a b : Bytes) (p : SseParser) → feed (a ++ b) p ≡ and_then (feed a p) b
unfolding feed
feed-append a b p =
    let ih =
      drain-append (length (p.buffer ++ a)) (length ((p.buffer ++ a) ++ b)) (p.buffer ++ a) b
        (omega arith) (omega arith) in
    rw (append_assoc p.buffer a b) at ih

-- ===== src/Streaming/Frames.antt =====
-- What a frame of one data line is read back as.
use puff.Common.{
  ℕ, suc, ◌+◌, ◌≡◌, refl, ap, ◌∙◌, true, false, none, some, [], ◌∷◌, ◌++◌, length, codes, arith,
  ◌==◌, nat_eq, contains,
}
use puff.Streaming.{
  Bytes, new, crlf_twice, lf_twice, find_from, take, drop, parse_event, push_event, feed, is_utf8,
  from_utf8, split_lines, lines_of, strip_prefix, read_lines, event_of,
}
use puff.Streaming.Chunks.{feed_new, drain_one}

-- `data: `, the text, and an empty line.
abbrev pub frame : Bytes → Bytes
frame text = codes "data: " ++ text ++ codes "\n\n"

no_crlf : (c d : ℕ) (s : Bytes) → (d == 10) ≡ false → crlf_twice (c ∷ d ∷ s) ≡ false
unfolding crlf_twice
no_crlf c d [] h = refl
no_crlf c d (e ∷ []) h = refl
no_crlf c d (e ∷ f ∷ s) h = ground arith

-- In a line with no `\n`, the event ends where the line does.
find_in_line :
    (i : ℕ) (s : Bytes)
    → contains s 10 ≡ false
    → find_from i (s ++ codes "\n\n") ≡ some (i + length s, i + length s + 2)
unfolding find_from lf_twice
find_in_line i [] h = unfold crlf_twice in ground arith
find_in_line i (c ∷ []) h = unfold crlf_twice in ground arith
find_in_line i (c ∷ d ∷ s) h =
    ground (arith, no_crlf c d (s ++ codes "\n\n"), find_in_line (suc i) (d ∷ s))

find_in_frame :
    (s : Bytes)
    → contains s 10 ≡ false
    → find_from 0 (s ++ codes "\n\n") ≡ some (length s, length s + 2)
find_in_frame s h = find_in_line 0 s h ∙ ground arith

take_all : (s t : Bytes) → take (length s) (s ++ t) ≡ s
unfolding take
take_all [] t = refl
take_all (c ∷ s) t = ap (◌∷◌ c) (take_all s t)

drop_all : (s t : Bytes) (n : ℕ) → drop (length s + n) (s ++ t) ≡ drop n t
unfolding drop
drop_all [] t n = ap (λ k. drop k t) (omega arith)
drop_all (c ∷ s) t n =
    let next : suc (length s) + n ≡ suc (length s + n) = omega arith in rw next (drop_all s t n)

one_line :
    (c : ℕ) (s : Bytes) → contains (c ∷ s) 10 ≡ false → split_lines (c ∷ s) ≡ (c ∷ s, false) ∷ []
unfolding split_lines
one_line c [] h = ground arith
one_line c (d ∷ s) h =
    let same : (c == 10) ≡ false = ground arith in rw (one_line d s (ground arith), same) refl

parse_line :
    (text : Bytes)
    → contains text 10 ≡ false
    → is_utf8 0 128 191 text ≡ true
    → parse_event (codes "data: " ++ text) ≡ some (record { event_type = none; content = text })
unfolding parse_event from_utf8 is_utf8 strip_prefix event_of read_lines lines_of
parse_line text h u =
    let lines : split_lines (codes "data: " ++ text) ≡ (codes "data: " ++ text, false) ∷ [] =
      one_line b'd' (codes "ata: " ++ text) h in
    rw (u, lines) refl

-- The frame of a data line that is valid UTF-8 and has no newline is read back by a new parser as one event
-- with that text, and leaves nothing in the buffer.
pub feed-frame :
    (text : Bytes)
    → contains text 10 ≡ false
    → is_utf8 0 128 191 text ≡ true
    → feed (frame text) new ≡ (new, record { event_type = none; content = text } ∷ [])
unfolding push_event new
feed-frame text h u =
    let line = codes "data: " ++ text in
    let left = drop_all line (codes "\n\n") 2 in
    feed_new (frame text)
    ∙ drain_one (frame text) (length line) (length line + 2) (find_in_frame line h)
        (unfold drop in left)
    ∙ rw (take_all line (codes "\n\n"), parse_line text h u) refl

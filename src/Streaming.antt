-- ===== src/Streaming.antt =====
-- src/agents/streaming.rs: the parser of server-sent events. A text is the list of its UTF-8 bytes.
pub mod Delimiter
pub mod Chunks
pub mod Frames
use puff.Common.{
  ℕ, zero, suc, ◌+◌, Bool, true, false, ◌&&◌, Option, none, some, List, [], ◌∷◌, ◌++◌, codes, leb,
  ltb, length, if◌then◌else◌, ◌==◌, nat_eq,
}

abbrev pub Bytes : Type 0
Bytes = List ℕ

pub record SseEvent : Type 0 where
  pub event_type : Option Bytes
  -- `data`
  pub content : Bytes

pub record SseParser : Type 0 where
  pub buffer : Bytes

unfoldable pub new : SseParser
new = record { buffer = [] }

-- `\r\n\r\n` at the front.
unfoldable pub crlf_twice : Bytes → Bool
crlf_twice (a ∷ b ∷ c ∷ d ∷ s) = a == 13 && b == 10 && c == 13 && d == 10
crlf_twice s = false

-- `\n\n` at the front.
unfoldable pub lf_twice : Bytes → Bool
lf_twice (a ∷ b ∷ s) = a == 10 && b == 10
lf_twice s = false

-- The loop of `find_event_delimiter` from an index, over the bytes from there.
unfoldable pub find_from : ℕ → Bytes → Option (ℕ × ℕ)
unfolding crlf_twice lf_twice
find_from i [] = none
find_from i (c ∷ s) =
    let later = find_from (suc i) s in
    if crlf_twice (c ∷ s)
    then some (i, i + 4)
    else if lf_twice (c ∷ s)
    then some (i, i + 2)
    else later

unfoldable pub find_event_delimiter : SseParser → Option (ℕ × ℕ)
unfolding find_from
find_event_delimiter p = find_from 0 p.buffer

-- What may follow a first byte of a character: how many bytes, and the range of the next one.
lead_byte : ℕ → Option (ℕ × ℕ × ℕ)
lead_byte c =
    if ltb c 128
    then some (0, 128, 191)
    else if ltb c 194
    then none
    else if ltb c 224
    then some (1, 128, 191)
    else if c == 224
    then some (2, 160, 191)
    else if c == 237
    then some (2, 128, 159)
    else if ltb c 240
    then some (2, 128, 191)
    else if c == 240
    then some (3, 144, 191)
    else if ltb c 244
    then some (3, 128, 191)
    else if c == 244
    then some (3, 128, 143)
    else none

-- `std::str::from_utf8(..).is_ok()` where so many bytes of a character are left.
unfoldable pub is_utf8 : ℕ → ℕ → ℕ → Bytes → Bool
unfolding lead_byte
is_utf8 zero lo hi [] = true
is_utf8 (suc n) lo hi [] = false
is_utf8 (suc n) lo hi (c ∷ s) = leb lo c && leb c hi && is_utf8 n 128 191 s
is_utf8 zero lo hi (c ∷ s) = elim (lead_byte c) [
  | none ↦ false
  | some (n, lo', hi') ↦ is_utf8 n lo' hi' s
]

unfoldable pub from_utf8 : Bytes → Option Bytes
unfolding is_utf8
from_utf8 raw = if is_utf8 0 128 191 raw then some raw else none

onto_line : ℕ → List (Bytes × Bool) → List (Bytes × Bool)
onto_line c [] = (c ∷ [], false) ∷ []
onto_line c ((line, ended) ∷ more) = (c ∷ line, ended) ∷ more

-- The lines, and whether a `\n` ends them.
unfoldable pub split_lines : Bytes → List (Bytes × Bool)
unfolding onto_line
split_lines [] = []
split_lines (c ∷ s) =
    let rest = split_lines s in if c == 10 then ([], true) ∷ rest else onto_line c rest

-- A `\r` before the `\n` belongs to the ending.
unfoldable pub strip_cr : Bytes → Bytes
strip_cr [] = []
strip_cr (c ∷ []) = if c == 13 then [] else c ∷ []
strip_cr (c ∷ d ∷ s) = c ∷ strip_cr (d ∷ s)

-- `lines()`
unfoldable pub lines_of : List (Bytes × Bool) → List Bytes
unfolding strip_cr
lines_of [] = []
lines_of ((line, ended) ∷ more) = (if ended then strip_cr line else line) ∷ lines_of more

-- `strip_prefix`, the prefix first.
unfoldable pub strip_prefix : Bytes → Bytes → Option Bytes
strip_prefix [] s = some s
strip_prefix (p ∷ ps) [] = none
strip_prefix (p ∷ ps) (c ∷ s) = if p == c then strip_prefix ps s else none

-- `join("\n")`
unfoldable pub join : List Bytes → Bytes
join [] = []
join (l ∷ []) = l
join (l ∷ m ∷ ls) = l ++ 10 ∷ join (m ∷ ls)

-- The loop over the lines, from the fields so far.
unfoldable pub read_lines : Option Bytes → List Bytes → List Bytes → Option Bytes × List Bytes
unfolding strip_prefix
read_lines event_type data_lines [] = (event_type, data_lines)
read_lines event_type data_lines (line ∷ more) = elim (strip_prefix (codes "data: ") line) [
  | some value ↦ read_lines event_type (data_lines ++ value ∷ []) more
  | none ↦ elim (strip_prefix (codes "event: ") line) [
    | some value ↦ read_lines (some value) data_lines more
    | none ↦ read_lines event_type data_lines more
  ]
]

unfoldable pub event_of : Option Bytes × List Bytes → Option SseEvent
unfolding join
event_of (none, []) = none
event_of (some t, []) = some (record { event_type = some t; content = [] })
event_of (t, l ∷ ls) = some (record { event_type = t; content = join (l ∷ ls) })

unfoldable pub parse_event : Bytes → Option SseEvent
unfolding from_utf8 split_lines lines_of read_lines event_of
parse_event raw = elim (from_utf8 raw) [
  | none ↦ none
  | some text ↦ event_of (read_lines none [] (lines_of (split_lines text)))
]

unfoldable pub take : ℕ → Bytes → Bytes
take zero s = []
take (suc n) [] = []
take (suc n) (c ∷ s) = c ∷ take n s

unfoldable pub drop : ℕ → Bytes → Bytes
drop zero s = s
drop (suc n) [] = []
drop (suc n) (c ∷ s) = drop n s

-- `if let Some(event) = .. { events.push(event) }`, the later events behind.
unfoldable pub push_event : Option SseEvent → List SseEvent → List SseEvent
push_event none events = events
push_event (some event) events = event ∷ events

-- The loop of `feed`, with the length of the buffer as fuel: each delimiter has a byte at least.
unfoldable pub drain : ℕ → SseParser → SseParser × List SseEvent
unfolding find_event_delimiter take drop parse_event push_event
drain zero p = (p, [])
drain (suc fuel) p = elim (find_event_delimiter p) [
  | none ↦ (p, [])
  | some (start, end) ↦
      let (p', events) = drain fuel (record { buffer = drop end p.buffer }) in
      (p', push_event (parse_event (take start p.buffer)) events)
]

unfoldable pub feed : Bytes → SseParser → SseParser × List SseEvent
unfolding drain
feed chunk p = drain (length (p.buffer ++ chunk)) (record { buffer = p.buffer ++ chunk })

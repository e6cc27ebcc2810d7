-- ===== src/Examples/Events.antt =====
-- Frames of server-sent events, whole and in parts.
use puff.Common.{◌≡◌, refl, none, some, [], ◌∷◌, ◌++◌, codes}
use puff.Streaming.{new, feed, is_utf8}
use puff.Streaming.Chunks.{and_then, feed-append}
use puff.Streaming.Frames.{frame, feed-frame}

feed-append_example :
    feed (codes "data: hel" ++ codes "lo\n\n") new
    ≡ and_then (feed (codes "data: hel") new) (codes "lo\n\n")
feed-append_example = feed-append (codes "data: hel") (codes "lo\n\n") new

feed-frame_example :
    feed (frame (codes "h")) new ≡ (new, record { event_type = none; content = codes "h" } ∷ [])
unfolding is_utf8
feed-frame_example = feed-frame (codes "h") refl refl

-- A `\r` before the last `\n\n` stays, and one before another `\n` goes.
two_lines :
    feed (codes "event: a\r\ndata: b\r\ndata: c\r\n\r\n: x\n\n") new
    ≡ (new, record { event_type = some (codes "a"); content = codes "b\nc" } ∷ [])
unfolding feed new
two_lines = refl

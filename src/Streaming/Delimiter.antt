-- ===== src/Streaming/Delimiter.antt =====
-- The first end of an event, in a buffer and in a longer one.
use puff.Common.{
  ℕ, zero, suc, ◌+◌, ◌-◌, ◌≤◌, ◌<◌, ◌≡◌, refl, ap, true, false, some, [], ◌∷◌, ◌++◌, length, arith,
}
use puff.Streaming.{Bytes, crlf_twice, lf_twice, find_from, take, drop}

crlf_twice-length : (s : Bytes) → crlf_twice s ≡ true → 4 ≤ length s
unfolding crlf_twice
crlf_twice-length (a ∷ b ∷ c ∷ d ∷ s) h = omega arith
crlf_twice-length [] h = cc
crlf_twice-length (a ∷ []) h = cc
crlf_twice-length (a ∷ b ∷ []) h = cc
crlf_twice-length (a ∷ b ∷ c ∷ []) h = cc

lf_twice-length : (s : Bytes) → lf_twice s ≡ true → 2 ≤ length s
unfolding lf_twice
lf_twice-length (a ∷ b ∷ s) h = omega arith
lf_twice-length [] h = cc
lf_twice-length (a ∷ []) h = cc

-- The end of an event lies in the buffer, and has a byte at least.
pub find_bounds :
    (i : ℕ) (s : Bytes) (start end : ℕ)
    → find_from i s ≡ some (start, end)
    → (i ≤ start) × (start < end) × (end ≤ i + length s)
unfolding find_from
find_bounds i [] start end h = cc
find_bounds i (c ∷ s) start end h =
    ground
      (arith, crlf_twice-length (c ∷ s), lf_twice-length (c ∷ s), find_bounds (suc i) s start end)

crlf_twice-append : (s t : Bytes) → crlf_twice s ≡ true → crlf_twice (s ++ t) ≡ true
unfolding crlf_twice
crlf_twice-append (a ∷ b ∷ c ∷ d ∷ s) t h = h
crlf_twice-append [] t h = cc
crlf_twice-append (a ∷ []) t h = cc
crlf_twice-append (a ∷ b ∷ []) t h = cc
crlf_twice-append (a ∷ b ∷ c ∷ []) t h = cc

lf_twice-append :
    (s t : Bytes) → lf_twice s ≡ true → (lf_twice (s ++ t) ≡ true) × (crlf_twice (s ++ t) ≡ false)
unfolding lf_twice crlf_twice
lf_twice-append (a ∷ b ∷ s) t h = (h, short (s ++ t))
  where
    short : (u : Bytes) → crlf_twice (a ∷ b ∷ u) ≡ false
    short [] = refl
    short (c ∷ []) = refl
    short (c ∷ d ∷ u) = ground arith
lf_twice-append [] t h = cc
lf_twice-append (a ∷ []) t h = cc

-- Where an event ends later, what stands before it is no end that more bytes could complete.
before_end :
    (i c : ℕ) (s t : Bytes) (r : ℕ × ℕ)
    → find_from i s ≡ some r
    → (crlf_twice (c ∷ (s ++ t)) ≡ crlf_twice (c ∷ s))
      × (lf_twice (c ∷ (s ++ t)) ≡ lf_twice (c ∷ s))
unfolding find_from crlf_twice lf_twice
before_end i c [] t r h = cc
before_end i c (d ∷ []) t r h = cc
before_end i c (d ∷ e ∷ []) [] r h = (refl, refl)
before_end i c (d ∷ e ∷ []) (f ∷ t) r h = (ground arith, refl)
before_end i c (d ∷ e ∷ f ∷ s) t r h = (refl, refl)

-- More bytes do not move the first end of an event.
pub find_from-append :
    (i : ℕ) (s t : Bytes) (r : ℕ × ℕ) → find_from i s ≡ some r → find_from i (s ++ t) ≡ some r
unfolding find_from
find_from-append i [] t r h = cc
find_from-append i (c ∷ s) t r h = ground (
  arith,
  crlf_twice-append (c ∷ s) t,
  lf_twice-append (c ∷ s) t,
  before_end (suc i) c s t r,
  find_from-append (suc i) s t r,
)

pub take-append : (n : ℕ) (s t : Bytes) → n ≤ length s → take n (s ++ t) ≡ take n s
unfolding take
take-append zero s t h = refl
take-append (suc n) [] t h = absurd (omega arith)
take-append (suc n) (c ∷ s) t h = ap (◌∷◌ c) (take-append n s t (omega arith))

pub drop-append : (n : ℕ) (s t : Bytes) → n ≤ length s → drop n (s ++ t) ≡ drop n s ++ t
unfolding drop
drop-append zero s t h = refl
drop-append (suc n) [] t h = absurd (omega arith)
drop-append (suc n) (c ∷ s) t h = drop-append n s t (omega arith)

pub length-drop : (n : ℕ) (s : Bytes) → length (drop n s) ≡ length s - n
unfolding drop
length-drop zero s = omega arith
length-drop (suc n) [] = omega arith
length-drop (suc n) (c ∷ s) = omega (arith, length-drop n s)

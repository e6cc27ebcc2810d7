-- ===== src/Orchestration/Numerals.antt =====
-- The first word of an answer, read as a number.
use mathlib.Core.Option
use puff.Common.{
  ℕ, ◌+◌, ◌*◌, ◌-◌, ◌^◌, ◌<◌, ◌≡◌, refl, ap, ◌∙◌, true, false, some, [], ◌∷◌, sym, bind_then,
  nat_eq, All-append, ◌++◌, Text, All, arith,
}
use puff.Common.Strings.{is_whitespace, trim_start}
use puff.Orchestration.{word, first_word, digits, parse_usize}

-- A number in decimal digits; zeros may lead.
pub data Numeral : Text → ℕ → Type 0 where
  digit : (d : ℕ) → d < 10 → Numeral ((b'0' + d) ∷ []) d
  more : (s : Text) (n d : ℕ) → Numeral s n → d < 10 → Numeral (s ++ ((b'0' + d) ∷ [])) (n * 10 + d)

abbrev pub Blank : ℕ → Type 0
Blank c = is_whitespace c ≡ true

-- The text is at its end, or goes on with a blank.
abbrev pub EndsWord : Text → Type 0
EndsWord [] = Unit
EndsWord (c ∷ s) = Blank c

-- A text of digits, of which there is one at least.
abbrev IsDigit : ℕ → Type 0
IsDigit c = (d : ℕ) × (d < 10) × (c ≡ b'0' + d)

is_whitespace-digit : (c : ℕ) → IsDigit c → is_whitespace c ≡ false
unfolding is_whitespace
is_whitespace-digit c (d, l, e) = ground arith

digits_snoc :
    (s : Text) (k n d : ℕ)
    → digits k s ≡ some n
    → d < 10
    → n * 10 + d < 2 ^ 64
    → digits k (s ++ ((b'0' + d) ∷ [])) ≡ some (n * 10 + d)
unfolding digits
digits_snoc [] k n d e l b = ground arith
digits_snoc (c ∷ s) k n d e l b = ground (arith, digits_snoc s (k * 10 + (c - b'0')) n d)

digits_first :
    (s : Text) (n : ℕ) → Numeral s n → (c : ℕ) × (t : Text) × (s ≡ c ∷ t) × All IsDigit (c ∷ t)
digits_first _ _ (digit d l) = (b'0' + d, [], refl, ((d, l, refl), tt))
digits_first _ _ (more s n d m l) =
    let (c, t, e, hs) = digits_first s n m in
    let longer : All IsDigit (c ∷ (t ++ ((b'0' + d) ∷ []))) =
      (hs.0, All-append IsDigit t ((b'0' + d) ∷ []) hs.1 ((d, l, refl), tt)) in
    (c, t ++ ((b'0' + d) ∷ []), ap (λ x. x ++ ((b'0' + d) ∷ [])) e, longer)

digits-Numeral : (s : Text) (n : ℕ) → Numeral s n → n < 2 ^ 64 → digits 0 s ≡ some n
unfolding digits
digits-Numeral _ _ (digit d l) b = ground arith
digits-Numeral _ _ (more s n d m l) b = digits_snoc s 0 n d (digits-Numeral s n m (omega arith)) l b

-- No sign comes before a digit.
parse_usize-digits :
    (c : ℕ) (t : Text) → All IsDigit (c ∷ t) → parse_usize (c ∷ t) ≡ digits 0 (c ∷ t)
unfolding parse_usize
parse_usize-digits c [] h = refl
parse_usize-digits c (x ∷ t) ((d, l, e), hs) = ground (arith, nat_eq.beq_iff c b'+')

word-digits : (t after : Text) → All IsDigit t → EndsWord after → word (t ++ after) ≡ t
unfolding word
word-digits [] [] h e = refl
word-digits [] (c ∷ s) h e = rw e refl
word-digits (c ∷ t) after (h, hs) e =
    rw (is_whitespace-digit c h) (ap (◌∷◌ c) (word-digits t after hs e))

trim_start-blanks :
    (blanks : Text) (c : ℕ) (t : Text)
    → All Blank blanks
    → is_whitespace c ≡ false
    → trim_start (blanks ++ (c ∷ t)) ≡ c ∷ t
unfolding trim_start
trim_start-blanks [] c t h e = rw e refl
trim_start-blanks (b ∷ blanks) c t (h, hs) e = rw h (trim_start-blanks blanks c t hs e)

first_word-digits :
    (blanks : Text) (c : ℕ) (t after : Text)
    → All Blank blanks
    → All IsDigit (c ∷ t)
    → EndsWord after
    → first_word (blanks ++ ((c ∷ t) ++ after)) ≡ some (c ∷ t)
unfolding first_word
first_word-digits blanks c t after h hs e =
    rw
      (
        first_word,
        trim_start-blanks blanks c (t ++ after) h (is_whitespace-digit c hs.0),
        word-digits (c ∷ t) after hs e,
      )
      refl

-- Blanks before the number are skipped, and what follows its word is not read.
pub number_read :
    (blanks s after : Text) (n : ℕ)
    → All Blank blanks
    → Numeral s n
    → EndsWord after
    → n < 2 ^ 64
    → Option.bind (first_word (blanks ++ (s ++ after))) parse_usize ≡ some n
number_read blanks s after n h m e b =
    let (c, t, k, hs) = digits_first s n m in
    let read : digits 0 (c ∷ t) ≡ some n = ap (digits 0) (sym k) ∙ digits-Numeral s n m b in
    rw k (
      bind_then _ parse_usize (first_word-digits blanks c t after h hs e)
        (parse_usize-digits c t hs ∙ read))

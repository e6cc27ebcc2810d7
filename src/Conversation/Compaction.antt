-- ===== src/Conversation/Compaction.antt =====
-- What compaction keeps of a conversation.
use puff.Common.{
  ℕ, zero, suc, ◌+◌, ◌-◌, ◌≤◌, ◌<◌, ◌≡◌, refl, sym, ◌∙◌, ◌||◌, Option, none, some, List, [], ◌∷◌,
  ◌++◌, Text, codes, ltb, leb, nat_beq, length, arith, Bool-cases, inl, inr, ap, ◌⊎◌,
}
use puff.Common.Json.{Json}
use puff.Conversation.{
  Message, Conversation, len, truncated, joined, archive_of, drain, archived_into, compact,
}
use puff.Conversation.Boundary.{len-append, slice_from-find_char_boundary}

abbrev pub note : Text
note = codes "[Earlier context truncated]\n"

-- The context itself if it is short enough, or else the note and the longest end of it that is short
-- enough: with the character before it, it would be too long.
pub data Shortened (max : ℕ) (context : Text) : Text → Type 0 where
  whole : len context ≤ max → Shortened max context context
  cut :
      (before : Text) (c : ℕ) (rest : Text)
      → max < len context
      → context ≡ before ++ c ∷ rest
      → len rest ≤ max
      → max < len (c ∷ rest)
      → Shortened max context (note ++ rest)

truncated-Shortened :
    (show : Json → Text) (max : ℕ) (context : Text)
    → (s : Text) × (truncated show max context ≡ some s) × Shortened max context s
unfolding truncated
truncated-Shortened show max context = elim (Bool-cases (ltb max (len context))) [
  | inl long ↦
      let (before, c, rest, e, e', fits, more) =
        slice_from-find_char_boundary context (len context - max) (ground arith) (omega arith) in
      (
        note ++ rest,
        rw (long, e) refl,
        cut before c rest (ground arith) e' (ground arith) (ground arith),
      )
  | inr short ↦ (context, rw short refl, whole (ground arith))
]

drain-splits :
    (show : Json → Text) (n : ℕ) (ms : List Message)
    → n ≤ length ms
    → (ms ≡ (drain show n ms).0 ++ (drain show n ms).1)
      × (length (drain show n ms).1 + n ≡ length ms)
unfolding drain
drain-splits show zero ms h = (refl, omega arith)
drain-splits show (suc n) [] h = absurd (omega arith)
drain-splits show (suc n) (m ∷ ms) h =
    let (e, k) = drain-splits show n ms (omega arith) in (ap (◌∷◌ m) e, omega arith)

-- What becomes of the messages and of the archived context.
pub record Compacted (show : Json → Text) (keep max : ℕ) (c d : Conversation) : Type 0 where
  pub older : List Message
  pub split : c.messages ≡ older ++ d.messages
  pub kept : (keep ≡ 0) ⊎ (length d.messages ≤ keep)
  pub recent : (older ≡ []) ⊎ (length d.messages ≡ keep)
  pub archived :
      ((archive_of show older ≡ []) × (d.archived_context ≡ c.archived_context))
      ⊎ Shortened max (joined show c.archived_context (archive_of show older)) d.archived_context

archived_into-Compacted :
    (show : Json → Text) (keep max now : ℕ) (c : Conversation) (older rest : List Message)
    (archived : Text)
    → c.messages ≡ older ++ rest
    → length rest ≡ keep
    → archive_of show older ≡ archived
    → (d : Conversation) × (archived_into show archived max now (record c { messages = rest })
        ≡ some d)
      × Compacted show keep max c d
unfolding archived_into
archived_into-Compacted show keep max now c older rest [] e k a = (
  record c { messages = rest },
  refl,
  record {
    older = older;
    split = e;
    kept = inr (omega arith);
    recent = inr k;
    archived = inl (a, refl);
  },
)
archived_into-Compacted show keep max now c older rest (x ∷ xs) e k a =
    let (s, e', short) = truncated-Shortened show max (joined show c.archived_context (x ∷ xs)) in
    (
      record c { messages = rest; archived_context = s; updated_at = now },
      rw e' refl,
      record {
        older = older;
        split = e;
        kept = inr (omega arith);
        recent = inr k;
        archived = inr (rw a short);
      },
    )

-- `compact` never panics. Where it keeps some number of messages, those are at most the last so many;
-- the text of the older ones, if it is not empty, is put after the archived context, and if that gets
-- longer than its maximum in bytes, the longest end of it within the maximum stays, after the note.
pub compact-Compacted :
    (show : Json → Text) (keep max now : ℕ) (c : Conversation)
    → (d : Conversation) × (compact show keep max now c ≡ some d) × Compacted show keep max c d
unfolding compact
compact-Compacted show keep max now c =
    elim (Bool-cases (nat_beq keep 0 || leb (length c.messages) keep)) [
      | inl few ↦ (
        c,
        rw few refl,
        record {
          older = [];
          split = refl;
          kept = elim (Bool-cases (nat_beq keep 0)) [
            | inl none_kept ↦ inl (ground arith)
            | inr some_kept ↦ inr (ground arith)
          ];
          recent = inl refl;
          archived = inl (unfold archive_of in refl, refl);
        },
      )
      | inr many ↦
          let n = length c.messages - keep in
          let (e, k) = drain-splits show n c.messages (omega arith) in
          let (d, e', done) =
            archived_into-Compacted show keep max now c (drain show n c.messages).0
              (drain show n c.messages).1 (archive_of show (drain show n c.messages).0) e
              (ground arith) refl in
          (d, rw many e', done)
    ]

len-Shortened : (max : ℕ) (context s : Text) → Shortened max context s → len s ≤ 28 + max
len-Shortened max context _ (whole h) = omega arith
len-Shortened max context _ (cut before c rest l e h m) =
    unfold len in omega (arith, len-append note rest)

abbrev context_of : Option Conversation → Text
context_of none = []
context_of (some c) = c.archived_context

-- An archived context of at most 28 bytes more than the maximum (the note has 28) stays so.
pub compact-le_max :
    (show : Json → Text) (keep max now : ℕ) (c d : Conversation)
    → len c.archived_context ≤ 28 + max
    → compact show keep max now c ≡ some d
    → len d.archived_context ≤ 28 + max
compact-le_max show keep max now c d h e =
    let (d', e', k) = compact-Compacted show keep max now c in
    let same : d'.archived_context ≡ d.archived_context = ap context_of (sym e' ∙ e) in
    rw⁻¹ same (elim k.archived [
      | inl (empty, unchanged) ↦ rw unchanged h
      | inr short ↦ len-Shortened max _ _ short
    ])

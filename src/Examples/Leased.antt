-- ===== src/Examples/Leased.antt =====
-- A Redis in memory that keeps one value with the time it expires at, and two processes that want one agent.
use puff.Common.{
  ℕ, ◌+◌, ◌≤◌, ◌<◌, ◌≡◌, ◌≢◌, refl, ap, ◌∙◌, true, not, ◌&&◌, Option, none, some, List, [], ◌∷◌,
  Text, codes, ok, arith, ◌==◌, text_eq, text_beq, text_beq_iff, if◌then◌else◌, ==-refl, is_some,
  ltb, leb,
}
use puff.Registry.{AgentRegistry, with_backends}
use puff.Registry.Leases.{Backend}
use puff.Registry.Leases.Laws.{Laws}
use puff.Registry.Leases.Exclusive.{
  IsTaken, Within, IsFair, Act, claims, renews, releases, acted, granted_to_others,
  taken_is_exclusive,
}

-- The value at a key and a time.
abbrev Memory : Type 0
Memory = Text → ℕ → Option Text

abbrev set_until : Text → Option Text → ℕ → ℕ → Memory → Memory
set_until k v now until m =
    λ j t. if j == k && leb now t then (if ltb t until then v else none) else m j t

abbrev memory : Backend
memory = record {
  Store = Memory;
  set_nx_ex = λ k v ttl now m. (
    if is_some (m k now) then m else set_until k (some v) now (now + ttl) m,
    ok (not (is_some (m k now))),
  );
  get_value = λ k now m. ok (m k now);
  expire = λ k ttl now m. set_until k (m k now) now (now + ttl) m;
  del = λ k now m. set_until k none now now m;
}

absent : (o : Option Text) → not (is_some o) ≡ true → o ≡ none
absent none h = refl
absent (some x) h = cc

set_there :
    (k : Text) (v : Option Text) (now until t : ℕ) (m : Memory)
    → now ≤ t
    → t < until
    → set_until k v now until m k t ≡ v
set_there k v now until t m le lt = ground (arith, ==-refl k)

set_elsewhere :
    (k j : Text) (v : Option Text) (now until t : ℕ) (m : Memory)
    → j ≢ k
    → set_until k v now until m j t ≡ m j t
set_elsewhere k j v now until t m ne = ground (arith, text_beq_iff j k)

set_if :
    (k v : Text) (ttl now t : ℕ) (m : Memory) (o : Option Text)
    → not (is_some o) ≡ true
    → now ≤ t
    → t < now + ttl
    → (if is_some o then m else set_until k (some v) now (now + ttl) m) k t ≡ some v
set_if k v ttl now t m none h le lt = set_there k (some v) now (now + ttl) t m le lt
set_if k v ttl now t m (some x) h le lt = cc

kept_if :
    (k v : Text) (ttl now t : ℕ) (m : Memory) (j w : Text) (o : Option Text)
    → m k now ≡ o
    → m j now ≡ some w
    → m j t ≡ some w
    → (if is_some o then m else set_until k (some v) now (now + ttl) m) j t ≡ some w
kept_if k v ttl now t m j w none e h g =
    set_elsewhere k j (some v) now (now + ttl) t m
      (λ same. absurd (ground (arith, ap (λ x. m x now) same, e, h)))
    ∙ g
kept_if k v ttl now t m j w (some x) e h g = g

memory-Laws : Laws memory
memory-Laws = record {
  value = λ k now m. m k now;
  get_reads = λ k now m o e. cc;
  set_if_absent = λ k v ttl now m h. absent (m k now) (cc);
  set_lives = λ k v ttl now t m h le lt. set_if k v ttl now t m (m k now) (cc) le lt;
  set_keeps = λ k v ttl now m j t w le h g. kept_if k v ttl now t m j w (m k now) refl h g;
  expire_lives = λ k ttl now t m w h le lt. set_there k (m k now) now (now + ttl) t m le lt ∙ h;
  expire_keeps = λ k ttl now m j t ne. set_elsewhere k j (m k now) now (now + ttl) t m ne;
  del_keeps = λ k now m j t ne. set_elsewhere k j none now now t m ne;
}

abbrev me : AgentRegistry ℕ ℕ
me = with_backends ℕ ℕ true (codes "me")

abbrev other : AgentRegistry ℕ ℕ
other = with_backends ℕ ℕ true (codes "other")

abbrev ada : Text
ada = codes "agent/ada"

abbrev acts : List (ℕ × Act ℕ ℕ memory memory-Laws ada (codes "me"))
acts =
    (10, claims ada other)
    ∷ (15, renews ada other)
    ∷ (15, releases ada other)
    ∷ (20, claims ada me)
    ∷ (34, claims ada other)
    ∷ []

taken_is_exclusive_example :
    granted_to_others ℕ ℕ memory memory-Laws ada
      (codes "me")
      acts
      (acted ℕ ℕ memory memory-Laws ada (codes "me") 5 (claims ada me) (λ k t. none))
    ≡ 0
unfolding IsTaken Within IsFair with_backends text_beq
taken_is_exclusive_example =
    taken_is_exclusive ℕ ℕ memory memory-Laws ada (codes "me") 5 (claims ada me) (λ k t. none) acts
      (refl, refl, refl, refl)
      (
        omega arith,
        omega arith,
        refl,
        (
          omega arith,
          omega arith,
          tt,
          (
            omega arith,
            omega arith,
            refl,
            (omega arith, omega arith, refl, (omega arith, omega arith, refl, tt)),
          ),
        ),
      )

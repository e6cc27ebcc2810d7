-- ===== src/Registry/Remote/Recovery.antt =====
-- What `recover_processing_queue` does when a bridge starts.
use puff.Common.{
  ℕ, zero, suc, ◌<◌, ◌≡◌, ◌≢◌, refl, sym, ap, ◌∙◌, true, Option, some, [], ◌∷◌, ◌++◌, Text, Result,
  ok, is_ok, arith, length, length-append,
}
use mathlib.Core.List.{append_assoc}
use puff.Registry.Remote.{Backend, Loops, recover_processing_queue, unless_moved}
use puff.Registry.Remote.Laws.{Laws, Move, moved, nothing, move_unheard, move_failed}

module _ (b : Backend) (l : Laws b) (processing pending : Text) where
  -- The processing queue is put before the pending one, in its order.
  pub record Recovered (s s' : b.Store) : Type 0 where
    pub emptied : l.items processing s' ≡ []
    pub in_front : l.items pending s' ≡ l.items processing s ++ l.items pending s
    pub others : (j : Text) → j ≢ processing → j ≢ pending → l.items j s' ≡ l.items j s

  abbrev Ends : b.Store → Loops b → Type 0
  Ends s o = (s' : b.Store) × (o ≡ (s', some (ok tt))) × Recovered s s'

  round :
      (s s1 : b.Store) (r : Result Text (Option Text)) (n : ℕ)
      → Move l.items processing pending s s1 r
      → is_ok r ≡ true
      → length (l.items processing s) < suc n
      → (length (l.items processing s1) < n
          → Ends s1 (recover_processing_queue b n processing pending s1))
      → Ends s (unless_moved b s1 r (recover_processing_queue b n processing pending s1))
  round s s1 r n (moved xs x m) h le ih =
      let (s2, e, r2) =
        ih (ground (arith, ap length m.was, ap length m.left, length-append xs (x ∷ []))) in
      (
        s2,
        e,
        record {
          emptied = r2.emptied;
          in_front =
              r2.in_front
              ∙ rw (m.left, m.came, m.was) (sym (append_assoc xs (x ∷ []) (l.items pending s)));
          others = λ j p q. r2.others j p q ∙ m.others j p q;
        },
      )
  round s s1 r n (nothing z k) h le ih = (
    s1,
    refl,
    record { emptied = k processing ∙ z; in_front = k pending ∙ rw z refl; others = λ j p q. k j },
  )
  round s s1 r n (move_unheard e xs x m) h le ih = cc
  round s s1 r n (move_failed e k) h le ih = cc

  -- Where the commands of Redis keep to its manual and none fails, the loop of recover_processing_queue ends, one
  -- round after the last that finds a request: the processing queue is empty, its requests stand in their order
  -- before the pending ones, and no other queue changes.
  pub recover_processing_queue-Recovered :
      processing ≢ pending
      → ((s : b.Store) → is_ok (b.rpoplpush processing pending s).1 ≡ true)
      → (n : ℕ) (s : b.Store) → length (l.items processing s) < n
      → (s' : b.Store) × (recover_processing_queue b n processing pending s ≡ (s', some (ok tt)))
        × Recovered s s'
  unfolding recover_processing_queue
  recover_processing_queue-Recovered ne alive zero s le = absurd (omega arith)
  recover_processing_queue-Recovered ne alive (suc n) s le =
      round s _ _ n (l.rpoplpush_moves processing pending s ne) (alive s) le
        (λ le'. recover_processing_queue-Recovered ne alive n _ le')

-- ===== src/Supervision/Stopping.antt =====
-- What `stop_node` leaves: unmanaged nodes stopped, and a command for each managed one.
pub mod Writes
use mathlib.Core.Option
use mathlib.Core.List.{append-nil, append_assoc}
use puff.Common.{
  ℕ, ◌≡◌, ◌↔◌, refl, sym, ap, ◌∙◌, Bool, true, false, ◌&&◌, Option, none, some, List, [], ◌∷◌, ◌++◌,
  reverse, Text, if◌then◌else◌, ◌==◌, ==-refl, text_eq, arith, contains, contains-reverse, Distinct,
  Option-cases, inl, inr, Result, ok, err,
}
use puff.Common.Table
use puff.Common.Table.{Table, get-update}
use puff.Supervision.Node.{
  SupervisorNodeState, stopping, stopped, SupervisorNodeSnapshot, SupervisorCommand, stop, Runtime,
  root_node_id, Error,
}
use puff.Supervision.Core.{node_snapshot, command_sender, transition_node, transition, emit_event}
use puff.Supervision.Control.{send, stop_now, stop_each, stop_node, stop_collected, stop_result}
use puff.Supervision.Reads.{Status, status, with_state, nodes-transition_node}
use puff.Supervision.Invariant.{Inv}
use puff.Supervision.Descendants.{collect_descendants_exact}
use puff.Supervision.Descendants.Rounds.{Descendant, Ordered}
use Writes.{
  status-stop_now, command_sender-stop_now, sent-stop_now, command_sender-send, status-send,
  sent-send,
}

-- The state of a node after the loop: stopped, if the loop met it and no task manages it.
abbrev pub stopped_if : Bool → Option Status → Option Status
stopped_if true s = with_state stopped s
stopped_if false s = s

abbrev pub unmanaged : Option ℕ → Bool
unmanaged none = true
unmanaged (some sender) = false

abbrev command_for : Option ℕ → List (ℕ × SupervisorCommand)
command_for none = []
command_for (some sender) = (sender, stop) ∷ []

-- The commands for those that a task manages, in the order of the list.
abbrev pub stops_for : Runtime → List Text → List (ℕ × SupervisorCommand)
stops_for rt [] = []
stops_for rt (x ∷ xs) = command_for (command_sender rt x) ++ stops_for rt xs

stops_for_same :
    (rt rt' : Runtime) (xs : List Text)
    → ((x : Text) → command_sender rt x ≡ command_sender rt' x)
    → stops_for rt xs ≡ stops_for rt' xs
stops_for_same rt rt' [] h = refl
stops_for_same rt rt' (x ∷ xs) h = rw (h x, stops_for_same rt rt' xs h) refl

stop_result_ok :
    (id : Text) (r : Result Error (Unit {0}) × Runtime) (snapshot : SupervisorNodeSnapshot)
    → r.0 ≡ ok tt
    → node_snapshot r.1 id ≡ some snapshot
    → stop_result id r ≡ (ok snapshot, r.1)
unfolding stop_result
stop_result_ok id (ok _, rt) snapshot h there = rw there refl
stop_result_ok id (err e, rt) snapshot h there = cc

module _ (delivers : ℕ → Bool) where
  -- The receiver of the node's commands is there, if it has one.
  abbrev pub Reachable : Runtime → Text → Type 0
  Reachable rt x = (sender : ℕ) → command_sender rt x ≡ some sender → delivers sender ≡ true

  pub record Stopped (ids : List Text) (before after : Runtime) : Type 0 where
    pub statuses :
        (x : Text)
        → status after x
          ≡ stopped_if (contains ids x && unmanaged (command_sender before x)) (status before x)
    pub commands : after.sent ≡ before.sent ++ stops_for before ids

  stop_each-Stopped :
      (ids : List Text) (now : ℕ) (rt : Runtime)
      → ((x : Text) → contains ids x ≡ true → Reachable rt x)
      → ((stop_each delivers ids now rt).0 ≡ ok tt)
        × Stopped ids rt (stop_each delivers ids now rt).1
  unfolding stop_each
  stop_each-Stopped [] now rt h =
      (refl, record { statuses = λ x. refl; commands = sym (append-nil rt.sent) })
  stop_each-Stopped (d ∷ ids) now rt h = elim (Option-cases (command_sender rt d)) [
    | inl e ↦
        let rt1 = stop_now d now rt in
        let (done, s) = stop_each-Stopped ids now rt1 (λ x m sender k.
          h x (ground arith) sender (sym (command_sender-stop_now d now rt x) ∙ k)) in
        rw (e, stop_each)
          (
            done,
            record {
              statuses = λ x. ground (
                arith,
                s.statuses x,
                status-stop_now d now rt x,
                command_sender-stop_now d now rt x,
                text_eq.beq_iff d x,
              );
              commands =
                  s.commands
                  ∙ rw
                      (
                        stops_for_same rt1 rt ids (command_sender-stop_now d now rt),
                        sent-stop_now d now rt,
                        e,
                      )
                      refl;
            },
          )
    | inr (sender, e) ↦
        let (done, s) = stop_each-Stopped ids now (send sender stop rt) (λ x m.
          λ sender' k. h x (ground arith) sender' (sym (command_sender-send sender rt x) ∙ k)) in
        rw (e, stop_each)
          (rw (h d (ground (arith, ==-refl d)) sender e) (
            done,
            record {
              statuses = λ x. ground (
                arith,
                s.statuses x,
                status-send sender rt x,
                command_sender-send sender rt x,
                text_eq.beq_iff d x,
              );
              commands =
                  s.commands
                  ∙ rw
                      (
                        stops_for_same (send sender stop rt) rt ids (command_sender-send sender rt),
                        sent-send sender rt,
                        e,
                      )
                      (append_assoc rt.sent ((sender, stop) ∷ []) (stops_for rt ids));
            },
          ))
  ]

  there_after :
      (ids : List Text) (rt rt' : Runtime) (id : Text)
      → Stopped ids rt rt'
      → Table.has id rt.nodes ≡ true
      → (snapshot : SupervisorNodeSnapshot) × (node_snapshot rt' id ≡ some snapshot)
  unfolding node_snapshot
  there_after ids rt rt' id s h = elim (Option-cases (Table.get id rt'.nodes)) [
    | inr (r, e) ↦ (r.snapshot, rw e refl)
    | inl e ↦ absurd (ground (arith, s.statuses id, e, h))
  ]

  -- What a stop of a node does.
  abbrev pub StopsBelow : Runtime → Text → ℕ → Type 0
  StopsBelow rt id now =
      (snapshot : SupervisorNodeSnapshot) × (rt' : Runtime) × (ids : List Text) × (stop_node
          delivers id now rt
        ≡ some (ok snapshot, rt'))
      × (node_snapshot rt' id ≡ some snapshot)
      × Distinct ids
      × ((x : Text) → (contains ids x ≡ true) ↔ Descendant rt.nodes id x)
      × Ordered rt.nodes id [] ids
      × Stopped (reverse ids) rt rt'

  -- In a runtime with the invariant, `stop_node` of a node other than the root, all of whose managed
  -- descendants can be reached, returns its snapshot as it is then. There is a list of exactly the node and those below
  -- it, each once, parents first; in its reverse order each node that a task manages has been sent Stop,
  -- the others are Stopped, and no other node's state or restart count has changed.
  pub stop_node_stops :
      (rt : Runtime) (id : Text) (now : ℕ)
      → Inv rt
      → Table.has id rt.nodes ≡ true
      → (id == root_node_id) ≡ false
      → ((x : Text) → Descendant rt.nodes id x → Reachable rt x)
      → StopsBelow rt id now
  unfolding stop_node stop_collected
  stop_node_stops rt id now v h other reach =
      let (ids, e, once, exact, ordered) = collect_descendants_exact rt id v h in
      let (done, s) =
        stop_each-Stopped (reverse ids) now rt
          (λ x m. reach x ((exact x).0 (sym (contains-reverse ids x) ∙ m))) in
      let rt' = (stop_each delivers (reverse ids) now rt).1 in
      let (snapshot, there) = there_after (reverse ids) rt rt' id s h in
      let stops : stop_node delivers id now rt ≡ some (ok snapshot, rt') =
        rw (other, e)
          (ap some
            (stop_result_ok id (stop_each delivers (reverse ids) now rt) snapshot done there)) in
      (snapshot, rt', ids, stops, there, once, exact, ordered, s)

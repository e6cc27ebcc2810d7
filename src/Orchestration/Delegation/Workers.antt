-- ===== src/Orchestration/Delegation/Workers.antt =====
-- Which worker a call of the supervisor's `delegate` tool runs.
use mathlib.Core.Option
use puff.Common.{
  Gives, ◌≡◌, ◌≢◌, refl, ap, ◌⊎◌, Option, none, some, List, [], ◌∷◌, ◌++◌, Text, codes, map, All,
  true, false, Bool, ◌==◌, text_eq, text_beq_iff, inl, inr, Bool-cases,
}
use puff.Agents.{ToolCall, Services}
use puff.Tools.Execute.{str_argument, or_empty}
use puff.Turns.{World}
use puff.Turns.Limits.{turn_ends}
use puff.Orchestration.Delegation.{
  Worker, Run, name_of, run_worker, delegate_to, delegate, not_found, or_not_found, serve_call,
}

differ : {b : Bool} → b ≡ false → b ≡ true → ⊥
differ h h' = cc

run_worker_ends :
    (sv : Services) (x : Worker sv) (task : Text) (w : World sv)
    → (end : Text × Worker sv × World sv) × (run_worker sv x task w ≡ some end)
unfolding run_worker
run_worker_ends sv x task w = let (end, e, h) = turn_ends sv x.agent _ in (_, ap (Option.map _) e)

module _ (sv : Services) (name task : Text) where
  abbrev pub OtherNames : List (Worker sv) → Type 0
  OtherNames workers = All (λ x. name_of sv x ≢ name) workers

  -- The workers, split at the first one with the name, and what its turn comes to.
  pub record First (workers : List (Worker sv)) (w : World sv) : Type 0 where
    pub before : List (Worker sv)
    pub worker : Worker sv
    pub after : List (Worker sv)
    pub split : workers ≡ before ++ worker ∷ after
    pub others : OtherNames before
    pub named : name_of sv worker ≡ name
    pub text : Text
    pub worker_then : Worker sv
    pub world : World sv
    pub runs : run_worker sv worker task w ≡ some (text, worker_then, world)

  abbrev Served : List (Worker sv) → World sv → Option Text × List (Worker sv) × World sv → Type 0
  Served xs w o =
      (OtherNames xs × (o ≡ (none, xs, w)))
      ⊎ ((f : First xs w) × (o ≡ (some f.text, f.before ++ f.worker_then ∷ f.after, f.world)))

  passed_by :
      (x : Worker sv) (xs : List (Worker sv)) (w : World sv)
      (o : Option Text × List (Worker sv) × World sv)
      → name_of sv x ≢ name
      → Served xs w o
      → Served (x ∷ xs) w (o.0, x ∷ o.1, o.2)
  passed_by x xs w o ne (inl (a, e)) = inl ((ne, a), ap (λ p. (p.0, x ∷ p.1, p.2)) e)
  passed_by x xs w o ne (inr (f, e)) = inr (
    record {
      before = x ∷ f.before;
      worker = f.worker;
      after = f.after;
      split = ap (λ l. x ∷ l) f.split;
      others = (ne, f.others);
      named = f.named;
      text = f.text;
      worker_then = f.worker_then;
      world = f.world;
      runs = f.runs;
    },
    ap (λ p. (p.0, x ∷ p.1, p.2)) e,
  )

  delegate_to-Served :
      (xs : List (Worker sv)) (w : World sv) → Gives (Served xs w) (delegate_to sv name task xs w)
  unfolding delegate_to
  delegate_to-Served [] w = ((none, [], w), refl, inl (tt, refl))
  delegate_to-Served (x ∷ xs) w = elim (Bool-cases (name_of sv x == name)) [
    | inl same ↦
        let ((text, x', w'), e) = run_worker_ends sv x task w in
        (
          (some text, x' ∷ xs, w'),
          rw (same, e) refl,
          inr (
            record {
              before = [];
              worker = x;
              after = xs;
              split = refl;
              others = tt;
              named = (text_beq_iff (name_of sv x) name).0 same;
              text = text;
              worker_then = x';
              world = w';
              runs = e;
            },
            refl,
          ),
        )
    | inr other ↦
        let (o, e, h) = delegate_to-Served xs w in
        (
          (o.0, x ∷ o.1, o.2),
          rw (other, e) refl,
          passed_by x xs w o (λ e'. differ other ((text_beq_iff (name_of sv x) name).1 e')) h,
        )
  ]

  -- What a call of `delegate` comes to: no worker has the name, and none runs, or the first one that has it
  -- runs a turn on the task.
  abbrev pub Delegated : Run sv → Text × Run sv → Type 0
  Delegated r end =
      (OtherNames r.workers × (end ≡ (not_found sv name (map (name_of sv) r.workers), r)))
      ⊎ ((f : First r.workers r.world) × (end ≡ (
        f.text,
        record r { workers = f.before ++ f.worker_then ∷ f.after; world = f.world },
      )))

  delegated :
      (r : Run sv) (o : Option Text × List (Worker sv) × World sv)
      → Served r.workers r.world o
      → Delegated r (
        or_not_found sv name (map (name_of sv) r.workers) o.0,
        record r { workers = o.1; world = o.2 },
      )
  unfolding or_not_found
  delegated r o (inl (a, e)) = inl (a, rw e refl)
  delegated r o (inr (f, e)) = inr (f, rw e refl)

  -- A call of `delegate` ends without a panic. The first of all workers with the name that it gives, seen by the
  -- supervisor or not, runs a turn on the task, the text is what that turn comes to, and the other workers stay as they are; where no worker has the
  -- name, the text says so and nothing runs.
  pub serve_call-Delegated :
      (call : ToolCall) (r : Run sv)
      → call.name ≡ codes "delegate"
      → or_empty (str_argument call.arguments (codes "worker")) ≡ name
      → or_empty (str_argument call.arguments (codes "task")) ≡ task
      → (end : Text × Run sv) × (serve_call sv call r ≡ some end) × Delegated r end
  unfolding serve_call delegate
  serve_call-Delegated call r d n t =
      let (o, e, h) = delegate_to-Served r.workers r.world in
      (
        (
          or_not_found sv name (map (name_of sv) r.workers) o.0,
          record r { workers = o.1; world = o.2 },
        ),
        rw ((text_beq_iff call.name (codes "delegate")).1 d, n, t, e) refl,
        delegated r o h,
      )

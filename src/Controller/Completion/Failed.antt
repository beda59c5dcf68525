-- ===== src/Controller/Completion/Failed.antt =====
-- When a run fails (internal/controller/reconciler.go, internal/store/projection.go).
use mathlib.Core.List.{Memᴰ}
use proceed.Base.{
  ℕ, ◌<◌, String, true, false, ◌&&◌, none, some, List, [], ◌∷◌, ◌≡◌, ◌≢◌, ◌∙◌, ap, subst, inl, inr,
  refl, ◌↔◌, ok, str_eq, str_eq_iff, str_eq_refl, count_where, Bool-cases, Option-cases, arith,
}
use proceed.Store.Types.{Db, EventType, RunNode, RunStatus, NodeStatus}
use proceed.Store.Payload.{Codec}
use proceed.Store.Runs.{find_run, terminal_run_status}
use proceed.Controller.Completion.{
  is_failed, tally, terminal_event, is_terminal_type, already_terminal, append_verdict,
  try_complete_run,
}
use proceed.Controller.Completion.Once.{HasStatus, try_complete_run-Decided, terminal_event-ends}

-- a node of the run has failed
abbrev pub HasFailedNode : String → Db → Type 0
HasFailedNode run_id db =
    (n : RunNode) × Memᴰ n db.nodes × (n.run_id ≡ run_id) × (n.status ≡ NodeStatus.failed)

is_failed-status : (s : NodeStatus) → is_failed s ≡ true → s ≡ NodeStatus.failed
is_failed-status s h = ground arith

failed_there :
    (run_id : String) (ns : List RunNode)
    → 0 < count_where (λ n. str_eq n.run_id run_id && is_failed n.status) ns
    → (n : RunNode) × Memᴰ n ns × (n.run_id ≡ run_id) × (n.status ≡ NodeStatus.failed)
unfolding count_where
failed_there run_id [] h = absurd (omega arith)
failed_there run_id (n ∷ ns) h = elim (Bool-cases (str_eq n.run_id run_id && is_failed n.status)) [
  | inl hit ↦ (
    n,
    Memᴰ.head refl,
    (str_eq_iff n.run_id run_id).0 (ground (arith, hit)),
    is_failed-status n.status (ground (arith, hit)),
  )
  | inr miss ↦
      let (m, listed, own, failed) = failed_there run_id ns (ground (arith, h, miss)) in
      (m, Memᴰ.tail listed, own, failed)
]

failed_counted :
    (n : RunNode) (ns : List RunNode)
    → Memᴰ n ns
    → n.status ≡ NodeStatus.failed
    → 0 < count_where (λ m. str_eq m.run_id n.run_id && is_failed m.status) ns
unfolding count_where
failed_counted n [] listed failed = elim listed [ ]
failed_counted n (m ∷ ms) (Memᴰ.head same) failed =
    ground (arith, same, failed, str_eq_refl m.run_id)
failed_counted n (m ∷ ms) (Memᴰ.tail later) failed =
    ground (arith, failed_counted n ms later failed)

-- a verdict that fails the run
fails-eq :
    (t : EventType)
    → is_terminal_type t ≡ true
    → terminal_run_status t ≡ RunStatus.failed
    → t ≡ EventType.run_failed
fails-eq t ends fails = ground arith

failed_verdict :
    (db : Db) (run_id version : String)
    → (0 < tally is_failed db run_id)
      ↔ (terminal_event db run_id version ≡ some EventType.run_failed)
unfolding terminal_event
failed_verdict db run_id version = (λ h. ground arith, λ h. ground arith)

HasStatus-unique :
    (s s' : RunStatus) (run_id : String) (d : Db)
    → HasStatus s run_id d
    → HasStatus s' run_id d
    → s ≡ s'
HasStatus-unique s s' run_id d (r, found, is) (r', found', is') =
    ground (arith, found, found', is, is')

-- without a verdict, nothing changes
no_verdict :
    (c : Codec) (now : ℕ) (id key owner : String) (db d : Db) (run_id version : String)
    → HasStatus RunStatus.running run_id db
    → terminal_event db run_id version ≡ none
    → try_complete_run c now id key owner db run_id version ≡ ok d
    → d ≡ db
unfolding try_complete_run append_verdict find_run
no_verdict c now id key owner db d run_id version (r, found, runs) none_yet h =
    ground (arith, found, runs, none_yet, h)

runs≢failed : RunStatus.running ≢ RunStatus.failed
runs≢failed h = cc h

-- If tryCompleteRun succeeds on a run that is running and has no verdict, the run's row has the
-- status failed afterwards exactly if a node of the run had the status failed.
pub try_complete_run_fails :
    (c : Codec) (now : ℕ) (id key owner : String) (db d : Db) (run_id version : String)
    → HasStatus RunStatus.running run_id db
    → already_terminal db run_id ≡ false
    → try_complete_run c now id key owner db run_id version ≡ ok d
    → HasStatus RunStatus.failed run_id d ↔ HasFailedNode run_id db
try_complete_run_fails c now id key owner db d run_id version running first h = (
  λ fails. elim (Option-cases (terminal_event db run_id version)) [
    | inl none_yet ↦
        let same = no_verdict c now id key owner db d run_id version running none_yet h in
        absurd (
          runs≢failed (
            HasStatus-unique RunStatus.running RunStatus.failed run_id db running
              (subst (HasStatus RunStatus.failed run_id) same fails)))
    | inr (t, verdict) ↦
        let decided =
          try_complete_run-Decided c now id key owner db d run_id version t running first verdict
            h in
        let is_failing =
          fails-eq t (terminal_event-ends db run_id version t verdict) (
            HasStatus-unique (terminal_run_status t) RunStatus.failed run_id d decided.row fails) in
        failed_there run_id db.nodes
          ((failed_verdict db run_id version).1 (verdict ∙ ap some is_failing))
  ],
  λ (n, listed, own, failed).
      let verdict : terminal_event db run_id version ≡ some EventType.run_failed =
        (failed_verdict db run_id version).0
          (subst (λ r. 0 < tally is_failed db r) own (failed_counted n db.nodes listed failed)) in
      (try_complete_run-Decided c now id key owner db d run_id version EventType.run_failed running
        first verdict h).row,
)

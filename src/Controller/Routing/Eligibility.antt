-- ===== src/Controller/Routing/Eligibility.antt =====
-- The decisions that are recorded with the nodes that a node makes eligible:
-- recordEligibilityDecisions (internal/controller/decisions.go).
use Prim.Native.String.{◌++◌ as str_append}
use proceed.Base.{
  String, Bool, true, false, not, ◌&&◌, ◌||◌, Option, none, some, List, [], ◌∷◌, ◌++◌, Result, ok,
  ◌>>=◌, ◌==◌, ltb, str_eq, if◌then◌else◌, any_where, select_where, length,
}
use proceed.Store.Types.{Db, Event, EventType, GraphEdge, RunNode, NodeStatus}
use proceed.Store.Payload.{CausalLinkPayload}
use proceed.Controller.Readiness.{row_of, row_is_done}
use proceed.Controller.Writer.{Writer, Tx, Printer, Snapshot}
use proceed.Controller.Routing.Decisions.{edge_ids, node_artifact_refs, append_decision_event}
use proceed.Controller.Routing.{by_id, is_release, distinct_targets}

-- the edges that hold a node back
unfoldable pub dependencies : Db → String → String → List GraphEdge
unfolding by_id
dependencies db version node_key = by_id (
    select_where
      (λ e. str_eq e.graph_version_id version && str_eq e.to_node_key node_key && is_release e)
      db.graph_edges)

-- the loop over the dependencies ends without a return
unfoldable pub all_done : Db → String → List GraphEdge → Bool
all_done db run_id [] = true
all_done db run_id (e ∷ es) =
    row_is_done (row_of db run_id e.from_node_key) && all_done db run_id es

-- whether a decision about the node is recorded
unfoldable pub is_decided : Db → String → String → Bool
is_decided db run_id node_key = elim (row_of db run_id node_key) [
  | none ↦ false
  | some n ↦ any_where (λ d. str_eq d.run_node_id n.id) db.decisions
]

-- nodeProducedEvidence
unfoldable pub node_produced_evidence : Db → String → String → Bool
node_produced_evidence db run_id node_key =
    any_where (λ a. str_eq a.run_id run_id && str_eq a.produced_by_node_key node_key) db.artifacts
    || any_where
        (λ e.
          str_eq e.run_id run_id
          && any_where (λ a. str_eq a.id e.artifact_id && str_eq a.produced_by_node_key node_key)
              db.artifacts)
        db.evaluations

-- type IN ('node_finished', 'node_skipped')
abbrev pub is_finish_type : EventType → Bool
is_finish_type EventType.node_finished = true
is_finish_type EventType.node_skipped = true
is_finish_type _ = false

-- ORDER BY sequence DESC LIMIT 1
abbrev pub later_of : Event → Option Event → Event
later_of e none = e
later_of e (some f) = if ltb e.sequence f.sequence then f else e

unfoldable pub latest_of : (Event → Bool) → List Event → Option Event
latest_of p [] = none
latest_of p (e ∷ es) = let rest = latest_of p es in if p e then some (later_of e rest) else rest

-- latestNodeFinishedEvent
unfoldable pub latest_node_finished_event : Printer → Db → String → String → String
unfolding latest_of
latest_node_finished_event print db run_id node_key =
    elim (latest_of
      (λ e.
        str_eq e.run_id run_id
        && is_finish_type e.type
        && elim (print.node_key_of e.payload) [ none ↦ false | some k ↦ str_eq k node_key ])
      db.events) [ none ↦ str_append "node:" node_key | some e ↦ e.event_id ]

abbrev is_succeeded : Option RunNode → Bool
is_succeeded none = false
is_succeeded (some n) = elim n.status [ NodeStatus.succeeded ↦ true | _ ↦ false ]

-- the switch of recordOneEligibility
unfoldable pub release_attribution : Db → String → Bool → GraphEdge → String
release_attribution db run_id sole e =
    if not (is_succeeded (row_of db run_id e.from_node_key))
    then "unknown"
    else if not (node_produced_evidence db run_id e.from_node_key)
    then "unknown"
    else if sole
    then "necessary"
    else "contributing"

-- the links and the references of the loop over the dependencies
unfoldable pub release_links : Writer → Db → String → Bool → List GraphEdge → List CausalLinkPayload
unfolding release_attribution latest_node_finished_event
release_links w db node_key sole [] = []
release_links w db node_key sole (e ∷ es) =
    record {
      target_node_key = node_key;
      attribution = release_attribution db w.run_id sole e;
      source_kind = "event";
      source_id = latest_node_finished_event w.print db w.run_id e.from_node_key;
      citation_type = "";
      citation_id = "";
      group_key = if sole then "" else str_append "conj:" node_key;
    }
    ∷ release_links w db node_key sole es

unfoldable pub release_inputs : Db → String → List GraphEdge → List String
unfolding node_artifact_refs
release_inputs db run_id [] = []
release_inputs db run_id (e ∷ es) =
    node_artifact_refs db run_id e.from_node_key ++ release_inputs db run_id es

-- recordOneEligibility
unfoldable pub record_one_eligibility : Writer → Tx → String → String → String → Result Tx
record_one_eligibility w t version digest node_key =
    let deps = dependencies t.db version node_key in
    let sole = length deps == 1 in
    if length deps == 0 || not (all_done t.db w.run_id deps) || is_decided t.db w.run_id node_key
    then ok t
    else append_decision_event w t
        (record {
          node_key = node_key;
          candidates = edge_ids deps;
          inputs = release_inputs t.db w.run_id deps;
          digest = digest;
        })
        "" ""
        (Snapshot.eligibility (length deps) (
          if sole
          then "sole required dependency; without it the node would not be eligible"
          else "conjunctive group; no single member is individually necessary"))
        (release_links w t.db node_key sole deps)

-- the loop of recordEligibilityDecisions
unfoldable pub record_eligibilities : Writer → Tx → String → String → List String → Result Tx
record_eligibilities w t version digest [] = ok t
record_eligibilities w t version digest (key ∷ keys) =
    record_one_eligibility w t version digest key >>= λ t'.
    record_eligibilities w t' version digest keys

-- recordEligibilityDecisions
unfoldable pub record_eligibility_decisions :
    Writer → Tx → String → String → List GraphEdge → Result Tx
unfolding distinct_targets
record_eligibility_decisions w t version digest edges =
    record_eligibilities w t version digest (distinct_targets is_release [] edges)

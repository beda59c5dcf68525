-- ===== src/Controller/Routing/Decisions.antt =====
-- The decisions that are recorded with a route: recordRoutingDecision
-- (internal/controller/decisions.go). A list
-- that is nil in the code is empty here, as appendDecisionEvent makes it.
use Prim.Native.String.{◌++◌ as str_append}
use proceed.Base.{
  String, Bool, not, ◌&&◌, List, [], ◌∷◌, Result, ok, ◌>>=◌, ◌==◌, str_eq, str_le, one_of, is_empty,
  if◌then◌else◌, select_where, length,
}
use proceed.Store.Types.{Db, EventType, GraphEdge, Artifact}
use proceed.Store.Payload.{CausalLinkPayload}
use proceed.Controller.Writer.{Writer, Tx, Snapshot, next_id, note}
use proceed.Controller.Routing.{
  is_route, is_chosen, condition_of, targets, distinct_targets, only_incoming_routes,
}

-- SELECT id … ORDER BY id, and the prefix "artifact:"
unfoldable pub insert_text : String → List String → List String
insert_text s [] = s ∷ []
insert_text s (t ∷ ts) = if str_le s t then s ∷ t ∷ ts else t ∷ insert_text s ts

unfoldable pub artifact_ids : String → String → List Artifact → List String
unfolding insert_text
artifact_ids run_id node_key [] = []
artifact_ids run_id node_key (a ∷ rest) =
    let ids = artifact_ids run_id node_key rest in
    if str_eq a.run_id run_id && str_eq a.produced_by_node_key node_key
    then insert_text a.id ids
    else ids

abbrev pub cite : List String → List String
cite [] = []
cite (id ∷ ids) = str_append "artifact:" id ∷ cite ids

-- nodeArtifactRefs
unfoldable pub node_artifact_refs : Db → String → String → List String
unfolding artifact_ids
node_artifact_refs db run_id node_key = cite (artifact_ids run_id node_key db.artifacts)

-- edgeIDs and dependencyEdgeIDs
abbrev pub edge_ids : List GraphEdge → List String
edge_ids [] = []
edge_ids (e ∷ es) = e.id ∷ edge_ids es

abbrev pub blocked_by : String → List String → List CausalLinkPayload
blocked_by source [] = []
blocked_by source (key ∷ keys) =
    record {
      target_node_key = key;
      attribution = "blocked_by";
      source_kind = "decision";
      source_id = source;
      citation_type = "";
      citation_id = "";
      group_key = "";
    }
    ∷ blocked_by source keys

-- what the decisions of one call have in common
pub record Ruling : Type 0 where
  pub node_key : String
  pub candidates : List String
  pub inputs : List String
  pub digest : String

-- appendDecisionEvent
unfoldable pub append_decision_event :
    Writer → Tx → Ruling → String → String → Snapshot → List CausalLinkPayload → Result Tx
append_decision_event w t r edge_id rejection snapshot links =
    note w t EventType.decision_recorded (
      w.print.decision (record {
        node_key = r.node_key;
        kind = "routing";
        candidate_edges = r.candidates;
        selected_edge_id = edge_id;
        rejection = rejection;
        predicate_snapshot = w.print.snapshot snapshot;
        input_references = w.codec.marshal_edges r.inputs;
        policy_version = r.digest;
        causal_links = links;
      }))

abbrev pub attribution_of : Bool → List String → String
attribution_of conditional inputs =
    if conditional && length inputs == 1 then "necessary" else "contributing"

abbrev pub basis_of : Bool → List String → String
basis_of conditional inputs =
    if conditional && length inputs == 1
    then "recorded route value matched the edge condition; the single cited input is the counterfactual basis"
    else if conditional
    then "route value matched the edge condition; no single cited input establishes counterfactual necessity"
    else "unconditional edge; selection did not depend on the route value"

-- the loop over the selected edges; the first decision has the links to the blocked targets
unfoldable pub decide_edges :
    Writer → Tx → Ruling → String → List String → List GraphEdge → Result Tx
decide_edges w t r route blocked [] = ok t
decide_edges w t r route blocked (e ∷ es) =
    append_decision_event w t r e.id ""
      (Snapshot.matched route (basis_of (not (is_empty (condition_of e))) r.inputs))
      (record {
        target_node_key = e.to_node_key;
        attribution = attribution_of (not (is_empty (condition_of e))) r.inputs;
        source_kind = "decision";
        source_id = next_id w t;
        citation_type = "";
        citation_id = "";
        group_key = "";
      }
        ∷ blocked_by (next_id w t) blocked)
    >>= λ t'. decide_edges w t' r route [] es

-- the candidates that no selected edge is or leads to, and that nothing else leads to
unfoldable pub blocked_targets :
    Db → String → String → List GraphEdge → List GraphEdge → List String
unfolding distinct_targets only_incoming_routes
blocked_targets db version node_key selected candidates =
    distinct_targets
      (λ e.
        not (one_of e.id (edge_ids selected))
        && not (one_of e.to_node_key (targets selected))
        && only_incoming_routes db version e.to_node_key node_key)
      [] candidates

-- recordRoutingDecision
unfoldable pub record_routing_decision :
    Writer → Tx → String → String → String → String → Bool → List GraphEdge → Result Tx
record_routing_decision w t version node_key digest route route_known edges =
    let candidates = select_where is_route edges in
    let selected = select_where (is_chosen route_known route) edges in
    let blocked = blocked_targets t.db version node_key selected candidates in
    let ruling : Ruling = record {
      node_key = node_key;
      candidates = edge_ids candidates;
      inputs = node_artifact_refs t.db w.run_id node_key;
      digest = digest;
    } in
    if length candidates == 0
    then ok t
    else if length selected == 0
    then append_decision_event w t ruling "" "no candidate condition matched the recorded route"
        (Snapshot.unmatched route) (blocked_by (next_id w t) blocked)
    else decide_edges w t ruling route blocked selected

-- ===== src/Tests/Schema.antt =====
-- src/agenttrace/schema.py on the sample traces.
use atcr_agent_trace_collect.Prelude.{String, ◌≡◌, refl, ◌⊎◌, true, false, ok, err, ◌>>=◌}
use atcr_agent_trace_collect.Prelude.Names.{contains, remove, distinct}
use atcr_agent_trace_collect.Json.{lookup, get, equals_number}
use atcr_agent_trace_collect.Schema.Types.{dependency_cycle, unknown_dependency}
use atcr_agent_trace_collect.Schema.Fields.{
  object, string, optional_string, check_source, check_context, check_artifact, check_artifacts,
  check_header,
}
use atcr_agent_trace_collect.Schema.Nodes.{ids, check_node, check_nodes}
use atcr_agent_trace_collect.Schema.Graph.{depends_on, check_dependencies, visit, search_nodes}
use atcr_agent_trace_collect.Schema.Graph.Paths.{Edge, IsAcyclic}
use atcr_agent_trace_collect.Schema.Graph.Cycles.{Known}
use atcr_agent_trace_collect.Schema.Validate.{check_graph, validate_trace}
use atcr_agent_trace_collect.Schema.Validate.Kept.{AreNodesOf}
use atcr_agent_trace_collect.Schema.Validate.Structure.{
  IsValid, check_graph-decides, validate_trace-IsValid,
}
use atcr_agent_trace_collect.Schema.Validate.Errors.{IsRaised, validate_trace-IsRaised}
use atcr_agent_trace_collect.Tests.Traces.{sample, sample_nodes, cyclic}

-- What a run of the validator computes with.
validator : Unit {0}
unfolding validate_trace check_header check_source check_context check_artifacts check_artifact
    object string optional_string check_nodes check_node check_graph check_dependencies search_nodes
    visit depends_on contains remove distinct lookup get equals_number ◌>>=◌
validator = tt

pub validate_trace-sample : validate_trace sample ≡ ok sample_nodes
unfolding validator
validate_trace-sample = refl

validate_trace-cyclic : validate_trace cyclic ≡ err dependency_cycle
unfolding validator
validate_trace-cyclic = refl

pub sample-IsValid : IsValid sample_nodes
sample-IsValid = (validate_trace-IsValid sample sample_nodes validate_trace-sample).0

validate_trace-IsValid_example : IsValid sample_nodes × AreNodesOf sample sample_nodes
validate_trace-IsValid_example = validate_trace-IsValid sample sample_nodes validate_trace-sample

validate_trace-IsRaised_example : IsRaised dependency_cycle
validate_trace-IsRaised_example =
    validate_trace-IsRaised cyclic dependency_cycle validate_trace-cyclic

distinct-ids : distinct (ids sample_nodes) ≡ true
unfolding distinct contains
distinct-ids = refl

check_graph-decides_example :
    ((check_graph sample_nodes ≡ ok sample_nodes) × Known sample_nodes × IsAcyclic sample_nodes)
    ⊎ ((a b : String) × (check_graph sample_nodes ≡ err (unknown_dependency b a))
        × Edge sample_nodes a b
        × (contains b (ids sample_nodes) ≡ false))
    ⊎ ((check_graph sample_nodes ≡ err dependency_cycle)
        × Known sample_nodes
        × (¬ IsAcyclic sample_nodes))
check_graph-decides_example = check_graph-decides sample_nodes distinct-ids

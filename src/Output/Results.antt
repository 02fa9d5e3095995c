-- ===== src/Output/Results.antt =====
-- internal/output/sarif.go, oscal.go, scan_summary.go and evaluator.go: results and confidence
-- levels. `update` is gemara.UpdateAggregateResult.
use complytime.Output.Gemara.{result_eq, GemaraResult, GemaraConfidence}
use complytime.Provider.Messages.{Step, Result, ConfidenceLevel}
use complytime.Base.{if◌then◌else◌, [], none, ◌∷◌, some, Option, List, String}

unfoldable pub provider_result_to_gemara : Result → GemaraResult
provider_result_to_gemara Result.passed = GemaraResult.passed
provider_result_to_gemara Result.failed = GemaraResult.failed
provider_result_to_gemara Result.skipped = GemaraResult.not_applicable
provider_result_to_gemara Result.error = GemaraResult.unknown
provider_result_to_gemara Result.unspecified = GemaraResult.not_run
provider_result_to_gemara (Result.other n) = GemaraResult.not_run

unfoldable pub provider_confidence_to_gemara : ConfidenceLevel → GemaraConfidence
provider_confidence_to_gemara ConfidenceLevel.high = GemaraConfidence.high
provider_confidence_to_gemara ConfidenceLevel.medium = GemaraConfidence.medium
provider_confidence_to_gemara ConfidenceLevel.low = GemaraConfidence.low
provider_confidence_to_gemara ConfidenceLevel.undetermined = GemaraConfidence.undetermined
provider_confidence_to_gemara ConfidenceLevel.not_set = GemaraConfidence.undetermined
provider_confidence_to_gemara (ConfidenceLevel.other_level n) = GemaraConfidence.undetermined

-- gemaraResultToOSCAL.
pub record OscalState : Type 0 where
  pub state : String
  pub reason : String

unfoldable pub gemara_result_to_oscal : GemaraResult → OscalState
gemara_result_to_oscal GemaraResult.passed = record { state = "satisfied"; reason = "" }
gemara_result_to_oscal GemaraResult.failed = record { state = "not-satisfied"; reason = "" }
gemara_result_to_oscal GemaraResult.not_applicable = record {
  state = "satisfied";
  reason = "not-applicable";
}
gemara_result_to_oscal GemaraResult.unknown = record { state = "not-satisfied"; reason = "unknown" }
gemara_result_to_oscal GemaraResult.needs_review = record {
  state = "not-satisfied";
  reason = "unknown";
}
gemara_result_to_oscal GemaraResult.not_run = record { state = "not-satisfied"; reason = "unknown" }

-- The first step with the wanted result, else the first step, else nothing.
unfoldable pub first_match : List Step → GemaraResult → Option String
first_match [] wanted = none
first_match (s ∷ steps) wanted =
    let later = first_match steps wanted in
    if result_eq (provider_result_to_gemara s.result) wanted then some s.message else later

unfoldable pub matching_step_message : List Step → GemaraResult → String
matching_step_message steps wanted = elim (first_match steps wanted) [
  | some message ↦ message
  | none ↦ elim steps [ [] ↦ "" | s ∷ rest ↦ s.message ]
]

module _ (update : GemaraResult → GemaraResult → GemaraResult) where
  -- The loop of aggregateResultFromSteps, from the result so far.
  unfoldable pub aggregate_steps : GemaraResult → List Step → GemaraResult
  aggregate_steps agg [] = agg
  aggregate_steps agg (s ∷ steps) =
      aggregate_steps (update agg (provider_result_to_gemara s.result)) steps

  unfoldable pub aggregate_result_from_steps : List Step → GemaraResult
  aggregate_result_from_steps steps = aggregate_steps GemaraResult.not_run steps

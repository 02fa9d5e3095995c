-- ===== src/Output/Evaluator.antt =====
-- internal/output/evaluator.go: the assessments of one target, grouped by control. A pointer in the
-- map of controls is the record that it points to.
pub mod Grouped
pub mod Logged
pub mod Failing
use mathlib.Core.Option
use complytime.Output.Gemara.{
  GemaraResult, EntryMapping, EvidenceMapping, GemaraEvidence, GemaraReference, GemaraStep,
  GemaraAssessment, ControlEvaluation, EvaluationLog, result_eq,
}
use complytime.Output.Results.{
  provider_result_to_gemara, provider_confidence_to_gemara, matching_step_message,
  aggregate_result_from_steps,
}
use complytime.Provider.Messages.{Step, Evidence, EvidenceSource, AssessmentLog, ConfidenceLevel}
use complytime.Base.{
  none, length, ◌==◌, ◌∷◌, map, if◌then◌else◌, some, [], Bool, ◌++◌, List, Option, String,
}
use complytime.Base.Table.{insert, Table, lookup}

-- What the code only calls: gemara.UpdateAggregateResult, the clock (one reading, as text),
-- utf8.Valid and the encoding in base 64.
pub record OutputEnv : Type 0 where
  pub update : GemaraResult → GemaraResult → GemaraResult
  pub now : String
  pub utf8_valid : String → Bool
  pub base64 : String → String

pub record Evaluator : Type 0 where
  pub policy_id : String
  pub target_id : String
  pub req_to_control : Table String
  pub req_to_plan : Table String
  pub req_to_complypack_ref : Table String
  pub mapping_references : List GemaraReference
  pub control_evals : Table ControlEvaluation
  pub control_order : List String
  pub control_step_names : Table (List (List String))

-- A nil map is `none`.
unfoldable pub default_map : Option (Table String) → Table String
default_map none = []
default_map (some m) = m

unfoldable pub new_evaluator :
    String
    → String
    → Option (Table String)
    → Option (Table String)
    → Option (Table String)
    → List GemaraReference
    → Evaluator
unfolding default_map
new_evaluator policy target req_to_control req_to_plan req_to_complypack_ref references = record {
  policy_id = policy;
  target_id = target;
  req_to_control = default_map req_to_control;
  req_to_plan = default_map req_to_plan;
  req_to_complypack_ref = default_map req_to_complypack_ref;
  mapping_references = references;
  control_evals = [];
  control_order = [];
  control_step_names = [];
}

unfoldable pub resolve_control : Evaluator → String → String
resolve_control e requirement = elim (lookup requirement e.req_to_control) [
  | some control ↦ control
  | none ↦ requirement
]

unfoldable pub resolve_complypack_ref : Evaluator → String → String
resolve_complypack_ref e requirement = elim (lookup requirement e.req_to_complypack_ref) [
  | some ref ↦ ref
  | none ↦ ""
]

unfoldable pub payload_to_string : OutputEnv → String → String
payload_to_string env b = if b == "" then "" else if env.utf8_valid b then b else env.base64 b

unfoldable pub provider_steps_to_gemara : List Step → ConfidenceLevel → List GemaraStep
provider_steps_to_gemara steps confidence =
    map
      (λ (s : Step). record {
        result = provider_result_to_gemara s.result;
        message = s.message;
        confidence = provider_confidence_to_gemara confidence;
      })
      steps

-- A source that is nil leaves the field at its zero value.
unfoldable pub evidence_mapping : Option EvidenceSource → EvidenceMapping
evidence_mapping none = record {
  reference_id = "";
  coordinate = "";
  entry_id = "";
  digest = "";
  remarks = "";
}
evidence_mapping (some s) = record {
  reference_id = s.reference_id;
  coordinate = s.coordinate;
  entry_id = s.entry_id;
  digest = s.digest;
  remarks = s.remarks;
}

unfoldable pub evidence_to_gemara : OutputEnv → Evidence → GemaraEvidence
evidence_to_gemara env ev = record {
  id = ev.id;
  kind = ev.kind;
  description = ev.description;
  payload = payload_to_string env ev.payload;
  collected_at = ev.collected_at;
  source = evidence_mapping ev.source;
}

-- The message of an assessment, with the result that its steps give.
unfoldable pub assessment_message : AssessmentLog → GemaraResult → String
assessment_message a result =
    if result_eq result GemaraResult.passed
    then a.message
    else let message = matching_step_message a.steps result in
      if message == "" then a.message else message

unfoldable pub assessment_description : AssessmentLog → String → String
assessment_description a message =
    let named = if message == "" then first_step_name a.steps else message in
    if named == "" then a.requirement_id else named
  where
    first_step_name : List Step → String
    first_step_name [] = ""
    first_step_name (s ∷ steps) = s.name

-- The first result of providerToGemaraAssessment.
unfoldable pub provider_to_gemara_assessment :
    OutputEnv → Evaluator → AssessmentLog → GemaraAssessment
provider_to_gemara_assessment env e a =
    let result = aggregate_result_from_steps env.update a.steps in
    let message = assessment_message a result in
    record {
      requirement = record { reference_id = e.policy_id; entry_id = a.requirement_id };
      plan = elim (lookup a.requirement_id e.req_to_plan) [
        | some plan ↦ some (record { reference_id = e.policy_id; entry_id = plan })
        | none ↦ none
      ];
      description = assessment_description a message;
      result = result;
      message = message;
      applicability = "default" ∷ [];
      steps = provider_steps_to_gemara a.steps a.confidence;
      steps_executed = length a.steps;
      start = env.now;
      recommendation = a.recommendation;
      confidence_level = provider_confidence_to_gemara a.confidence;
      evidence = map (evidence_to_gemara env) a.evidence;
    }

-- The second one.
unfoldable pub step_names : AssessmentLog → List String
step_names a = map (λ (s : Step). s.name) a.steps

unfoldable pub new_control_evaluation : Evaluator → String → ControlEvaluation
new_control_evaluation e control = record {
  name = control;
  result = GemaraResult.not_run;
  message = "";
  control = record { reference_id = e.policy_id; entry_id = control };
  assessment_logs = [];
}

unfoldable pub add_log : OutputEnv → ControlEvaluation → GemaraAssessment → ControlEvaluation
add_log env ce log = record ce {
  assessment_logs = ce.assessment_logs ++ log ∷ [];
  result = env.update ce.result log.result;
  message = log.message;
}

unfoldable pub step_names_of : Evaluator → String → List (List String)
step_names_of e control = elim (lookup control e.control_step_names) [
  | some names ↦ names
  | none ↦ []
]

-- One round of the loop of AddTarget.
unfoldable pub add_assessment : OutputEnv → Evaluator → AssessmentLog → Evaluator
add_assessment env e a =
    let control = resolve_control e a.requirement_id in
    let log = provider_to_gemara_assessment env e a in
    let found = lookup control e.control_evals in
    record e {
      control_evals =
          insert control
            (add_log env (elim found [ some ce ↦ ce | none ↦ new_control_evaluation e control ])
              log)
            e.control_evals;
      control_order = elim found [
        | some ce ↦ e.control_order
        | none ↦ e.control_order ++ control ∷ []
      ];
      control_step_names =
          insert control (step_names_of e control ++ step_names a ∷ []) e.control_step_names;
    }

unfoldable pub add_target : OutputEnv → Evaluator → List AssessmentLog → Evaluator
add_target env e [] = e
add_target env e (a ∷ assessments) = add_target env (add_assessment env e a) assessments

-- The pointers in the order of the controls, `none` where one is nil.
unfoldable pub evaluations_of :
    Table ControlEvaluation → List String → Option (List ControlEvaluation)
evaluations_of evals [] = some []
evaluations_of evals (control ∷ controls) = elim (lookup control evals) [
  | none ↦ none
  | some ce ↦ Option.map (λ rest. ce ∷ rest) (evaluations_of evals controls)
]

unfoldable pub overall_result : OutputEnv → GemaraResult → List ControlEvaluation → GemaraResult
overall_result env result [] = result
overall_result env result (ce ∷ evals) = overall_result env (env.update result ce.result) evals

-- The log of the evaluations.
unfoldable pub assemble : OutputEnv → Evaluator → List ControlEvaluation → EvaluationLog
assemble env e evals = record {
  evaluations = evals;
  result = elim evals [
    | [] ↦ GemaraResult.not_applicable
    | ce ∷ rest ↦ overall_result env GemaraResult.not_run (ce ∷ rest)
  ];
  policy_id = e.policy_id;
  mapping_references = e.mapping_references;
  target_id = e.target_id;
}

-- GemaraLog. A nil pointer is dereferenced where it is `none`.
unfoldable pub gemara_log : OutputEnv → Evaluator → Option EvaluationLog
gemara_log env e = Option.map (assemble env e) (evaluations_of e.control_evals e.control_order)

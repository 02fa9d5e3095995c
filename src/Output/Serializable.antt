-- ===== src/Output/Serializable.antt =====
-- internal/output/evaluator.go: the shadow structs that stand for the log in its file, where the
-- closures of the steps are texts.
pub mod Identities
use complytime.Output.Gemara.{
  GemaraResult, GemaraConfidence, EntryMapping, GemaraEvidence, GemaraReference, GemaraAssessment,
  ControlEvaluation, EvaluationLog,
}
use complytime.Output.Evaluator.{Evaluator, resolve_complypack_ref, step_names_of}
use complytime.Base.{◌<>◌, ◌&&◌, ◌==◌, [], not, ◌∷◌, if◌then◌else◌, ℕ, map, List, String, Option}

pub record SerializableAssessmentLog : Type 0 where
  pub requirement : EntryMapping
  pub plan : Option EntryMapping
  pub description : String
  pub result : GemaraResult
  pub message : String
  pub applicability : List String
  pub steps : List String
  pub steps_executed : ℕ
  pub start : String
  pub recommendation : String
  pub confidence_level : GemaraConfidence
  pub evidence : List GemaraEvidence

pub record SerializableControlEvaluation : Type 0 where
  pub name : String
  pub result : GemaraResult
  pub message : String
  pub control : EntryMapping
  pub assessment_logs : List SerializableAssessmentLog

pub record SerializableEvaluationLog : Type 0 where
  pub evaluations : List SerializableControlEvaluation
  pub result : GemaraResult
  pub policy_id : String
  pub mapping_references : List GemaraReference
  pub target_id : String

unfoldable pub format_step_identity : String → String → String
format_step_identity complypack_ref step_name =
    if not (complypack_ref == "") && not (step_name == "")
    then complypack_ref <> "#" <> step_name
    else step_name

unfoldable pub serializable_log :
    Evaluator → GemaraAssessment → List String → SerializableAssessmentLog
serializable_log e al names = record {
  requirement = al.requirement;
  plan = al.plan;
  description = al.description;
  result = al.result;
  message = al.message;
  applicability = al.applicability;
  steps = map (format_step_identity (resolve_complypack_ref e al.requirement.entry_id)) names;
  steps_executed = al.steps_executed;
  start = al.start;
  recommendation = al.recommendation;
  confidence_level = al.confidence_level;
  evidence = al.evidence;
}

-- A log beyond the end of the names has none.
unfoldable pub serializable_logs :
    Evaluator → List GemaraAssessment → List (List String) → List SerializableAssessmentLog
serializable_logs e [] names = []
serializable_logs e (al ∷ logs) [] = serializable_log e al [] ∷ serializable_logs e logs []
serializable_logs e (al ∷ logs) (names ∷ later) =
    serializable_log e al names ∷ serializable_logs e logs later

unfoldable pub to_serializable : Evaluator → EvaluationLog → SerializableEvaluationLog
to_serializable e log = record {
  evaluations =
      map
        (λ (ce : ControlEvaluation). record {
          name = ce.name;
          result = ce.result;
          message = ce.message;
          control = ce.control;
          assessment_logs =
              serializable_logs e ce.assessment_logs (step_names_of e ce.control.entry_id);
        })
        log.evaluations;
  result = log.result;
  policy_id = log.policy_id;
  mapping_references = log.mapping_references;
  target_id = log.target_id;
}

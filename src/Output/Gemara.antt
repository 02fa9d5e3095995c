-- ===== src/Output/Gemara.antt =====
-- The types of go-gemara that internal/output fills in, with the fields that it sets.
use complytime.Base.{◌≡◌, nat_eq, ◌≤◌, Bool, ℕ, String, Option, List}

pub data GemaraResult : Type 0 where
  not_run passed failed needs_review not_applicable unknown : GemaraResult

-- The numbers of the constants, by which Go compares them.
unfoldable pub number : GemaraResult → ℕ
number not_run = 0
number passed = 1
number failed = 2
number needs_review = 3
number not_applicable = 4
number unknown = 5

unfoldable pub result_eq : GemaraResult → GemaraResult → Bool
result_eq a b = nat_eq (number a) (number b)

pub data GemaraConfidence : Type 0 where
  undetermined low medium high : GemaraConfidence

pub record EntryMapping : Type 0 where
  pub reference_id : String
  pub entry_id : String

pub record EvidenceMapping : Type 0 where
  pub reference_id : String
  pub coordinate : String
  pub entry_id : String
  pub digest : String
  pub remarks : String

pub record GemaraEvidence : Type 0 where
  pub id : String
  pub kind : String
  pub description : String
  pub payload : String
  pub collected_at : String
  pub source : EvidenceMapping

pub record GemaraReference : Type 0 where
  pub id : String
  pub title : String
  pub version : String
  pub description : String
  pub url : String

-- What the closure of an AssessmentStep answers, whatever it is applied to.
pub record GemaraStep : Type 0 where
  pub result : GemaraResult
  pub message : String
  pub confidence : GemaraConfidence

pub record GemaraAssessment : Type 0 where
  pub requirement : EntryMapping
  pub plan : Option EntryMapping
  pub description : String
  pub result : GemaraResult
  pub message : String
  pub applicability : List String
  pub steps : List GemaraStep
  pub steps_executed : ℕ
  pub start : String
  pub recommendation : String
  pub confidence_level : GemaraConfidence
  pub evidence : List GemaraEvidence

pub record ControlEvaluation : Type 0 where
  pub name : String
  pub result : GemaraResult
  pub message : String
  pub control : EntryMapping
  pub assessment_logs : List GemaraAssessment

-- The metadata and the target hold, beside these, constants only.
pub record EvaluationLog : Type 0 where
  pub evaluations : List ControlEvaluation
  pub result : GemaraResult
  pub policy_id : String
  pub mapping_references : List GemaraReference
  pub target_id : String

-- What the doc of gemara.UpdateAggregateResult says: a result that was not run overwrites nothing,
-- and of two results the more severe one is kept.
unfoldable pub severity : GemaraResult → ℕ
severity not_run = 0
severity not_applicable = 1
severity passed = 2
severity needs_review = 3
severity unknown = 4
severity failed = 5

pub record MostSevere (update : GemaraResult → GemaraResult → GemaraResult) : Type 0 where
  pub keeps : (a b : GemaraResult) → severity b ≤ severity a → update a b ≡ a
  pub raises : (a b : GemaraResult) → severity a ≤ severity b → update a b ≡ b

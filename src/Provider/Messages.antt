-- ===== src/Provider/Messages.antt =====
-- pkg/provider/client.go: the program's own types, and the messages of api/plugin/plugin.proto that
-- carry them. A slice that is nil is an empty list here.
use complytime.Base.{String, Option, List}
use complytime.Base.Integers.{ℤ}

-- `Result` and `ConfidenceLevel` are integers; `other` is one that no constant names.
pub data Result : Type 0 where
  unspecified passed failed skipped error : Result
  other : ℤ → Result

pub data ConfidenceLevel : Type 0 where
  not_set undetermined low medium high : ConfidenceLevel
  other_level : ℤ → ConfidenceLevel

pub record Step : Type 0 where
  pub name : String
  pub result : Result
  pub message : String

pub record EvidenceSource : Type 0 where
  pub reference_id : String
  pub coordinate : String
  pub entry_id : String
  pub digest : String
  pub remarks : String

pub record Evidence : Type 0 where
  pub id : String
  pub kind : String
  pub description : String
  pub payload : String
  pub collected_at : String
  pub source : Option EvidenceSource

pub record MappingReference : Type 0 where
  pub id : String
  pub title : String
  pub version : String
  pub description : String
  pub url : String

pub record AssessmentLog : Type 0 where
  pub plan_id : String
  pub requirement_id : String
  pub steps : List Step
  pub message : String
  pub confidence : ConfidenceLevel
  pub evidence : List Evidence
  pub recommendation : String

pub record ScanResponse : Type 0 where
  pub assessments : List AssessmentLog
  pub errors : List String
  pub mapping_references : List MappingReference

-- The enumerations of the protocol, open as those of proto3 are.
pub data ProtoResult : Type 0 where
  result_unspecified result_passed result_failed result_skipped result_error : ProtoResult
  result_other : ℤ → ProtoResult

pub data ProtoConfidence : Type 0 where
  confidence_not_set confidence_undetermined confidence_low confidence_medium : ProtoConfidence
  confidence_high : ProtoConfidence
  confidence_other : ℤ → ProtoConfidence

pub record ProtoStep : Type 0 where
  pub name : String
  pub result : ProtoResult
  pub message : String

pub record ProtoSource : Type 0 where
  pub reference_id : String
  pub coordinate : String
  pub entry_id : String
  pub digest : String
  pub remarks : String

pub record ProtoEvidence : Type 0 where
  pub id : String
  pub kind : String
  pub description : String
  pub payload : String
  pub collected_at : String
  pub source : Option ProtoSource

pub record ProtoReference : Type 0 where
  pub id : String
  pub title : String
  pub version : String
  pub description : String
  pub url : String

pub record ProtoAssessment : Type 0 where
  pub requirement_id : String
  pub steps : List ProtoStep
  pub message : String
  pub confidence : ProtoConfidence
  pub evidence : List ProtoEvidence
  pub recommendation : String

pub record ProtoResponse : Type 0 where
  pub assessments : List ProtoAssessment
  pub errors : List String
  pub mapping_references : List ProtoReference

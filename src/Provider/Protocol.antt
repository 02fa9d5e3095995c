-- ===== src/Provider/Protocol.antt =====
-- pkg/provider/server.go and pkg/provider/client.go: the response of a scan on its way from a plugin
-- to the program.
pub mod Received
use mathlib.Core.Option
use complytime.Base.{String, List, map, Option, some, none, ◌==◌, if◌then◌else◌}
use complytime.Provider.Messages.{
  Result, unspecified, passed, failed, skipped, error, other, ConfidenceLevel, not_set,
  undetermined, low, medium, high, other_level, Step, EvidenceSource, Evidence, MappingReference,
  AssessmentLog, ScanResponse, ProtoResult, result_unspecified, result_passed, result_failed,
  result_skipped, result_error, result_other, ProtoConfidence, confidence_not_set,
  confidence_undetermined, confidence_low, confidence_medium, confidence_high, confidence_other,
  ProtoStep, ProtoSource, ProtoEvidence, ProtoReference, ProtoAssessment, ProtoResponse,
}

unfoldable pub internal_result_to_proto : Result → ProtoResult
internal_result_to_proto passed = result_passed
internal_result_to_proto failed = result_failed
internal_result_to_proto skipped = result_skipped
internal_result_to_proto error = result_error
internal_result_to_proto unspecified = result_unspecified
internal_result_to_proto (other n) = result_unspecified

unfoldable pub proto_result_to_internal : ProtoResult → Result
proto_result_to_internal result_passed = passed
proto_result_to_internal result_failed = failed
proto_result_to_internal result_skipped = skipped
proto_result_to_internal result_error = error
proto_result_to_internal result_unspecified = unspecified
proto_result_to_internal (result_other n) = unspecified

unfoldable pub internal_confidence_to_proto : ConfidenceLevel → ProtoConfidence
internal_confidence_to_proto undetermined = confidence_undetermined
internal_confidence_to_proto low = confidence_low
internal_confidence_to_proto medium = confidence_medium
internal_confidence_to_proto high = confidence_high
internal_confidence_to_proto not_set = confidence_not_set
internal_confidence_to_proto (other_level n) = confidence_not_set

unfoldable pub proto_confidence_to_internal : ProtoConfidence → ConfidenceLevel
proto_confidence_to_internal confidence_undetermined = undetermined
proto_confidence_to_internal confidence_low = low
proto_confidence_to_internal confidence_medium = medium
proto_confidence_to_internal confidence_high = high
proto_confidence_to_internal confidence_not_set = not_set
proto_confidence_to_internal (confidence_other n) = not_set

unfoldable pub internal_source_to_proto : EvidenceSource → ProtoSource
internal_source_to_proto s = record {
  reference_id = s.reference_id;
  coordinate = s.coordinate;
  entry_id = s.entry_id;
  digest = s.digest;
  remarks = s.remarks;
}

unfoldable pub proto_source_to_internal : ProtoSource → EvidenceSource
proto_source_to_internal s = record {
  reference_id = s.reference_id;
  coordinate = s.coordinate;
  entry_id = s.entry_id;
  digest = s.digest;
  remarks = s.remarks;
}

unfoldable pub internal_evidence_to_proto : Evidence → ProtoEvidence
internal_evidence_to_proto e = record {
  id = e.id;
  kind = e.kind;
  description = e.description;
  payload = e.payload;
  collected_at = e.collected_at;
  source = Option.map internal_source_to_proto e.source;
}

unfoldable pub proto_evidence_to_internal : ProtoEvidence → Evidence
proto_evidence_to_internal e = record {
  id = e.id;
  kind = e.kind;
  description = e.description;
  payload = e.payload;
  collected_at = e.collected_at;
  source = Option.map proto_source_to_internal e.source;
}

unfoldable pub internal_reference_to_proto : MappingReference → ProtoReference
internal_reference_to_proto r = record {
  id = r.id;
  title = r.title;
  version = r.version;
  description = r.description;
  url = r.url;
}

unfoldable pub proto_reference_to_internal : ProtoReference → MappingReference
proto_reference_to_internal r = record {
  id = r.id;
  title = r.title;
  version = r.version;
  description = r.description;
  url = r.url;
}

unfoldable pub step_to_proto : Step → ProtoStep
step_to_proto s = record {
  name = s.name;
  result = internal_result_to_proto s.result;
  message = s.message;
}

unfoldable pub step_to_internal : ProtoStep → Step
step_to_internal s = record {
  name = s.name;
  result = proto_result_to_internal s.result;
  message = s.message;
}

-- An assessment without a plan id is sent under its requirement id.
unfoldable pub assessment_to_proto : AssessmentLog → ProtoAssessment
assessment_to_proto a = record {
  requirement_id = if a.plan_id == "" then a.requirement_id else a.plan_id;
  steps = map step_to_proto a.steps;
  message = a.message;
  confidence = internal_confidence_to_proto a.confidence;
  evidence = map internal_evidence_to_proto a.evidence;
  recommendation = a.recommendation;
}

-- The id that is received is the plan id.
unfoldable pub assessment_to_internal : ProtoAssessment → AssessmentLog
assessment_to_internal a = record {
  plan_id = a.requirement_id;
  requirement_id = "";
  steps = map step_to_internal a.steps;
  message = a.message;
  confidence = proto_confidence_to_internal a.confidence;
  evidence = map proto_evidence_to_internal a.evidence;
  recommendation = a.recommendation;
}

-- The answer of grpcServer.Scan, and what Client.Scan makes of it.
unfoldable pub respond : ScanResponse → ProtoResponse
respond r = record {
  assessments = map assessment_to_proto r.assessments;
  errors = r.errors;
  mapping_references = map internal_reference_to_proto r.mapping_references;
}

unfoldable pub receive : ProtoResponse → ScanResponse
receive r = record {
  assessments = map assessment_to_internal r.assessments;
  errors = r.errors;
  mapping_references = map proto_reference_to_internal r.mapping_references;
}

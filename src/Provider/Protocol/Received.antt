-- ===== src/Provider/Protocol/Received.antt =====
-- What the program receives of a plugin's scan.
use mathlib.Core.Option
use complytime.Base.{
  List, [], ◌∷◌, map, map-map, Option, some, none, ◌==◌, ◌≡◌, refl, ap, if◌then◌else◌,
}
use complytime.Provider.Messages.{
  Result, unspecified, passed, failed, skipped, error, other, ConfidenceLevel, not_set,
  undetermined, low, medium, high, other_level, Step, EvidenceSource, Evidence, MappingReference,
  AssessmentLog, ScanResponse,
}
use complytime.Provider.Protocol.{
  internal_result_to_proto, proto_result_to_internal, internal_confidence_to_proto,
  proto_confidence_to_internal, internal_source_to_proto, proto_source_to_internal,
  internal_evidence_to_proto, proto_evidence_to_internal, internal_reference_to_proto,
  proto_reference_to_internal, step_to_proto, step_to_internal, assessment_to_proto,
  assessment_to_internal, respond, receive,
}

-- A value that no constant names becomes the zero value.
pub known_result : Result → Result
known_result (other n) = unspecified
known_result r = r

pub known_level : ConfidenceLevel → ConfidenceLevel
known_level (other_level n) = not_set
known_level c = c

pub known_step : Step → Step
known_step s = record s { result = known_result s.result }

-- An assessment with one id, as its plan id.
pub delivered : AssessmentLog → AssessmentLog
delivered a = record a {
  plan_id = if a.plan_id == "" then a.requirement_id else a.plan_id;
  requirement_id = "";
  steps = map known_step a.steps;
  confidence = known_level a.confidence;
}

map_self :
    {A B : Type 0} (f : A → B) (g : B → A)
    → ((a : A) → g (f a) ≡ a)
    → (xs : List A) → map g (map f xs) ≡ xs
map_self f g e [] = refl
map_self f g e (x ∷ xs) = rw (e x) (ap (λ ys. x ∷ ys) (map_self f g e xs))

result_received :
    (r : Result) → proto_result_to_internal (internal_result_to_proto r) ≡ known_result r
unfolding internal_result_to_proto proto_result_to_internal known_result
result_received unspecified = refl
result_received passed = refl
result_received failed = refl
result_received skipped = refl
result_received error = refl
result_received (other n) = refl

level_received :
    (c : ConfidenceLevel)
    → proto_confidence_to_internal (internal_confidence_to_proto c) ≡ known_level c
unfolding internal_confidence_to_proto proto_confidence_to_internal known_level
level_received not_set = refl
level_received undetermined = refl
level_received low = refl
level_received medium = refl
level_received high = refl
level_received (other_level n) = refl

step_received : (s : Step) → step_to_internal (step_to_proto s) ≡ known_step s
unfolding step_to_internal step_to_proto known_step
step_received s = rw (result_received s.result) refl

source_received :
    (s : Option EvidenceSource)
    → Option.map proto_source_to_internal (Option.map internal_source_to_proto s) ≡ s
unfolding proto_source_to_internal internal_source_to_proto
source_received none = refl
source_received (some s) = refl

evidence_received : (e : Evidence) → proto_evidence_to_internal (internal_evidence_to_proto e) ≡ e
unfolding proto_evidence_to_internal internal_evidence_to_proto
evidence_received e = rw (source_received e.source) refl

reference_received :
    (r : MappingReference) → proto_reference_to_internal (internal_reference_to_proto r) ≡ r
unfolding proto_reference_to_internal internal_reference_to_proto
reference_received r = refl

assessment_received :
    (a : AssessmentLog) → assessment_to_internal (assessment_to_proto a) ≡ delivered a
unfolding assessment_to_internal assessment_to_proto delivered
assessment_received a =
    rw
      (
        map-map step_to_proto step_to_internal known_step step_received a.steps,
        level_received a.confidence,
        map_self internal_evidence_to_proto proto_evidence_to_internal evidence_received a.evidence,
      )
      refl

-- The program receives the response of a plugin's scan as it was sent, with all evidence, errors and
-- references, but that each assessment has one id, its plan id or else its requirement id, and that
-- results and confidence levels without a name have become unspecified.
pub receive-respond :
    (r : ScanResponse)
    → receive (respond r) ≡ record r { assessments = map delivered r.assessments }
unfolding receive respond
receive-respond r =
    rw
      (
        map-map assessment_to_proto assessment_to_internal delivered assessment_received
            r.assessments,
        map_self internal_reference_to_proto proto_reference_to_internal reference_received
            r.mapping_references,
      )
      refl

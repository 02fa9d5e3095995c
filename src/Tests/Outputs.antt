-- ===== src/Tests/Outputs.antt =====
-- The output of a scan: runs and theorems at concrete data.
use mathlib.Core.List.Perm
use complytime.Output.Gemara.{GemaraResult, GemaraReference, MostSevere, severity, EvaluationLog}
use complytime.Output.Evaluator.{OutputEnv, Evaluator, new_evaluator, add_target, gemara_log}
use complytime.Output.Evaluator.Grouped.{controls_of, first_occurrences, assessments_of}
use complytime.Output.Evaluator.Logged.{grouped, gemara_log-add_target}
use complytime.Output.Evaluator.Failing.{any_step_failed, gemara_log-failed}
use complytime.Output.References.{Merge, merge_mapping_references, provider_ref_to_gemara}
use complytime.Output.References.Merged.{
  strip, fresh, repeated, reported, named, unnamed, merge_mapping_references_lem,
}
use complytime.Output.Serializable.{
  SerializableControlEvaluation, SerializableAssessmentLog, to_serializable,
}
use complytime.Output.Serializable.Identities.{identities, to_serializable-add_target}
use complytime.Output.Summary.{format_scan_summary, nothing_assessed}
use complytime.Output.Summary.Counted.{counted, format_scan_summary-counted}
use complytime.Provider.Messages.{AssessmentLog, MappingReference, Step}
use complytime.Provider.Messages
use complytime.Base.{
  length, ◌++◌, any, ap, ◌+◌, ◌↔◌, map, ◌∙◌, refl, false, some, ◌<>◌, sym, leb, nat_eq, ◌∷◌, [],
  none, Option, List, String, true, arith, if◌then◌else◌, ◌≡◌, ℕ,
}
use complytime.Base.Table.{Table}

result_of_severity : ℕ → GemaraResult
result_of_severity n =
    if nat_eq n 0
    then GemaraResult.not_run
    else if nat_eq n 1
    then GemaraResult.not_applicable
    else if nat_eq n 2
    then GemaraResult.passed
    else if nat_eq n 3
    then GemaraResult.needs_review
    else if nat_eq n 4
    then GemaraResult.unknown
    else GemaraResult.failed

result_of_severity_lem : (r : GemaraResult) → result_of_severity (severity r) ≡ r
unfolding result_of_severity severity
result_of_severity_lem GemaraResult.not_run = refl
result_of_severity_lem GemaraResult.passed = refl
result_of_severity_lem GemaraResult.failed = refl
result_of_severity_lem GemaraResult.needs_review = refl
result_of_severity_lem GemaraResult.not_applicable = refl
result_of_severity_lem GemaraResult.unknown = refl

pub worst : GemaraResult → GemaraResult → GemaraResult
worst a b = if leb (severity b) (severity a) then a else b

severity_eq : (a b : GemaraResult) → severity a ≡ severity b → a ≡ b
severity_eq a b h =
    sym (result_of_severity_lem a) ∙ ap result_of_severity h ∙ result_of_severity_lem b

worst-MostSevere : MostSevere worst
unfolding worst
worst-MostSevere = record {
  keeps = λ a b h. ground arith;
  raises = λ a b h. ground (arith, severity_eq a b);
}

abbrev pub env : OutputEnv
env = record { update = worst; now = "now"; utf8_valid = λ _. true; base64 = λ s. s }

abbrev step : String → Messages.Result → Step
step name result = record { name = name; result = result; message = name <> " done" }

abbrev assessed : String → List Step → AssessmentLog
assessed requirement steps = record {
  plan_id = "";
  requirement_id = requirement;
  steps = steps;
  message = "";
  confidence = Messages.ConfidenceLevel.high;
  evidence = [];
  recommendation = "";
}

-- Two of the three assessments resolve to one control.
abbrev assessments : List AssessmentLog
assessments =
    assessed "AC-1.1" (step "one" Messages.Result.passed ∷ step "two" Messages.Result.failed ∷ [])
    ∷ assessed "AU-2" (step "three" Messages.Result.skipped ∷ [])
    ∷ assessed "AC-1.2" (step "four" Messages.Result.passed ∷ [])
    ∷ []

abbrev controls : Option (Table String)
controls = some (("AC-1.1", "AC-1") ∷ ("AC-1.2", "AC-1") ∷ [])

abbrev packs : Option (Table String)
packs = some (("AC-1.1", "repo@sha256:a") ∷ [])

gemara_log-add_target_example :
    let e = new_evaluator "nist" "web" controls none packs [] in
    (log : EvaluationLog) × (gemara_log env (add_target env e assessments) ≡ some log)
    × (log.evaluations
        ≡ map (grouped env e assessments) (first_occurrences [] (controls_of e assessments)))
    × (log.policy_id ≡ "nist")
    × (log.target_id ≡ "web")
    × (log.mapping_references ≡ [])
gemara_log-add_target_example =
    gemara_log-add_target env "nist" "web" controls none packs [] assessments

grouped_controls :
    first_occurrences []
      (controls_of (new_evaluator "nist" "web" controls none packs []) assessments)
    ≡ "AC-1" ∷ "AU-2" ∷ []
unfolding first_occurrences controls_of complytime.Base.contains
    complytime.Output.Evaluator.resolve_control complytime.Base.Table.lookup new_evaluator
grouped_controls = refl

gemara_log-failed_example :
    (log : EvaluationLog) × (gemara_log env
        (add_target env (new_evaluator "nist" "web" controls none packs []) assessments)
      ≡ some log)
    × ((log.result ≡ GemaraResult.failed) ↔ (any any_step_failed assessments ≡ true))
gemara_log-failed_example =
    gemara_log-failed env worst-MostSevere "nist" "web" controls none packs [] assessments

to_serializable-add_target_example :
    let e = new_evaluator "nist" "web" controls none packs [] in
    (log : EvaluationLog) × (gemara_log env (add_target env e assessments) ≡ some log)
    × (map
          (λ (ce : SerializableControlEvaluation).
            map (λ (al : SerializableAssessmentLog). al.steps) ce.assessment_logs)
          (to_serializable (add_target env e assessments) log).evaluations
        ≡ map
            (λ c. map (identities e) (assessments_of e c assessments))
            (first_occurrences [] (controls_of e assessments)))
to_serializable-add_target_example =
    to_serializable-add_target env "nist" "web" controls none packs [] assessments

abbrev policy_reference : GemaraReference
policy_reference = record {
  id = "nist";
  title = "NIST";
  version = "5";
  description = "own";
  url = "";
}

abbrev reference : String → String → MappingReference
reference id title = record { id = id; title = title; version = ""; description = "d"; url = "" }

abbrev references : List MappingReference
references =
    reference "cis" "CIS"
    ∷ reference "nist" "Other"
    ∷ reference "" "Nameless"
    ∷ reference "cis" "Again"
    ∷ []

merge_mapping_references_lem_example :
    (merged : Merge) × (merge_mapping_references (policy_reference ∷ []) references ≡ some merged)
    × (map strip merged.result
        ≡ map strip (policy_reference ∷ [])
          ++ map
              (λ r. strip (provider_ref_to_gemara r))
              (fresh (map (λ (r : GemaraReference). r.id) (policy_reference ∷ [])) references))
    × (map reported merged.collisions
        ≡ map named
            (repeated (map (λ (r : GemaraReference). r.id) (policy_reference ∷ [])) references))
    × (merged.discarded_empty_ids ≡ unnamed references)
    × (length merged.result + length merged.collisions + length merged.discarded_empty_ids
        ≡ length (policy_reference ∷ []) + length references)
merge_mapping_references_lem_example =
    merge_mapping_references_lem (policy_reference ∷ []) references

kept_references : fresh ("nist" ∷ []) references ≡ reference "cis" "CIS" ∷ []
unfolding fresh complytime.Base.contains
kept_references = refl

format_scan_summary-counted_example :
    let (totals, rows) =
      format_scan_summary worst (λ key xs. xs) assessments ("web" ∷ "web" ∷ "web" ∷ []) [] false in
    (counted totals ≡ length assessments)
    × ((if false then 0 else totals.pass_count) + length rows ≡ length assessments)
    × ((nothing_assessed worst assessments ≡ true) ↔ (totals.pass_count + totals.fail_count ≡ 0))
format_scan_summary-counted_example =
    format_scan_summary-counted worst (λ key xs. xs) (λ key xs. Perm.refl xs) assessments
      ("web" ∷ "web" ∷ "web" ∷ []) [] false

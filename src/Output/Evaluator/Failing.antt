-- ===== src/Output/Evaluator/Failing.antt =====
-- When the result of a whole log is a failure.
use complytime.Output.Gemara.{
  GemaraResult, GemaraAssessment, ControlEvaluation, EvaluationLog, GemaraReference, MostSevere,
  severity, number, result_eq,
}
use complytime.Output.Results.{
  provider_result_to_gemara, aggregate_steps, aggregate_result_from_steps,
}
use complytime.Output.Evaluator.{
  assemble, evaluations_of, new_control_evaluation, OutputEnv, Evaluator, resolve_control,
  provider_to_gemara_assessment, overall_result, add_target, gemara_log, new_evaluator,
}
use complytime.Output.Evaluator.Grouped.{
  assessments_of, controls_of, first_occurrences, result_of, logs_of, with_logs,
}
use complytime.Output.Evaluator.Logged.{contains_met, grouped, gemara_log-add_target}
use complytime.Provider.Messages.{AssessmentLog, Step, Result}
use complytime.Base.{
  sym, ap, subst, ◌++◌, Option, if◌then◌else◌, All, Option-cases, some, map, contains, String, refl,
  false, inr, leb→le, [], inl, ◌∙◌, leb, ◌∷◌, Bool-cases, ◌↔◌, List, ◌||◌, arith, true, any, ◌≤◌,
  ◌≡◌, Bool,
}
use complytime.Base.Groups.{contains-map, any-keep}
use complytime.Base.Table.{Table}
use complytime.Base.Members.{All-mono}

is_failed : GemaraResult → Bool
is_failed r = result_eq r GemaraResult.failed

-- A step failed.
unfoldable pub step_failed : Step → Bool
step_failed s = elim s.result [ Result.failed ↦ true | _ ↦ false ]

unfoldable pub any_step_failed : AssessmentLog → Bool
any_step_failed a = any step_failed a.steps

is_failed_iff : (r : GemaraResult) → (is_failed r ≡ true) ↔ (r ≡ GemaraResult.failed)
unfolding is_failed result_eq number
is_failed_iff GemaraResult.not_run = ground arith
is_failed_iff GemaraResult.passed = ground arith
is_failed_iff GemaraResult.failed = ground arith
is_failed_iff GemaraResult.needs_review = ground arith
is_failed_iff GemaraResult.not_applicable = ground arith
is_failed_iff GemaraResult.unknown = ground arith

severity_failed : (r : GemaraResult) → (is_failed r ≡ true) ↔ (severity r ≡ 5)
unfolding is_failed result_eq number severity
severity_failed GemaraResult.not_run = ground arith
severity_failed GemaraResult.passed = ground arith
severity_failed GemaraResult.failed = ground arith
severity_failed GemaraResult.needs_review = ground arith
severity_failed GemaraResult.not_applicable = ground arith
severity_failed GemaraResult.unknown = ground arith

severity_bound : (r : GemaraResult) → severity r ≤ 5
unfolding severity
severity_bound GemaraResult.not_run = omega arith
severity_bound GemaraResult.passed = omega arith
severity_bound GemaraResult.failed = omega arith
severity_bound GemaraResult.needs_review = omega arith
severity_bound GemaraResult.not_applicable = omega arith
severity_bound GemaraResult.unknown = omega arith

contains-first_occurrences :
    (met : List String) (ks : List String) (c : String)
    → contains (first_occurrences met ks) c ≡ (contains met c || contains ks c)
unfolding first_occurrences contains
contains-first_occurrences met [] c = ground arith
contains-first_occurrences met (k ∷ ks) c =
    contains-first_occurrences (if contains met k then met else met ++ k ∷ []) ks c
    ∙ ground (arith, contains_met met k c)

module _ (env : OutputEnv) (law : MostSevere env.update) where
  update_failed : (a b : GemaraResult) → is_failed (env.update a b) ≡ (is_failed a || is_failed b)
  update_failed a b = elim (Bool-cases (leb (severity b) (severity a))) [
    | inl above ↦
        rw (law.keeps a b (leb→le _ _ above))
          (ground (arith, severity_failed a, severity_failed b, severity_bound a))
    | inr below ↦
        let raised : severity a ≤ severity b = ground arith in
        rw (law.raises a b raised)
          (ground (arith, severity_failed a, severity_failed b, severity_bound b))
  ]

  step_failed_lem : (s : Step) → is_failed (provider_result_to_gemara s.result) ≡ step_failed s
  unfolding step_failed is_failed provider_result_to_gemara result_eq number
  step_failed_lem s =
      elim s.result
        as (λ r.
          is_failed (provider_result_to_gemara r) ≡ (elim r [ Result.failed ↦ true | _ ↦ false ])) [
            | Result.unspecified ↦ refl
            | Result.passed ↦ refl
            | Result.failed ↦ refl
            | Result.skipped ↦ refl
            | Result.error ↦ refl
            | Result.other n ↦ refl
          ]

  aggregate_steps_failed :
      (agg : GemaraResult) (steps : List Step)
      → is_failed (aggregate_steps env.update agg steps) ≡ (is_failed agg || any step_failed steps)
  unfolding aggregate_steps any
  aggregate_steps_failed agg [] = ground arith
  aggregate_steps_failed agg (s ∷ steps) =
      aggregate_steps_failed (env.update agg (provider_result_to_gemara s.result)) steps
      ∙ ground (arith, update_failed agg (provider_result_to_gemara s.result), step_failed_lem s)

  result_of_failed :
      (r : GemaraResult) (logs : List GemaraAssessment)
      → is_failed (result_of env r logs)
        ≡ (is_failed r || any (λ (log : GemaraAssessment). is_failed log.result) logs)
  unfolding result_of any
  result_of_failed r [] = ground arith
  result_of_failed r (log ∷ logs) =
      result_of_failed (env.update r log.result) logs ∙ ground (arith, update_failed r log.result)

  overall_result_failed :
      (r : GemaraResult) (evals : List ControlEvaluation)
      → is_failed (overall_result env r evals)
        ≡ (is_failed r || any (λ (ce : ControlEvaluation). is_failed ce.result) evals)
  unfolding overall_result any
  overall_result_failed r [] = ground arith
  overall_result_failed r (ce ∷ evals) =
      overall_result_failed (env.update r ce.result) evals
      ∙ ground (arith, update_failed r ce.result)

  logs_failed :
      (e : Evaluator) (assessments : List AssessmentLog)
      → any
          (λ (log : GemaraAssessment). is_failed log.result)
          (map (provider_to_gemara_assessment env e) assessments)
        ≡ any any_step_failed assessments
  unfolding any any_step_failed provider_to_gemara_assessment aggregate_result_from_steps is_failed
      result_eq number
  logs_failed e [] = refl
  logs_failed e (a ∷ assessments) =
      ground (arith, aggregate_steps_failed GemaraResult.not_run a.steps, logs_failed e assessments)

  grouped_failed :
      (e : Evaluator) (assessments : List AssessmentLog) (c : String)
      → is_failed (grouped env e assessments c).result
        ≡ any any_step_failed (assessments_of e c assessments)
  unfolding grouped with_logs logs_of new_control_evaluation is_failed result_eq number
  grouped_failed e assessments c =
      result_of_failed GemaraResult.not_run (logs_of env e c assessments)
      ∙ ground (arith, logs_failed e (assessments_of e c assessments))

  assemble_failed :
      (e : Evaluator) (evals : List ControlEvaluation)
      → is_failed (assemble env e evals).result
        ≡ any (λ (ce : ControlEvaluation). is_failed ce.result) evals
  unfolding assemble is_failed result_eq number any
  assemble_failed e [] = refl
  assemble_failed e (ce ∷ evals) = overall_result_failed GemaraResult.not_run (ce ∷ evals)

  gemara_log_failed :
      (e : Evaluator) (log : EvaluationLog)
      → gemara_log env e ≡ some log
      → is_failed log.result ≡ any (λ (ce : ControlEvaluation). is_failed ce.result) log.evaluations
  unfolding gemara_log assemble
  gemara_log_failed e log h = elim (Option-cases (evaluations_of e.control_evals e.control_order)) [
    | inl missing ↦ absurd (ground arith)
    | inr (evals, found) ↦
        let same : assemble env e evals ≡ log = ground arith in
        subst
          (λ (l : EvaluationLog).
            is_failed l.result
            ≡ any (λ (ce : ControlEvaluation). is_failed ce.result) l.evaluations)
          same (assemble_failed e evals)
  ]

  controls_failed :
      (e : Evaluator) (assessments : List AssessmentLog) (cs : List String)
      → any (λ (ce : ControlEvaluation). is_failed ce.result) (map (grouped env e assessments) cs)
        ≡ any (λ c. any any_step_failed (assessments_of e c assessments)) cs
  unfolding any
  controls_failed e assessments [] = refl
  controls_failed e assessments (c ∷ cs) =
      rw (grouped_failed e assessments c, controls_failed e assessments cs) refl

  controls_covered :
      (e : Evaluator) (assessments : List AssessmentLog)
      → All
          (λ (a : AssessmentLog).
            contains
              (first_occurrences [] (controls_of e assessments))
              (resolve_control e a.requirement_id)
            ≡ true)
          assessments
  unfolding controls_of contains
  controls_covered e assessments =
      All-mono
        (λ a h.
          contains-first_occurrences [] (controls_of e assessments)
            (resolve_control e a.requirement_id)
          ∙ h)
        assessments
        (contains-map (λ (a : AssessmentLog). resolve_control e a.requirement_id) assessments)

  result_failed :
      (e : Evaluator) (assessments : List AssessmentLog) (log : EvaluationLog)
      → gemara_log env (add_target env e assessments) ≡ some log
      → log.evaluations
        ≡ map (grouped env e assessments) (first_occurrences [] (controls_of e assessments))
      → is_failed log.result ≡ any any_step_failed assessments
  unfolding assessments_of
  result_failed e assessments log h evals =
      gemara_log_failed (add_target env e assessments) log h
      ∙ ap (any (λ (ce : ControlEvaluation). is_failed ce.result)) evals
      ∙ controls_failed e assessments (first_occurrences [] (controls_of e assessments))
      ∙ any-keep (λ (a : AssessmentLog). resolve_control e a.requirement_id) any_step_failed
          (first_occurrences [] (controls_of e assessments)) assessments
          (controls_covered e assessments)

  -- The log of a new evaluator that was given some assessments has the result Failed exactly if some
  -- step of some of them failed, if the aggregation keeps the most severe result.
  pub gemara_log-failed :
      (policy target : String) (control plan complypack : Option (Table String))
      (references : List GemaraReference) (assessments : List AssessmentLog)
      → (log : EvaluationLog) × (gemara_log env (
            add_target env
              (new_evaluator policy target control plan complypack references)
              assessments)
          ≡ some log)
        × ((log.result ≡ GemaraResult.failed) ↔ (any any_step_failed assessments ≡ true))
  gemara_log-failed policy target control plan complypack references assessments =
      let e = new_evaluator policy target control plan complypack references in
      let known =
        gemara_log-add_target env policy target control plan complypack references assessments in
      let same = result_failed e assessments known.0 known.1 known.2 in
      (
        known.0,
        known.1,
        (
          λ h. sym same ∙ (is_failed_iff known.0.result).1 h,
          λ h. (is_failed_iff known.0.result).0 (same ∙ h),
        ),
      )

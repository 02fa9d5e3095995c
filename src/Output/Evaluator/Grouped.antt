-- ===== src/Output/Evaluator/Grouped.antt =====
-- AddTarget as a grouping of the assessments by the control to which each one resolves.
use complytime.Output.Gemara.{GemaraResult, GemaraAssessment, ControlEvaluation}
use complytime.Output.Evaluator.{
  OutputEnv, Evaluator, resolve_control, provider_to_gemara_assessment, new_control_evaluation,
  add_log, add_assessment, add_target,
}
use complytime.Provider.Messages.{AssessmentLog}
use complytime.Base.{
  arith, ◌∙◌, sym, none, ap, refl, inr, inl, Bool-cases, contains, [], ◌≡◌, if◌then◌else◌, some,
  ◌++◌, ◌∷◌, map, ◌==◌, keep, Option, List, String,
}
use complytime.Base.Table.{lookup-insert_own, lookup}
use mathlib.Core.List.{append_assoc, append-nil}

-- The assessments of one control, in their order.
unfoldable pub assessments_of : Evaluator → String → List AssessmentLog → List AssessmentLog
assessments_of e control = keep (λ a. resolve_control e a.requirement_id == control)

-- The control of each assessment.
unfoldable pub controls_of : Evaluator → List AssessmentLog → List String
controls_of e = map (λ (a : AssessmentLog). resolve_control e a.requirement_id)

-- The members of a list that were not met before, in the order in which they are met first.
unfoldable pub first_occurrences : List String → List String → List String
first_occurrences met [] = met
first_occurrences met (k ∷ ks) =
    first_occurrences (if contains met k then met else met ++ k ∷ []) ks

unfoldable pub last_message : String → List GemaraAssessment → String
last_message message [] = message
last_message message (log ∷ logs) = last_message log.message logs

module _ (env : OutputEnv) where
  unfoldable pub result_of : GemaraResult → List GemaraAssessment → GemaraResult
  result_of result [] = result
  result_of result (log ∷ logs) = result_of (env.update result log.result) logs

  -- What one control's entry becomes by logs that are added to it.
  unfoldable pub with_logs : ControlEvaluation → List GemaraAssessment → ControlEvaluation
  with_logs ce logs = record ce {
    assessment_logs = ce.assessment_logs ++ logs;
    result = result_of ce.result logs;
    message = last_message ce.message logs;
  }

  unfoldable pub logs_of : Evaluator → String → List AssessmentLog → List GemaraAssessment
  logs_of e control assessments =
      map (provider_to_gemara_assessment env e) (assessments_of e control assessments)

  -- A map's answer after logs of its key were added.
  unfoldable pub found_after :
      Option ControlEvaluation
      → ControlEvaluation
      → List GemaraAssessment
      → Option ControlEvaluation
  found_after found fresh [] = found
  found_after found fresh (log ∷ logs) =
      found_after (some (add_log env (elim found [ some ce ↦ ce | none ↦ fresh ]) log)) fresh logs

  pub with_logs-add_log :
      (ce : ControlEvaluation) (log : GemaraAssessment) (logs : List GemaraAssessment)
      → with_logs (add_log env ce log) logs ≡ with_logs ce (log ∷ logs)
  unfolding with_logs result_of last_message add_log
  with_logs-add_log ce log logs =
      ap (λ ls. record (with_logs ce (log ∷ logs)) { assessment_logs = ls })
        (append_assoc ce.assessment_logs (log ∷ []) logs)

  pub found_after-some :
      (ce fresh : ControlEvaluation) (logs : List GemaraAssessment)
      → found_after (some ce) fresh logs ≡ some (with_logs ce logs)
  unfolding found_after with_logs result_of last_message
  found_after-some ce fresh [] =
      ap (λ ls. some (record ce { assessment_logs = ls })) (sym (append-nil ce.assessment_logs))
  found_after-some ce fresh (log ∷ logs) =
      found_after-some (add_log env ce log) fresh logs ∙ ap some (with_logs-add_log ce log logs)

  pub lookup-add_assessment :
      (e : Evaluator) (a : AssessmentLog) (c : String)
      → lookup c (add_assessment env e a).control_evals ≡ (
          if resolve_control e a.requirement_id == c
          then some (
              add_log env
                (elim (lookup c e.control_evals) [
                  | some ce ↦ ce
                  | none ↦ new_control_evaluation e c
                ])
                (provider_to_gemara_assessment env e a))
          else lookup c e.control_evals)
  unfolding add_assessment
  lookup-add_assessment e a c =
      lookup-insert_own
        (λ k.
          add_log env
            (elim (lookup k e.control_evals) [ some ce ↦ ce | none ↦ new_control_evaluation e k ])
            (provider_to_gemara_assessment env e a))
        (resolve_control e a.requirement_id) c e.control_evals

  logs_of-add_assessment :
      (e : Evaluator) (a : AssessmentLog) (c : String) (assessments : List AssessmentLog)
      → logs_of (add_assessment env e a) c assessments ≡ logs_of e c assessments
  unfolding logs_of add_assessment assessments_of resolve_control provider_to_gemara_assessment
  logs_of-add_assessment e a c assessments = refl

  logs_of_nil : (e : Evaluator) (c : String) → logs_of e c [] ≡ []
  unfolding logs_of assessments_of keep
  logs_of_nil e c = refl

  logs_of_cons :
      (e : Evaluator) (a : AssessmentLog) (c : String) (assessments : List AssessmentLog)
      → logs_of e c (a ∷ assessments) ≡ (
          if resolve_control e a.requirement_id == c
          then provider_to_gemara_assessment env e a ∷ logs_of e c assessments
          else logs_of e c assessments)
  unfolding logs_of assessments_of keep
  logs_of_cons e a c assessments = ground arith

  pub lookup-add_target :
      (e : Evaluator) (assessments : List AssessmentLog) (c : String)
      → lookup c (add_target env e assessments).control_evals
        ≡ found_after
            (lookup c e.control_evals)
            (new_control_evaluation e c)
            (logs_of e c assessments)
  unfolding add_target found_after add_assessment new_control_evaluation
  lookup-add_target e [] c = rw (logs_of_nil e c) refl
  lookup-add_target e (a ∷ assessments) c =
      lookup-add_target (add_assessment env e a) assessments c
      ∙ elim (Bool-cases (resolve_control e a.requirement_id == c)) [
        | inl same ↦
            rw
              (
                logs_of_cons e a c assessments,
                logs_of-add_assessment e a c assessments,
                lookup-add_assessment e a c,
                same,
              )
              refl
        | inr different ↦
            rw
              (
                logs_of_cons e a c assessments,
                logs_of-add_assessment e a c assessments,
                lookup-add_assessment e a c,
                different,
              )
              refl
      ]

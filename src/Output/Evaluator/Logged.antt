-- ===== src/Output/Evaluator/Logged.antt =====
-- The log that GemaraLog assembles of the assessments that AddTarget was given.
use mathlib.Core.Option
use complytime.Output.Gemara.{EvaluationLog, GemaraReference, GemaraAssessment, ControlEvaluation}
use complytime.Output.Evaluator.{
  assemble, new_evaluator, gemara_log, OutputEnv, Evaluator, resolve_control,
  new_control_evaluation, add_log, add_assessment, add_target, evaluations_of,
}
use complytime.Output.Evaluator.Grouped.{
  with_logs-add_log, controls_of, first_occurrences, with_logs, logs_of, found_after,
  found_after-some, lookup-add_assessment, lookup-add_target,
}
use complytime.Provider.Messages.{AssessmentLog}
use complytime.Base.{
  Option, map, eq_iff, some, contains-append, All, true, ◌==◌, none, ap, ◌||◌, refl, arith, [], ◌∙◌,
  ◌++◌, ◌∷◌, if◌then◌else◌, is_some, List, ◌≡◌, contains, String,
}
use complytime.Base.Table.{Table, lookup}
use complytime.Base.Members.{contains-members, All-mono, All-contains}

-- The order lists the keys of the map.
IsOrdered : Evaluator → Type 0
IsOrdered e = (c : String) → is_some (lookup c e.control_evals) ≡ contains e.control_order c

pub contains_met :
    (met : List String) (k c : String)
    → contains (if contains met k then met else met ++ k ∷ []) c ≡ (contains met c || k == c)
unfolding contains
contains_met met k c = ground (
  arith,
  contains-append met (k ∷ []) c,
  eq_iff k c,
  All-contains (λ x. contains met x ≡ true) (k ∷ []) c,
)

module _ (env : OutputEnv) where
  control_order-add_assessment :
      (e : Evaluator) (a : AssessmentLog)
      → IsOrdered e
      → (add_assessment env e a).control_order ≡ (
          let c = resolve_control e a.requirement_id in
          if contains e.control_order c then e.control_order else e.control_order ++ c ∷ [])
  unfolding IsOrdered add_assessment
  control_order-add_assessment e a h = ground (arith, h (resolve_control e a.requirement_id))

  add_assessment-IsOrdered :
      (e : Evaluator) (a : AssessmentLog) → IsOrdered e → IsOrdered (add_assessment env e a)
  unfolding IsOrdered
  add_assessment-IsOrdered e a h c =
      rw
        (
          lookup-add_assessment env e a c,
          control_order-add_assessment e a h,
          contains_met e.control_order (resolve_control e a.requirement_id) c,
        )
        (ground (arith, h c))

  control_order-add_target :
      (e : Evaluator) (assessments : List AssessmentLog)
      → IsOrdered e
      → (IsOrdered (add_target env e assessments))
        × ((add_target env e assessments).control_order
            ≡ first_occurrences e.control_order (controls_of e assessments))
  unfolding add_target controls_of first_occurrences resolve_control add_assessment
  control_order-add_target e [] h = (h, refl)
  control_order-add_target e (a ∷ assessments) h =
      let (ordered, order) =
        control_order-add_target (add_assessment env e a) assessments
          (add_assessment-IsOrdered e a h) in
      (
        ordered,
        order
            ∙ ap (λ met. first_occurrences met (controls_of e assessments))
                (control_order-add_assessment e a h),
      )

  -- The logs of one control, aggregated.
  unfoldable pub grouped : Evaluator → List AssessmentLog → String → ControlEvaluation
  grouped e assessments c = with_logs env (new_control_evaluation e c) (logs_of env e c assessments)

  found_after-none :
      (fresh : ControlEvaluation) (logs : List GemaraAssessment)
      → is_some (found_after env none fresh logs) ≡ true
      → found_after env none fresh logs ≡ some (with_logs env fresh logs)
  unfolding found_after
  found_after-none fresh [] h = absurd (ground arith)
  found_after-none fresh (log ∷ logs) h =
      found_after-some env (add_log env fresh log) fresh logs
      ∙ ap some (with_logs-add_log env fresh log logs)

  evaluations_of-map :
      (evals : Table ControlEvaluation) (g : String → ControlEvaluation) (controls : List String)
      → All (λ c. lookup c evals ≡ some (g c)) controls
      → evaluations_of evals controls ≡ some (map g controls)
  unfolding evaluations_of
  evaluations_of-map evals g [] h = refl
  evaluations_of-map evals g (c ∷ controls) h =
      rw (evaluations_of, h.0, evaluations_of-map evals g controls h.1) refl

  grouped-add_target :
      (e : Evaluator) (assessments : List AssessmentLog) (c : String)
      → lookup c e.control_evals ≡ none
      → is_some (lookup c (add_target env e assessments).control_evals) ≡ true
      → lookup c (add_target env e assessments).control_evals ≡ some (grouped e assessments c)
  unfolding grouped
  grouped-add_target e assessments c fresh h =
      let found = rw fresh at (lookup-add_target env e assessments c) in
      found
      ∙ found_after-none (new_control_evaluation e c) (logs_of env e c assessments) (rw found at h)

  -- Every control that the order lists has its entry, grouped.
  controls-grouped :
      (e : Evaluator) (assessments : List AssessmentLog)
      → ((c : String) → lookup c e.control_evals ≡ none)
      → IsOrdered (add_target env e assessments)
      → All
          (λ c.
            lookup c (add_target env e assessments).control_evals ≡ some (grouped e assessments c))
          (add_target env e assessments).control_order
  unfolding IsOrdered
  controls-grouped e assessments fresh ordered =
      All-mono
        (λ c (h : contains (add_target env e assessments).control_order c ≡ true).
          grouped-add_target e assessments c (fresh c) (ordered c ∙ h))
        (add_target env e assessments).control_order
        (contains-members (add_target env e assessments).control_order)

  pub add_target-fields :
      (e : Evaluator) (assessments : List AssessmentLog)
      → ((add_target env e assessments).policy_id ≡ e.policy_id)
        × ((add_target env e assessments).target_id ≡ e.target_id)
        × ((add_target env e assessments).mapping_references ≡ e.mapping_references)
        × ((add_target env e assessments).req_to_complypack_ref ≡ e.req_to_complypack_ref)
  unfolding add_target add_assessment
  add_target-fields e [] = (refl, refl, refl, refl)
  add_target-fields e (a ∷ assessments) = add_target-fields (add_assessment env e a) assessments

  -- GemaraLog of a new evaluator that was given some assessments meets no nil pointer. Its
  -- evaluations are those of the controls to which the assessments resolve, each control once, in the
  -- order in which they are met first; each has exactly the assessments that resolve to it, in their
  -- order, with their results aggregated and the last message.
  pub gemara_log-add_target :
      (policy target : String) (control plan complypack : Option (Table String))
      (references : List GemaraReference) (assessments : List AssessmentLog)
      → let e = new_evaluator policy target control plan complypack references in
        (log : EvaluationLog) × (gemara_log env (add_target env e assessments) ≡ some log)
        × (log.evaluations
            ≡ map (grouped e assessments) (first_occurrences [] (controls_of e assessments)))
        × (log.policy_id ≡ policy)
        × (log.target_id ≡ target)
        × (log.mapping_references ≡ references)
  unfolding gemara_log assemble IsOrdered new_evaluator contains lookup
  gemara_log-add_target policy target control plan complypack references assessments =
      let e = new_evaluator policy target control plan complypack references in
      let (ordered, order) = control_order-add_target e assessments (λ c. refl) in
      let found = evaluations_of-map _ _ _ (controls-grouped e assessments (λ c. refl) ordered) in
      let (same_policy, same_target, same_references, same_refs) =
        add_target-fields e assessments in
      (
        _,
        ap (Option.map _) found,
        ap (map (grouped e assessments)) order,
        same_policy,
        same_target,
        same_references,
      )

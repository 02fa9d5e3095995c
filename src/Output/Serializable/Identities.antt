-- ===== src/Output/Serializable/Identities.antt =====
-- The step identities that stand in the file of a log.
use complytime.Output.Gemara.{GemaraAssessment, ControlEvaluation, EvaluationLog, GemaraReference}
use complytime.Output.Evaluator.{
  OutputEnv, Evaluator, resolve_control, resolve_complypack_ref, provider_to_gemara_assessment,
  step_names, step_names_of, add_assessment, add_target, gemara_log, new_evaluator,
}
use complytime.Output.Evaluator.Grouped.{assessments_of, controls_of, first_occurrences, logs_of}
use complytime.Output.Evaluator.Logged.{add_target-fields, grouped, gemara_log-add_target}
use complytime.Output.Serializable.{
  SerializableAssessmentLog, SerializableControlEvaluation, format_step_identity, serializable_log,
  serializable_logs, to_serializable,
}
use complytime.Provider.Messages.{AssessmentLog, Step}
use complytime.Base.{
  map-map, some, Option, inr, inl, Bool-cases, arith, refl, ◌∙◌, [], ap, sym, ◌==◌, ◌∷◌, ◌++◌,
  if◌then◌else◌, map, ◌≡◌, List, keep, String,
}
use mathlib.Core.List.{append_assoc, append-nil}
use complytime.Base.Table.{lookup, Table, lookup-insert_own}

module _ (env : OutputEnv) where
  step_names_of-add_assessment :
      (e : Evaluator) (a : AssessmentLog) (c : String)
      → step_names_of (add_assessment env e a) c ≡ (
          if resolve_control e a.requirement_id == c
          then step_names_of e c ++ step_names a ∷ []
          else step_names_of e c)
  unfolding add_assessment step_names_of
  step_names_of-add_assessment e a c =
      rw
        (
          step_names_of,
          lookup-insert_own (λ k. step_names_of e k ++ step_names a ∷ [])
              (resolve_control e a.requirement_id) c e.control_step_names,
        )
        (ground arith)

  step_names_of-add_target :
      (e : Evaluator) (assessments : List AssessmentLog) (c : String)
      → step_names_of (add_target env e assessments) c
        ≡ step_names_of e c ++ map step_names (assessments_of e c assessments)
  unfolding add_target assessments_of keep add_assessment resolve_control
  step_names_of-add_target e [] c = sym (append-nil (step_names_of e c))
  step_names_of-add_target e (a ∷ assessments) c =
      step_names_of-add_target (add_assessment env e a) assessments c
      ∙ elim (Bool-cases (resolve_control e a.requirement_id == c)) [
        | inl same ↦
            rw (step_names_of-add_assessment e a c, same)
              (append_assoc (step_names_of e c) (step_names a ∷ [])
                (map step_names (assessments_of e c assessments)))
        | inr different ↦ rw (step_names_of-add_assessment e a c, different) refl
      ]

serializable_logs-map :
    (e : Evaluator) (f : AssessmentLog → GemaraAssessment) (assessments : List AssessmentLog)
    → serializable_logs e (map f assessments) (map step_names assessments)
      ≡ map (λ a. serializable_log e (f a) (step_names a)) assessments
unfolding serializable_logs
serializable_logs-map e f [] = refl
serializable_logs-map e f (a ∷ assessments) =
    ap (λ rest. serializable_log e (f a) (step_names a) ∷ rest)
      (serializable_logs-map e f assessments)

-- What is written for one step.
unfoldable pub identities : Evaluator → AssessmentLog → List String
identities e a =
    map (λ (s : Step). format_step_identity (resolve_complypack_ref e a.requirement_id) s.name)
      a.steps

-- What is written for one control.
written_steps : Evaluator → ControlEvaluation → List (List String)
written_steps e ce =
    map (λ (al : SerializableAssessmentLog). al.steps)
      (serializable_logs e ce.assessment_logs (step_names_of e ce.control.entry_id))

map_steps :
    (e : Evaluator) (f : AssessmentLog → GemaraAssessment) (same : Evaluator)
    → ((a : AssessmentLog) → (f a).requirement.entry_id ≡ a.requirement_id)
    → e.req_to_complypack_ref ≡ same.req_to_complypack_ref
    → (assessments : List AssessmentLog)
    → map
        (λ (al : SerializableAssessmentLog). al.steps)
        (serializable_logs e (map f assessments) (map step_names assessments))
      ≡ map (identities same) assessments
unfolding serializable_logs serializable_log identities step_names resolve_complypack_ref
map_steps e f same req refs [] = refl
map_steps e f same req refs (a ∷ assessments) =
    rw (map_steps e f same req refs assessments, req a, refs)
      (ap (λ x. x ∷ map (identities same) assessments)
        (map-map (λ (s : Step). s.name)
          (format_step_identity (resolve_complypack_ref same a.requirement_id)) _ (λ s. refl)
          a.steps))

module _ (env : OutputEnv) where
  written_steps-grouped :
      (e : Evaluator) (assessments : List AssessmentLog)
      → ((c : String) → step_names_of e c ≡ [])
      → (c : String)
      → written_steps (add_target env e assessments) (grouped env e assessments c)
        ≡ map (identities e) (assessments_of e c assessments)
  unfolding written_steps grouped complytime.Output.Evaluator.Grouped.with_logs logs_of
      complytime.Output.Evaluator.new_control_evaluation provider_to_gemara_assessment
  written_steps-grouped e assessments fresh c =
      rw (step_names_of-add_target env e assessments c, fresh c)
        (map_steps (add_target env e assessments) (provider_to_gemara_assessment env e) e
          (λ a. refl) (add_target-fields env e assessments).3 (assessments_of e c assessments))

  -- In the file of a new evaluator that was given some assessments, each control has an entry for
  -- each assessment that resolves to it, with the identities of its own steps; a step is named with
  -- the complypack that its requirement's id is mapped to.
  pub to_serializable-add_target :
      (policy target : String) (control plan complypack : Option (Table String))
      (references : List GemaraReference) (assessments : List AssessmentLog)
      → let e = new_evaluator policy target control plan complypack references in
        (log : EvaluationLog) × (gemara_log env (add_target env e assessments) ≡ some log)
        × (map
              (λ (ce : SerializableControlEvaluation).
                map (λ (al : SerializableAssessmentLog). al.steps) ce.assessment_logs)
              (to_serializable (add_target env e assessments) log).evaluations
            ≡ map
                (λ c. map (identities e) (assessments_of e c assessments))
                (first_occurrences [] (controls_of e assessments)))
  unfolding to_serializable written_steps new_evaluator step_names_of lookup
  to_serializable-add_target policy target control plan complypack references assessments =
      let e = new_evaluator policy target control plan complypack references in
      let known =
        gemara_log-add_target env policy target control plan complypack references assessments in
      let written = written_steps (add_target env e assessments) in
      (
        known.0,
        known.1,
        map-map _ _ written (λ ce. refl) known.0.evaluations
            ∙ ap (map written) known.2
            ∙ map-map (grouped env e assessments) written _
                (written_steps-grouped e assessments (λ c. refl))
                (first_occurrences [] (controls_of e assessments)),
      )

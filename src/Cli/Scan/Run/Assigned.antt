-- ===== src/Cli/Scan/Run/Assigned.antt =====
-- Which assessments of a scan reach the evaluator of a target.
use complytime.Base.Result.{Result-cases, ok}
use complytime.Config.{TargetConfig}
use complytime.Cli.Scan.Requirements.{resolve_assessment_id, resolve_assessment_ids}
use complytime.Cli.Scan.Run.{
  inject_workspace, ScanEnv, ScanOutput, TargetOutput, scan_single_target, add_output, scan_targets,
  empty_output, scan_all_targets, inject_workspace_into_targets, select_target, references_of,
  unseen_collisions, ResolvedMappings, Evaluators, build_evaluator, build_evaluators,
}
use complytime.Output.Evaluator.{OutputEnv, Evaluator}
use complytime.Output.Gemara.{GemaraReference}
use complytime.Output.References.{Merge, MappingCollision, merge_mapping_references}
use complytime.Output.References.Merged.{merge_mapping_references_lem}
use complytime.Policy.Groups.{EvaluatorGroup}
use complytime.Provider.Messages.{AssessmentLog, MappingReference}
use complytime.Base.Table.{Table}
use complytime.Base.{
  map-map, eq_refl, subst, true, Pairwise, false, contains, inr, inl, refl, ◌∙◌, sym, ap, ◌==◌,
  arith, [], some, if◌then◌else◌, ◌++◌, map, ◌≡◌, ◌∷◌, String, List,
}
use mathlib.Core.List.{append_assoc, append-nil, map-append}
use complytime.Base.Members.{Distinct}
use complytime.Base.Covers.{other_id}

-- Each target was scanned with the result beside it.
abbrev Scanned : ScanEnv → Table EvaluatorGroup → List TargetConfig → List TargetOutput → Type 0
Scanned env groups = Pairwise (λ t r. scan_single_target env groups t ≡ ok r)

-- The assessments of all targets, and the targets beside them.
all_results : List TargetOutput → List AssessmentLog
all_results [] = []
all_results (r ∷ rs) = r.results ++ all_results rs

all_targets : List TargetConfig → List TargetOutput → List String
all_targets (t ∷ ts) (r ∷ rs) = map (λ (_ : AssessmentLog). t.id) r.results ++ all_targets ts rs
all_targets ts rs = []

scan_targets_lem :
    (env : ScanEnv) (groups : Table EvaluatorGroup) (out : ScanOutput) (targets : List TargetConfig)
    (last : ScanOutput)
    → scan_targets env groups out targets ≡ ok last
    → (rs : List TargetOutput) × Scanned env groups targets rs
      × (last.assessments ≡ out.assessments ++ all_results rs)
      × (last.assessment_targets ≡ out.assessment_targets ++ all_targets targets rs)
unfolding scan_targets all_results all_targets add_output
scan_targets_lem env groups out [] last h =
    let same : out ≡ last = ground arith in
    (
      [],
      tt,
      ap (λ (o : ScanOutput). o.assessments) (sym same) ∙ sym (append-nil out.assessments),
      ap (λ (o : ScanOutput). o.assessment_targets) (sym same)
          ∙ sym (append-nil out.assessment_targets),
    )
scan_targets_lem env groups out (t ∷ ts) last h =
    elim (Result-cases (scan_single_target env groups t)) [
      | inl (e, failed) ↦ absurd (ground arith)
      | inr (r, scanned) ↦
          let (rs, others, results, targets) =
            scan_targets_lem env groups (add_output out t r) ts last
              (rw (scan_targets, scanned) at h) in
          (
            r ∷ rs,
            (scanned, others),
            results ∙ append_assoc out.assessments r.results (all_results rs),
            targets
                ∙ append_assoc out.assessment_targets (map (λ (_ : AssessmentLog). t.id) r.results)
                    (all_targets ts rs),
          )
    ]

module _ (f : AssessmentLog → AssessmentLog) where
  -- What the scans of the targets with one id returned.
  chosen : String → List TargetConfig → List TargetOutput → List AssessmentLog
  chosen id (t ∷ ts) (r ∷ rs) =
      if t.id == id then map f r.results ++ chosen id ts rs else chosen id ts rs
  chosen id ts rs = []

  select_target-append :
      (id target : String) (results assessments : List AssessmentLog) (targets : List String)
      (rest : List AssessmentLog)
      → select_target assessments targets id ≡ some rest
      → select_target
          (map f results ++ assessments)
          (map (λ (_ : AssessmentLog). target) results ++ targets)
          id
        ≡ some (if target == id then map f results ++ rest else rest)
  unfolding select_target
  select_target-append id target [] assessments targets rest h = ground arith
  select_target-append id target (a ∷ results) assessments targets rest h =
      rw (select_target, select_target-append id target results assessments targets rest h)
        (ground arith)

  select_target-chosen :
      (env : ScanEnv) (groups : Table EvaluatorGroup) (id : String) (ts : List TargetConfig)
      (rs : List TargetOutput)
      → Scanned env groups ts rs
      → select_target (map f (all_results rs)) (all_targets ts rs) id ≡ some (chosen id ts rs)
  unfolding select_target all_results all_targets chosen
  select_target-chosen env groups id [] [] h = refl
  select_target-chosen env groups id [] (r ∷ rs) h = absurd h
  select_target-chosen env groups id (t ∷ ts) [] h = absurd h
  select_target-chosen env groups id (t ∷ ts) (r ∷ rs) h =
      rw (map-append f r.results (all_results rs)) (
        select_target-append id t.id r.results (map f (all_results rs)) (all_targets ts rs)
          (chosen id ts rs) (select_target-chosen env groups id ts rs h.1))

  chosen_absent :
      (id : String) (ts : List TargetConfig) (rs : List TargetOutput)
      → contains (map (λ (t : TargetConfig). t.id) ts) id ≡ false
      → chosen id ts rs ≡ []
  unfolding chosen contains
  chosen_absent id [] rs h = refl
  chosen_absent id (t ∷ ts) [] h = refl
  chosen_absent id (t ∷ ts) (r ∷ rs) h = ground (arith, chosen_absent id ts rs)

module _ (oenv : OutputEnv) (repository : String) (mappings : ResolvedMappings)
    (policy_refs : List GemaraReference) (per_target : Table (List MappingReference)) where
  -- The evaluator of a target was given some assessments, and the merged references.
  abbrev Given : List AssessmentLog → TargetConfig → Evaluator → Type 0
  Given assessments t e =
      (merged : Merge) × (merge_mapping_references policy_refs (references_of per_target t.id)
        ≡ some merged)
      × (e ≡ build_evaluator oenv repository mappings t.id merged.result assessments)

  build_evaluators-Built :
      (selected : String → List AssessmentLog) (assessments : List AssessmentLog)
      (targets seen : List String)
      → ((id : String) → select_target assessments targets id ≡ some (selected id))
      → (ts : List TargetConfig)
      → (built : Evaluators) × (build_evaluators oenv repository mappings policy_refs per_target
            assessments targets seen ts
          ≡ some built)
        × Pairwise (λ t. Given (selected t.id) t) ts built.evaluators
  unfolding build_evaluators
  build_evaluators-Built selected assessments targets seen h [] =
      (record { evaluators = []; collisions = []; discarded = [] }, refl, tt)
  build_evaluators-Built selected assessments targets seen h (t ∷ ts) =
      let (merged, found, shape, collided, discarded, counted) =
        merge_mapping_references_lem policy_refs (references_of per_target t.id) in
      let new = unseen_collisions seen merged.collisions in
      let (rest, built, others) =
        build_evaluators-Built selected assessments targets
          (map (λ (c : MappingCollision). c.id) new ++ seen) h ts in
      (
        record {
          evaluators =
              build_evaluator oenv repository mappings t.id merged.result (selected t.id)
              ∷ rest.evaluators;
          collisions = new ++ rest.collisions;
          discarded = merged.discarded_empty_ids ++ rest.discarded;
        },
        rw (build_evaluators, found, h t.id, built) refl,
        ((merged, found, refl), others),
      )

  -- What a target's evaluator is after a scan: it has the assessments of the target's own scan, with
  -- their ids resolved.
  abbrev Assigned :
      ScanEnv → Table EvaluatorGroup → String → Table String → TargetConfig → Evaluator → Type 0
  Assigned env groups base_dir plan_to_req t e =
      (r : TargetOutput) × (scan_single_target env groups (inject_workspace base_dir t) ≡ ok r)
      × Given (resolve_assessment_ids plan_to_req r.results) t e

  assign :
      (env : ScanEnv) (groups : Table EvaluatorGroup) (base_dir : String)
      (plan_to_req : Table String) (selected : String → List AssessmentLog) (ts : List TargetConfig)
      (rs : List TargetOutput) (es : List Evaluator)
      → Scanned env groups (map (inject_workspace base_dir) ts) rs
      → Pairwise (λ t. Given (selected t.id) t) ts es
      → Distinct (map (λ (t : TargetConfig). t.id) ts)
      → ((id : String)
          → contains (map (λ (t : TargetConfig). t.id) ts) id ≡ true
          → selected id
            ≡ chosen (resolve_assessment_id plan_to_req) id (map (inject_workspace base_dir) ts) rs)
      → Pairwise (Assigned env groups base_dir plan_to_req) ts es
  unfolding chosen contains inject_workspace resolve_assessment_ids
  assign env groups base_dir plan_to_req selected [] rs [] s g d h = tt
  assign env groups base_dir plan_to_req selected [] rs (e ∷ es) s g d h = absurd g
  assign env groups base_dir plan_to_req selected (t ∷ ts) rs [] s g d h = absurd g
  assign env groups base_dir plan_to_req selected (t ∷ ts) [] (e ∷ es) s g d h = absurd s
  assign env groups base_dir plan_to_req selected (t ∷ ts) (r ∷ rs) (e ∷ es) s g d h =
      let own : selected t.id ≡ map (resolve_assessment_id plan_to_req) r.results =
        h t.id (ground (arith, eq_refl t.id))
        ∙ rw
            (
              chosen,
              eq_refl t.id,
              chosen_absent (resolve_assessment_id plan_to_req) t.id
                  (map (inject_workspace base_dir) ts) rs
                  (rw
                    (map-map (inject_workspace base_dir) (λ (u : TargetConfig). u.id)
                      (λ (u : TargetConfig). u.id) (λ u. refl) ts)
                    d.0),
            )
            (append-nil (map (resolve_assessment_id plan_to_req) r.results)) in
      (
        (r, s.0, subst (λ logs. Given logs t e) own g.0),
        assign env groups base_dir plan_to_req selected ts rs es s.1 g.1 d.1 (λ id member.
            h id (ground (arith, member))
            ∙ ground (arith, other_id (map (λ (u : TargetConfig). u.id) ts) t.id id d.0 member)),
      )

  -- Each target's evaluator is built of the assessments that the target's own scan returned, with
  -- their ids resolved, and of no others; where the ids of the targets differ and the scans return.
  -- No index of the parallel slices is out of range.
  pub build_evaluators-assigned :
      (env : ScanEnv) (groups : Table EvaluatorGroup) (base_dir : String)
      (plan_to_req : Table String) (ts : List TargetConfig) (out : ScanOutput)
      → scan_all_targets env groups (inject_workspace_into_targets ts base_dir) ≡ ok out
      → Distinct (map (λ (t : TargetConfig). t.id) ts)
      → (built : Evaluators) × (build_evaluators oenv repository mappings policy_refs per_target
            (resolve_assessment_ids plan_to_req out.assessments)
            out.assessment_targets
            []
            ts
          ≡ some built)
        × Pairwise
            (λ t e.
              (r : TargetOutput) × (scan_single_target env groups (inject_workspace base_dir t)
                ≡ ok r)
              × ((merged : Merge) × (merge_mapping_references policy_refs
                      (references_of per_target t.id)
                    ≡ some merged)
                  × (e
                      ≡ build_evaluator oenv repository mappings t.id merged.result
                          (resolve_assessment_ids plan_to_req r.results))))
            ts
            built.evaluators
  unfolding scan_all_targets empty_output inject_workspace_into_targets resolve_assessment_ids
  build_evaluators-assigned env groups base_dir plan_to_req ts out h distinct =
      let (rs, scanned, results, targets) =
        scan_targets_lem env groups empty_output (map (inject_workspace base_dir) ts) out h in
      let f = resolve_assessment_id plan_to_req in
      let selected = λ (id : String). chosen f id (map (inject_workspace base_dir) ts) rs in
      let (built, found, given) =
        build_evaluators-Built selected (map f out.assessments) out.assessment_targets []
          (λ id.
            rw (results, targets)
              (select_target-chosen f env groups id (map (inject_workspace base_dir) ts) rs
                scanned))
          ts in
      (
        built,
        found,
        assign env groups base_dir plan_to_req selected ts rs built.evaluators scanned given
            distinct (λ id member. refl),
      )

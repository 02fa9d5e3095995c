-- ===== src/Cli/Scan/Run.antt =====
-- cmd/complyctl/cli/scan.go: the scan of all targets and the evaluators of what it returns.
pub mod Assigned
use complytime.Base.Result.{Result, ok, err, Check, reject_if, ◌>>=◌, ◌>>◌}
use complytime.Config.{TargetConfig}
use complytime.Output.Evaluator.{OutputEnv, Evaluator, new_evaluator, add_target}
use complytime.Output.Gemara.{GemaraReference}
use complytime.Output.References.{Merge, MappingCollision, merge_mapping_references}
use complytime.Output.Summary.{nothing_assessed}
use complytime.Policy.Groups.{EvaluatorGroup}
use complytime.Provider.Manager.{LoadedProvider, ManagerError, ScanResult, route_scan_result}
use complytime.Provider.Messages.{AssessmentLog, MappingReference}
use complytime.Provider.Requests.{Target}
use complytime.Base.{
  contains, ◌==◌, length, if◌then◌else◌, none, ltb, some, Option, ◌∷◌, Bool, map, ℕ, ◌++◌, [], List,
  String,
}
use complytime.Base.Table.{lookup, insert, Table}

abbrev pub workspace_var_key : String
workspace_var_key = "workspace"

-- internal/complytime/consts.go.
unfoldable pub with_workspace_var : Table String → String → Table String
with_workspace_var vars workspace = insert workspace_var_key workspace vars

unfoldable pub inject_workspace : String → TargetConfig → TargetConfig
inject_workspace base_dir t = record t { variables = with_workspace_var t.variables base_dir }

unfoldable pub inject_workspace_into_targets : List TargetConfig → String → List TargetConfig
inject_workspace_into_targets targets base_dir = map (inject_workspace base_dir) targets

-- What a scan asks and hears of the plugins: `sort` is slices.Sort of texts.
pub record ScanEnv : Type 0 where
  pub log_file : String
  pub exceeded : String → Bool
  pub plugins : Table LoadedProvider
  pub sort : List String → List String

pub record ScanOutput : Type 0 where
  pub assessments : List AssessmentLog
  pub assessment_targets : List String
  pub errors : List String
  pub mapping_references : Table (List MappingReference)

-- The results of one target.
pub record TargetOutput : Type 0 where
  pub results : List AssessmentLog
  pub operational_errors : List String
  pub mapping_refs : List MappingReference

unfoldable pub no_output : TargetOutput
no_output = record { results = []; operational_errors = []; mapping_refs = [] }

unfoldable pub scan_evaluators :
    ScanEnv → List Target → TargetOutput → List String → Result ManagerError TargetOutput
scan_evaluators env targets out [] = ok out
scan_evaluators env targets out (evaluator ∷ evaluators) =
    elim (route_scan_result env.log_file env.exceeded env.plugins evaluator targets) [
      | err e ↦ err e
      | ok result ↦
          scan_evaluators env targets
            (record {
              results = out.results ++ result.assessments;
              operational_errors = out.operational_errors ++ result.errors;
              mapping_refs = out.mapping_refs ++ result.mapping_references;
            })
            evaluators
    ]

unfoldable pub evaluator_ids_of : Table EvaluatorGroup → List String
evaluator_ids_of groups = map (λ (g : String × EvaluatorGroup). g.0) groups

unfoldable pub scan_single_target :
    ScanEnv → Table EvaluatorGroup → TargetConfig → Result ManagerError TargetOutput
unfolding no_output
scan_single_target env groups target =
    scan_evaluators env (record { target_id = target.id; variables = target.variables } ∷ [])
      no_output (env.sort (evaluator_ids_of groups))

unfoldable pub references_of : Table (List MappingReference) → String → List MappingReference
references_of refs target_id = elim (lookup target_id refs) [ some rs ↦ rs | none ↦ [] ]

unfoldable pub add_output : ScanOutput → TargetConfig → TargetOutput → ScanOutput
add_output out target one = record {
  assessments = out.assessments ++ one.results;
  assessment_targets = out.assessment_targets ++ map (λ (_ : AssessmentLog). target.id) one.results;
  errors = out.errors ++ one.operational_errors;
  mapping_references =
      insert target.id (references_of out.mapping_references target.id ++ one.mapping_refs)
        out.mapping_references;
}

unfoldable pub scan_targets :
    ScanEnv → Table EvaluatorGroup → ScanOutput → List TargetConfig → Result ManagerError ScanOutput
scan_targets env groups out [] = ok out
scan_targets env groups out (target ∷ targets) = elim (scan_single_target env groups target) [
  | err e ↦ err e
  | ok one ↦ scan_targets env groups (add_output out target one) targets
]

unfoldable pub empty_output : ScanOutput
empty_output = record {
  assessments = [];
  assessment_targets = [];
  errors = [];
  mapping_references = [];
}

unfoldable pub scan_all_targets :
    ScanEnv → Table EvaluatorGroup → List TargetConfig → Result ManagerError ScanOutput
unfolding empty_output
scan_all_targets env groups targets = scan_targets env groups empty_output targets

-- The assessments of one target. It is `none` where the index passes the end of the targets.
unfoldable pub select_target :
    List AssessmentLog → List String → String → Option (List AssessmentLog)
select_target [] targets target_id = some []
select_target (a ∷ assessments) [] target_id = none
select_target (a ∷ assessments) (t ∷ targets) target_id =
    elim (select_target assessments targets target_id) [
      | none ↦ none
      | some rest ↦ some (if t == target_id then a ∷ rest else rest)
    ]

pub record ResolvedMappings : Type 0 where
  pub req_to_control : Table String
  pub req_to_plan : Table String
  pub req_to_complypack_ref : Table String

-- The collisions whose id was not seen.
unfoldable pub unseen_collisions : List String → List MappingCollision → List MappingCollision
unseen_collisions seen [] = []
unseen_collisions seen (c ∷ collisions) =
    let rest = unseen_collisions seen collisions in
    let more = unseen_collisions (c.id ∷ seen) collisions in
    if contains seen c.id then rest else c ∷ more

pub record Evaluators : Type 0 where
  pub evaluators : List Evaluator
  pub collisions : List MappingCollision
  pub discarded : List String

module _ (env : OutputEnv) (repository : String) (mappings : ResolvedMappings) where
  -- One round of the loop of buildEvaluators.
  unfoldable pub build_evaluator : String → List GemaraReference → List AssessmentLog → Evaluator
  build_evaluator target_id references assessments =
      add_target env
        (new_evaluator repository target_id (some mappings.req_to_control)
          (some mappings.req_to_plan) (some mappings.req_to_complypack_ref) references)
        assessments

  -- The loop. It is `none` where an index is out of range.
  unfoldable pub build_evaluators :
      List GemaraReference
      → Table (List MappingReference)
      → List AssessmentLog
      → List String
      → List String
      → List TargetConfig
      → Option Evaluators
  build_evaluators policy_refs per_target assessments targets seen [] =
      some (record { evaluators = []; collisions = []; discarded = [] })
  build_evaluators policy_refs per_target assessments targets seen (target ∷ policy_targets) =
      elim (merge_mapping_references policy_refs (references_of per_target target.id)) [
        | none ↦ none
        | some merged ↦ elim (select_target assessments targets target.id) [
          | none ↦ none
          | some selected ↦
              let new = unseen_collisions seen merged.collisions in
              let ids = map (λ (c : MappingCollision). c.id) new in
              elim (build_evaluators policy_refs per_target assessments targets (ids ++ seen)
                policy_targets) [
                  | none ↦ none
                  | some rest ↦ some (record {
                    evaluators = build_evaluator target.id merged.result selected ∷ rest.evaluators;
                    collisions = new ++ rest.collisions;
                    discarded = merged.discarded_empty_ids ++ rest.discarded;
                  })
                ]
        ]
      ]

pub data ScanError : Type 0 where
  operational : ℕ → ScanError
  zero_assessed : ScanError

unfoldable pub check_operational_errors : List String → Check ScanError
check_operational_errors errors = reject_if (ltb 0 (length errors)) (operational (length errors))

unfoldable pub check_nothing_assessed : OutputEnv → List AssessmentLog → Check ScanError
check_nothing_assessed env assessments =
    reject_if (nothing_assessed env.update assessments) zero_assessed

-- What processScanOutput returns once the reports are written.
unfoldable pub scan_outcome : OutputEnv → ScanOutput → Check ScanError
scan_outcome env out =
    check_operational_errors out.errors >> check_nothing_assessed env out.assessments

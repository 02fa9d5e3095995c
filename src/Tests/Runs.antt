-- ===== src/Tests/Runs.antt =====
-- Whole runs of the scan command: theorems at concrete data.
use complytime.Base.Result.{ok}
use complytime.Config.{TargetConfig}
use complytime.Cli.Scan.Selection.{
  resolve_target, resolve_policy, filter_target_by_id, filter_targets_for_policy,
}
use complytime.Cli.Scan.Freshness.{
  needs_regeneration, generated_state, complypack_digests_by_evaluator,
}
use complytime.Cli.Scan.Freshness.Settled.{needs_regeneration-generated}
use complytime.Cli.Scan.Requirements.{
  extract_plan_to_req_map, reverse_map, resolve_assessment_id, build_req_to_complypack_ref,
  resolve_assessment_ids,
}
use complytime.Cli.Scan.Requirements.Resolved.{
  planned, plan_ids, requirement_ids, reverse_map-resolved,
}
use complytime.Cli.Scan.Requirements.Unnamed.{identities-unmatched}
use complytime.Cli.Scan.Run.{
  ScanEnv, ScanOutput, TargetOutput, ResolvedMappings, Evaluators, scan_all_targets,
  scan_single_target, inject_workspace, inject_workspace_into_targets, build_evaluators,
  build_evaluator, references_of,
}
use complytime.Cli.Scan.Run.Assigned.{build_evaluators-assigned}
use complytime.Cache.State.{State, PolicyState}
use complytime.Output.Evaluator.{new_evaluator}
use complytime.Output.References.{Merge, merge_mapping_references}
use complytime.Output.Serializable.Identities.{identities}
use complytime.Policy.Graph.{Assessment, DependencyGraph}
use complytime.Policy.Groups.{EvaluatorGroup, group_by_evaluator, extract_assessment_configs}
use complytime.Policy.Groups.Partition.{configs_of, routed, group_by_evaluator-configs}
use complytime.Provider.Messages.{AssessmentLog, Step}
use complytime.Provider.Requests.{AssessmentConfiguration}
use complytime.Tests.Outputs.{env}
use complytime.Tests.Scans.{assessed, loaded}
use complytime.Base.{
  ◌==◌, refl, Pairwise, all, map, ◌<>◌, ◌≢◌, keep, contains, ◌∷◌, false, not, true, none, All, [],
  some, ◌≡◌, List, String,
}
use complytime.Base.Members.{Distinct}
use complytime.Base.Table.{lookup, Table}
use complytime.Base.Keys.{keys}

abbrev target : String → List String → TargetConfig
target id policies = record { id = id; policies = policies; variables = [] }

abbrev targets : List TargetConfig
targets = target "web" ("nist" ∷ []) ∷ target "db" ("cis" ∷ "nist" ∷ []) ∷ []

target_resolved : resolve_target targets "db" ≡ ok (target "db" ("cis" ∷ "nist" ∷ []))
unfolding resolve_target complytime.Cli.Scan.Selection.find_target
target_resolved = refl

policy_resolved : resolve_policy (some (target "db" ("cis" ∷ "nist" ∷ []))) "nist" ≡ ok "nist"
unfolding resolve_policy contains
policy_resolved = refl

abbrev graph : DependencyGraph
graph = record {
  policy_id = "nist";
  controls = [];
  assessments =
      record { id = "plan-1"; requirement_id = "AC-1"; evaluator_id = "opa"; parameters = [] }
      ∷ record { id = "web"; requirement_id = "AU-2"; evaluator_id = "ampel"; parameters = [] }
      ∷ [];
  evaluator_id = "";
  mapping_references = [];
}

abbrev configs : List AssessmentConfiguration
configs =
    record { plan_id = "plan-1"; requirement_id = "AC-1"; parameters = []; evaluator_id = "opa" }
    ∷ record { plan_id = "web"; requirement_id = "AU-2"; parameters = []; evaluator_id = "ampel" }
    ∷ []

extracted : extract_assessment_configs graph ≡ configs
unfolding extract_assessment_configs
extracted = refl

group_by_evaluator-configs_example :
    configs_of (group_by_evaluator configs graph) "opa"
    ≡ keep (λ c. routed graph c == "opa") configs
group_by_evaluator-configs_example = group_by_evaluator-configs configs graph "opa"

plans_Distinct : Distinct (plan_ids (planned graph.assessments))
unfolding plan_ids planned keep contains
plans_Distinct = (refl, (refl, tt))

plans_named : contains (plan_ids (planned graph.assessments)) "" ≡ false
unfolding plan_ids planned keep contains
plans_named = refl

requirements_Distinct : Distinct (requirement_ids (planned graph.assessments))
unfolding requirement_ids planned keep contains
requirements_Distinct = (refl, (refl, tt))

reverse_map-resolved_example :
    let m = extract_plan_to_req_map (some graph) in
    All
      (λ (plan : Assessment).
        ((a : AssessmentLog)
          → (resolve_assessment_id m (record a { plan_id = plan.id })).requirement_id
            ≡ plan.requirement_id)
        × (lookup plan.requirement_id (reverse_map m) ≡ some plan.id))
      (planned graph.assessments)
reverse_map-resolved_example =
    reverse_map-resolved graph plans_Distinct plans_named requirements_Distinct

abbrev groups : Table EvaluatorGroup
groups = ("opa", record { evaluator_id = "opa"; configs = configs }) ∷ []

abbrev pack : String → PolicyState
pack evaluator = record {
  version = "1";
  digest = "sha256:" <> evaluator;
  evaluator_id = evaluator;
  last_updated = 0;
  verified = false;
  signer_identity = "";
  issuer = "";
  verified_at = 0;
  policy_title = "";
  policy_evaluator = "";
  control_count = 0;
  assessment_count = 0;
}

abbrev packs : Table PolicyState
packs = ("packs/opa", pack "opa") ∷ ("packs/ampel", pack "ampel") ∷ []

abbrev resolved : AssessmentLog
resolved = record (assessed "plan-1") { requirement_id = "AC-1" }

identities-unmatched_example :
    identities
      (new_evaluator "nist" "web" none none
        (some (build_req_to_complypack_ref (some packs) groups))
        [])
      resolved
    ≡ map (λ (s : Step). s.name) resolved.steps
unfolding contains
identities-unmatched_example =
    identities-unmatched (some packs) groups "nist" "web" none none [] resolved (refl, tt)

abbrev state : State
state = record { last_sync = 0; policies = none; complypacks = some packs }

-- A policy that uses one of the two evaluators generates again with each scan.
needs_regeneration-generated_example :
    needs_regeneration
      (λ _. true)
      (some (
        generated_state "now" "nist" "sha256:p"
          ("opa" ∷ [])
          (complypack_digests_by_evaluator state)
          ("opa" ∷ [])))
      "sha256:p"
      (complypack_digests_by_evaluator state)
    ≡ not (all (contains ("opa" ∷ [])) (keys (complypack_digests_by_evaluator state)))
unfolding all
needs_regeneration-generated_example =
    needs_regeneration-generated (λ _. true) "now" "nist" "sha256:p" ("opa" ∷ []) ("opa" ∷ []) state
      refl

generated_again :
    not (all (contains ("opa" ∷ [])) (keys (complypack_digests_by_evaluator state))) ≡ true
unfolding all complypack_digests_by_evaluator complytime.Cli.Scan.Freshness.digests_of
    complytime.Cli.Scan.Freshness.add_digest complytime.Base.Table.insert contains
generated_again = refl

abbrev scan_env : ScanEnv
scan_env = record { log_file = "log"; exceeded = λ _. false; plugins = loaded; sort = λ ids. ids }

abbrev one : String → TargetOutput
one id = record { results = assessed id ∷ []; operational_errors = []; mapping_refs = [] }

abbrev scanned : ScanOutput
scanned = record {
  assessments = assessed "web" ∷ assessed "db" ∷ [];
  assessment_targets = "web" ∷ "db" ∷ [];
  errors = [];
  mapping_references = ("web", []) ∷ ("db", []) ∷ [];
}

scan_returned :
    scan_all_targets scan_env groups (inject_workspace_into_targets targets "/work") ≡ ok scanned
unfolding scan_all_targets complytime.Cli.Scan.Run.scan_targets inject_workspace_into_targets
    scan_single_target complytime.Cli.Scan.Run.scan_evaluators
    complytime.Cli.Scan.Run.evaluator_ids_of complytime.Provider.Manager.route_scan_result
    complytime.Provider.Manager.get_provider lookup complytime.Cli.Scan.Run.add_output
    complytime.Provider.Manager.scan_with complytime.Base.Table.insert inject_workspace
    references_of
scan_returned = refl

targets_Distinct : Distinct (map (λ (t : TargetConfig). t.id) targets)
unfolding contains
targets_Distinct = (refl, (refl, tt))

abbrev mappings : ResolvedMappings
mappings = record { req_to_control = []; req_to_plan = []; req_to_complypack_ref = [] }

build_evaluators-assigned_example :
    (built : Evaluators) × (build_evaluators env "nist" mappings [] []
        (resolve_assessment_ids (("web", "AU-2") ∷ []) scanned.assessments)
        scanned.assessment_targets
        []
        targets
      ≡ some built)
    × Pairwise
        (λ t e.
          (r : TargetOutput) × (scan_single_target scan_env groups (inject_workspace "/work" t)
            ≡ ok r)
          × ((merged : Merge) × (merge_mapping_references [] (references_of [] t.id) ≡ some merged)
              × (e
                  ≡ build_evaluator env "nist" mappings t.id merged.result
                      (resolve_assessment_ids (("web", "AU-2") ∷ []) r.results))))
        targets
        built.evaluators
build_evaluators-assigned_example =
    build_evaluators-assigned env "nist" mappings [] [] scan_env groups "/work"
      (("web", "AU-2") ∷ []) targets scanned scan_returned targets_Distinct

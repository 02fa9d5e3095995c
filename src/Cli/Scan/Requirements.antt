-- ===== src/Cli/Scan/Requirements.antt =====
-- cmd/complyctl/cli/scan.go: the maps between plans, requirements, controls and complypacks. A graph
-- that is nil is `none`.
pub mod Resolved
pub mod Unnamed
use complytime.Cache.State.{PolicyState}
use complytime.Policy.Graph.{Assessment, CatalogControl, Control, DependencyGraph}
use complytime.Policy.Groups.{EvaluatorGroup}
use complytime.Provider.Messages.{AssessmentLog}
use complytime.Provider.Requests.{AssessmentConfiguration, match_id}
use complytime.Base.{
  ◌<>◌, none, ◌||◌, ◌==◌, some, map, if◌then◌else◌, [], ◌∷◌, String, Option, List,
}
use complytime.Base.Table.{lookup, insert, Table}

-- The writes `m[key] = value` for each key.
unfoldable pub write_all : List String → String → Table String → Table String
write_all [] value m = m
write_all (key ∷ keys) value m = write_all keys value (insert key value m)

unfoldable pub add_controls : List CatalogControl → Table String → Table String
add_controls [] m = m
add_controls (c ∷ controls) m = add_controls controls (write_all c.assessment_requirements c.id m)

unfoldable pub add_catalogs : List Control → Table String → Table String
add_catalogs [] m = m
add_catalogs (ctrl ∷ catalogs) m =
    add_catalogs catalogs (elim ctrl.parsed [ some controls ↦ add_controls controls m | none ↦ m ])

unfoldable pub extract_req_to_control_map : Option DependencyGraph → Table String
extract_req_to_control_map none = []
extract_req_to_control_map (some graph) = add_catalogs graph.controls []

unfoldable pub add_plans : List Assessment → Table String → Table String
add_plans [] m = m
add_plans (a ∷ assessments) m =
    add_plans assessments (if a.requirement_id == "" then m else insert a.id a.requirement_id m)

unfoldable pub extract_plan_to_req_map : Option DependencyGraph → Table String
extract_plan_to_req_map none = []
extract_plan_to_req_map (some graph) = add_plans graph.assessments []

unfoldable pub add_reversed : Table String → Table String → Table String
add_reversed [] r = r
add_reversed (entry ∷ m) r = add_reversed m (insert entry.1 entry.0 r)

unfoldable pub reverse_map : Table String → Table String
reverse_map m = add_reversed m []

unfoldable pub resolve_assessment_id : Table String → AssessmentLog → AssessmentLog
resolve_assessment_id plan_to_req a =
    let match = if a.plan_id == "" then a.requirement_id else a.plan_id in
    elim (lookup match plan_to_req) [
      | some requirement ↦ record a { requirement_id = requirement }
      | none ↦ if a.requirement_id == "" then record a { requirement_id = match } else a
    ]

unfoldable pub resolve_assessment_ids : Table String → List AssessmentLog → List AssessmentLog
resolve_assessment_ids plan_to_req = map (resolve_assessment_id plan_to_req)

-- The reference of each evaluator's complypack.
unfoldable pub add_refs : Table PolicyState → Table String → Table String
add_refs [] refs = refs
add_refs (entry ∷ packs) refs =
    let ps = entry.1 in
    add_refs packs (
      if ps.digest == "" || ps.evaluator_id == ""
      then refs
      else insert ps.evaluator_id (entry.0 <> "@" <> ps.digest) refs)

unfoldable pub match_ids : List AssessmentConfiguration → List String
match_ids = map match_id

unfoldable pub add_groups : Table String → Table EvaluatorGroup → Table String → Table String
add_groups refs [] m = m
add_groups refs (entry ∷ groups) m = add_groups refs groups (elim (lookup entry.0 refs) [
  | some ref ↦ write_all (match_ids entry.1.configs) ref m
  | none ↦ m
])

-- buildReqToComplypackRef, over the complypacks of the state, `none` where it cannot be loaded.
unfoldable pub build_req_to_complypack_ref :
    Option (Table PolicyState) → Table EvaluatorGroup → Table String
build_req_to_complypack_ref none groups = []
build_req_to_complypack_ref (some packs) groups = add_groups (add_refs packs []) groups []

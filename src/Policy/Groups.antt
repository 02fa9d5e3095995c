-- ===== src/Policy/Groups.antt =====
-- internal/policy/assessment.go.
pub mod Partition
use complytime.Policy.Graph.{Assessment, DependencyGraph}
use complytime.Provider.Requests.{AssessmentConfiguration}
use complytime.Base.{none, ◌++◌, some, [], ◌==◌, if◌then◌else◌, ◌∷◌, map, List, String}
use complytime.Base.Table.{lookup, insert, Table}

pub record EvaluatorGroup : Type 0 where
  pub evaluator_id : String
  pub configs : List AssessmentConfiguration

unfoldable pub extract_assessment_configs : DependencyGraph → List AssessmentConfiguration
extract_assessment_configs graph =
    map
      (λ (a : Assessment). record {
        plan_id = a.id;
        requirement_id = a.requirement_id;
        parameters = a.parameters;
        evaluator_id = a.evaluator_id;
      })
      graph.assessments

-- One round of the loop. A group that is missing is the zero value.
unfoldable pub add_config : Table EvaluatorGroup → AssessmentConfiguration → Table EvaluatorGroup
add_config groups cfg =
    insert cfg.evaluator_id
      (record {
        evaluator_id = cfg.evaluator_id;
        configs =
            (elim (lookup cfg.evaluator_id groups) [ some g ↦ g.configs | none ↦ [] ]) ++ cfg ∷ [];
      })
      groups

unfoldable pub add_configs :
    Table EvaluatorGroup → List AssessmentConfiguration → Table EvaluatorGroup
add_configs groups [] = groups
add_configs groups (cfg ∷ configs) = add_configs (add_config groups cfg) configs

unfoldable pub group_by_evaluator :
    List AssessmentConfiguration → DependencyGraph → Table EvaluatorGroup
group_by_evaluator configs graph =
    if graph.evaluator_id == ""
    then add_configs [] configs
    else (graph.evaluator_id, record { evaluator_id = graph.evaluator_id; configs = configs }) ∷ []

-- ===== src/Policy/Graph.antt =====
-- internal/policy/resolver.go: the resolved graph of a policy. Of a parsed catalog there are its
-- controls with the ids of their requirements. A nil map of parameters is an empty table.
use complytime.Base.{String, Option, List}
use complytime.Base.Table.{Table}
use complytime.Output.Gemara.{GemaraReference}

pub record CatalogControl : Type 0 where
  pub id : String
  pub assessment_requirements : List String

pub record Control : Type 0 where
  pub id : String
  pub content : String
  pub parsed : Option (List CatalogControl)

pub record Assessment : Type 0 where
  pub id : String
  pub requirement_id : String
  pub evaluator_id : String
  pub parameters : Table String

pub record DependencyGraph : Type 0 where
  pub policy_id : String
  pub controls : List Control
  pub assessments : List Assessment
  pub evaluator_id : String
  pub mapping_references : List GemaraReference

-- ===== src/Provider/Requests.antt =====
-- pkg/provider/client.go: the requests to a plugin and the answers to them. A nil map is an empty
-- table here.
use complytime.Base.{String, Bool, List, ◌==◌, if◌then◌else◌}
use complytime.Base.Table.{Table}

pub record AssessmentConfiguration : Type 0 where
  pub plan_id : String
  pub requirement_id : String
  pub parameters : Table String
  pub evaluator_id : String

unfoldable pub match_id : AssessmentConfiguration → String
match_id c = if c.plan_id == "" then c.requirement_id else c.plan_id

pub record GenerateRequest : Type 0 where
  pub global_variables : Table String
  pub configuration : List AssessmentConfiguration
  pub target_variables : Table String
  pub complypack_content_path : String

pub record GenerateResponse : Type 0 where
  pub success : Bool
  pub error_message : String

pub record Target : Type 0 where
  pub target_id : String
  pub variables : Table String

pub record DescribeResponse : Type 0 where
  pub healthy : Bool
  pub version : String
  pub error_message : String
  pub required_global_variables : List String
  pub required_target_variables : List String
  pub optional_target_variable_groups : List String

-- ===== src/Config.antt =====
-- internal/complytime/config.go: the workspace configuration, less the reading of its file. YAML,
-- the environment and oras-go's ParseReference are arguments.
pub mod Verification
pub mod Reference
pub mod Entries
pub mod Targets
use complytime.Base.{String, Bool, Option, List}
use complytime.Base.Integers.{ℤ}
use complytime.Base.Table.{Table}

pub record VerificationConfig : Type 0 where
  pub issuer : String
  pub identity : String
  pub key : String
  pub trusted_root : String

pub record PolicyEntry : Type 0 where
  pub url : String
  pub id : String
  pub verification : Option VerificationConfig
  pub skip_verify : Bool

pub record TargetConfig : Type 0 where
  pub id : String
  pub policies : List String
  pub variables : Table String

pub record WorkspaceConfig : Type 0 where
  pub version : ℤ
  pub policies : List PolicyEntry
  pub complypacks : List PolicyEntry
  pub targets : List TargetConfig
  pub variables : Table String
  pub verification : Option VerificationConfig

-- ===== src/Config/Targets.antt =====
-- internal/complytime/config.go: Validate, with its checks of the targets.
pub mod Known
use complytime.Base.{
  ℕ, String, Bool, true, false, not, ◌&&◌, ◌||◌, nat_eq, List, [], ◌∷◌, map, ◌==◌, contains,
  if◌then◌else◌,
}
use complytime.Base.Integers.{ℤ, pos, negsuc}
use complytime.Base.Result.{Result, Check, ok, err, ◌>>=◌, ◌>>◌, map_err, reject_if}
use complytime.Config.{PolicyEntry, TargetConfig, WorkspaceConfig}
use complytime.Config.Verification.{VerificationError, validate_verification_config}
use complytime.Config.Reference.{Parsers, effective_id}
use complytime.Config.Entries.{EntryError, validate_entries}

pub data ConfigError : Type 0 where
  unsupported_version : ℤ → ConfigError
  no_policies empty_target_id : ConfigError
  invalid_entries : EntryError → ConfigError
  invalid_workspace_verification : VerificationError → ConfigError
  duplicate_target no_target_policies : String → ConfigError
  unknown_policy duplicate_policy : String → String → ConfigError

abbrev pub current_workspace_version : ℕ
current_workspace_version = 1

-- No version, which is 0, or the current one.
unfoldable pub is_supported : ℤ → Bool
is_supported (pos n) = nat_eq n 0 || nat_eq n current_workspace_version
is_supported (negsuc n) = false

abbrev pub is_empty {ℓ} : {A : Type ℓ} → List A → Bool
is_empty [] = true
is_empty (x ∷ xs) = false

-- The policies of one target, with those seen before; `known` are the effective ids.
unfoldable pub validate_target_policies :
    String → List String → List String → List String → Check ConfigError
validate_target_policies target known seen [] = ok tt
validate_target_policies target known seen (pid ∷ pids) = do
  reject_if (not (contains known pid)) (unknown_policy target pid)
  reject_if (contains seen pid) (duplicate_policy target pid)
  validate_target_policies target known (pid ∷ seen) pids

unfoldable pub validate_targets : List String → List String → List TargetConfig → Check ConfigError
validate_targets known seen [] = ok tt
validate_targets known seen (target ∷ targets) = do
  reject_if (target.id == "") empty_target_id
  reject_if (contains seen target.id) (duplicate_target target.id)
  reject_if (is_empty target.policies) (no_target_policies target.id)
  validate_target_policies target.id known [] target.policies
  validate_targets known (target.id ∷ seen) targets

-- Validate. The answer is the configuration as it stands afterwards, its trusted roots cleaned.
unfoldable pub validate :
    Parsers
    → (String → String)
    → (String → Bool)
    → WorkspaceConfig
    → Result ConfigError WorkspaceConfig
validate parsers clean stat config = do
  reject_if (not (is_supported config.version)) (unsupported_version config.version)
  reject_if (is_empty config.policies) no_policies
  policies ← map_err invalid_entries (validate_entries parsers clean stat [] [] config.policies)
  complypacks ←
      map_err invalid_entries (validate_entries parsers clean stat [] [] config.complypacks)
  verification ←
      map_err invalid_workspace_verification
        (validate_verification_config clean stat config.verification)
  validate_targets (map (effective_id parsers) config.policies) [] config.targets
  ok (record config { policies = policies; complypacks = complypacks; verification = verification })

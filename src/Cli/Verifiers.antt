-- ===== src/Cli/Verifiers.antt =====
-- cmd/complyctl/cli/get.go: which verifier each entry is synced with. The construction of a verifier
-- is the parameter `build`, and a verifier is a value of an unknown type.
pub mod Resolved
use complytime.Base.{String, Bool, ◌&&◌, Option, none, some, List, [], ◌∷◌, ◌==◌, if◌then◌else◌}
use complytime.Base.Result.{Result, ok, err}
use complytime.Config.{VerificationConfig, PolicyEntry}
use complytime.Config.Verification.{is_configured}

-- The equality of two blocks as keys of a map.
unfoldable pub config_eq : VerificationConfig → VerificationConfig → Bool
config_eq a b =
    a.issuer == b.issuer
    && a.identity == b.identity
    && a.key == b.key
    && a.trusted_root == b.trusted_root

-- The entry's block, or else the workspace's; `none` where neither is configured.
unfoldable pub effective_config :
    PolicyEntry → Option VerificationConfig → Option VerificationConfig
effective_config entry workspace =
    if is_configured entry.verification
    then entry.verification
    else if is_configured workspace
    then workspace
    else none

abbrev pub VerifierCache : Type 0 → Type 0
VerifierCache Verifier = List (VerificationConfig × Verifier)

module _ {Verifier : Type 0} where
  unfoldable pub find_verifier : VerificationConfig → VerifierCache Verifier → Option Verifier
  find_verifier cfg [] = none
  find_verifier cfg ((c, vf) ∷ m) =
      let rest = find_verifier cfg m in if config_eq c cfg then some vf else rest

  module _ (build : VerificationConfig → Result String Verifier) where
    -- resolveVerifier. The cache is nil under --skip-verify. No options are `none`.
    unfoldable pub resolve_verifier :
        PolicyEntry
        → Option VerificationConfig
        → Option (VerifierCache Verifier)
        → Option (VerifierCache Verifier) × Result String (Option Verifier)
    resolve_verifier entry workspace vf_cache =
        if entry.skip_verify then (vf_cache, ok none) else elim (effective_config entry workspace) [
          | none ↦ (vf_cache, ok none)
          | some cfg ↦ elim vf_cache [
            | none ↦ (none, ok none)
            | some m ↦ elim (find_verifier cfg m) [
              | some vf ↦ (some m, ok (some vf))
              | none ↦ elim (build cfg) [
                | err e ↦ (some m, err e)
                | ok vf ↦ (some ((cfg, vf) ∷ m), ok (some vf))
              ]
            ]
          ]
        ]

    -- The entries of a run in their order, one of which may fail while the others go on.
    unfoldable pub resolve_all :
        List PolicyEntry
        → Option VerificationConfig
        → Option (VerifierCache Verifier)
        → List (Result String (Option Verifier))
    resolve_all [] workspace vf_cache = []
    resolve_all (entry ∷ entries) workspace vf_cache =
        let (vf_cache', r) = resolve_verifier entry workspace vf_cache in
        r ∷ resolve_all entries workspace vf_cache'

    -- syncAll makes the cache only for a run that has a workspace block.
    unfoldable pub init_cache : Option VerificationConfig → Option (VerifierCache Verifier)
    init_cache none = none
    init_cache (some v) = some []

    -- The get command: --skip-verify takes the workspace's block away.
    unfoldable pub verifiers_of_run :
        Bool → Option VerificationConfig → List PolicyEntry → List (Result String (Option Verifier))
    verifiers_of_run skip_verify workspace entries =
        let ws = if skip_verify then none else workspace in resolve_all entries ws (init_cache ws)

-- ===== src/Tests/Verifiers.antt =====
-- The verifiers of a run: the theorems at concrete data. A verifier is the identity it asks for.
use complytime.Base.{String, false, none, some, [], ◌∷◌, map, ◌≡◌, refl}
use complytime.Base.Result.{Result, ok}
use complytime.Config.{VerificationConfig, PolicyEntry}
use complytime.Cli.Verifiers.{verifiers_of_run}
use complytime.Cli.Verifiers.Resolved.{
  built_verifier, verifiers_of_run-built, verifiers_of_run-without_workspace,
}
use complytime.Tests.Configs.{keyless, both}

abbrev build : VerificationConfig → Result String String
build cfg = ok cfg.identity

abbrev workspace : VerificationConfig
workspace = record keyless { identity = "release" }

verifiers_of_run-built_example :
    verifiers_of_run build false (some workspace) both
    ≡ map (λ e. built_verifier build e (some workspace)) both
verifiers_of_run-built_example = verifiers_of_run-built build workspace both

-- The first entry has a block of its own.
own_block : verifiers_of_run build false (some workspace) both ≡ ok (some "ci") ∷ ok none ∷ []
unfolding verifiers_of_run complytime.Cli.Verifiers.resolve_all
    complytime.Cli.Verifiers.resolve_verifier complytime.Cli.Verifiers.effective_config
    complytime.Config.Verification.is_configured complytime.Cli.Verifiers.init_cache
    complytime.Cli.Verifiers.find_verifier
own_block = refl

verifiers_of_run-without_workspace_example :
    verifiers_of_run build false none both ≡ map (λ e. ok none) both
verifiers_of_run-without_workspace_example = verifiers_of_run-without_workspace build false both

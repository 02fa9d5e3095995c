-- ===== src/Config/Targets/Known.antt =====
-- What the targets of an accepted configuration refer to.
use complytime.Base.{
  String, Bool, true, some, List, [], ◌∷◌, map, ◌==◌, ◌≡◌, ◌≢◌, refl, arith, eq_iff, All, contains,
  inl, inr, Bool-cases,
}
use complytime.Base.Result.{ok}
use complytime.Base.Members.{All-mono}
use complytime.Base.Splits.{trim_space}
use complytime.Config.{PolicyEntry, TargetConfig, WorkspaceConfig}
use complytime.Config.Reference.{Parsers, effective_id, find_policy}
use complytime.Config.Targets.{validate_target_policies, validate_targets, validate}

validate_target_policies-known :
    (target : String) (known seen pids : List String)
    → validate_target_policies target known seen pids ≡ ok tt
    → All (λ pid. contains known pid ≡ true) pids
unfolding validate_target_policies
validate_target_policies-known target known seen [] e = tt
validate_target_policies-known target known seen (pid ∷ pids) e =
    (ground arith, validate_target_policies-known target known (pid ∷ seen) pids (ground arith))

validate_targets-known :
    (known seen : List String) (targets : List TargetConfig)
    → validate_targets known seen targets ≡ ok tt
    → All
        (λ target. (target.id ≢ "") × All (λ pid. contains known pid ≡ true) target.policies)
        targets
unfolding validate_targets
validate_targets-known known seen [] e = tt
validate_targets-known known seen (target ∷ targets) e = (
  (
    ground (arith, eq_iff target.id ""),
    validate_target_policies-known target.id known [] target.policies (ground arith),
  ),
  validate_targets-known known (target.id ∷ seen) targets (ground arith),
)

module _ (parsers : Parsers) where
  find_policy-contains :
      (entries : List PolicyEntry) (pid : String)
      → trim_space pid ≡ pid
      → contains (map (effective_id parsers) entries) pid ≡ true
      → (entry : PolicyEntry) × (find_policy parsers entries pid ≡ some entry)
        × (effective_id parsers entry ≡ pid)
  unfolding find_policy contains
  find_policy-contains [] pid trimmed h = absurd (ground arith)
  find_policy-contains (e ∷ entries) pid trimmed h =
      elim (Bool-cases (effective_id parsers e == pid)) [
        | inl same ↦
            (e, rw (find_policy, trimmed, same) refl, (eq_iff (effective_id parsers e) pid).0 same)
        | inr different ↦
            let (entry, found, named) = find_policy-contains entries pid trimmed (ground arith) in
            (entry, rw (find_policy, trimmed, different) found, named)
      ]

  validate-targets :
      (clean : String → String) (stat : String → Bool) (config checked : WorkspaceConfig)
      → validate parsers clean stat config ≡ ok checked
      → validate_targets (map (effective_id parsers) config.policies) [] config.targets ≡ ok tt
  unfolding validate
  validate-targets clean stat config checked e = ground arith

  -- In a configuration that is accepted each target has an id, and each policy that it names is found
  -- among the policies as one of that effective id, if no spaces surround the name.
  pub validate-found :
      (clean : String → String) (stat : String → Bool) (config checked : WorkspaceConfig)
      → validate parsers clean stat config ≡ ok checked
      → All
          (λ target.
            (target.id ≢ "")
            × All
                (λ pid.
                  trim_space pid ≡ pid
                  → (entry : PolicyEntry) × (find_policy parsers config.policies pid ≡ some entry)
                    × (effective_id parsers entry ≡ pid))
                target.policies)
          config.targets
  validate-found clean stat config checked e =
      All-mono
        (λ target h. (
          h.0,
          All-mono (λ pid known trimmed. find_policy-contains config.policies pid trimmed known)
              target.policies h.1,
        ))
        config.targets
        (validate_targets-known (map (effective_id parsers) config.policies) [] config.targets
          (validate-targets clean stat config checked e))

-- ===== src/Cli/Verifiers/Resolved.antt =====
-- Which verifiers a run of the get command uses.
use complytime.Base.{
  String, Bool, true, false, Option, none, some, List, [], ◌∷◌, map, ◌≡◌, refl, ◌∙◌, ap, sym, inl,
  inr, arith, eq_iff, if◌then◌else◌, All, Bool-cases, Option-cases,
}
use complytime.Base.Result.{Result, Result-cases, ok, err}
use complytime.Config.{VerificationConfig, PolicyEntry}
use complytime.Cli.Verifiers.{
  config_eq, effective_config, VerifierCache, find_verifier, resolve_verifier, resolve_all,
  init_cache, verifiers_of_run,
}
use complytime.Config.Verification.{is_configured}

config_eq_iff : (a b : VerificationConfig) → config_eq a b ≡ true → a ≡ b
unfolding config_eq
config_eq_iff a b h = ground (
  arith,
  eq_iff a.issuer b.issuer,
  eq_iff a.identity b.identity,
  eq_iff a.key b.key,
  eq_iff a.trusted_root b.trusted_root,
)

module _ {Verifier : Type 0} (build : VerificationConfig → Result String Verifier) where
  -- Without a cache, the verifier of a block is built anew for each entry.
  built_from : Option VerificationConfig → Result String (Option Verifier)
  built_from none = ok none
  built_from (some cfg) = elim (build cfg) [ err e ↦ err e | ok vf ↦ ok (some vf) ]

  -- The entry's own block comes before the workspace's.
  pub built_verifier : PolicyEntry → Option VerificationConfig → Result String (Option Verifier)
  built_verifier entry workspace =
      if entry.skip_verify
      then ok none
      else if is_configured entry.verification
      then built_from entry.verification
      else if is_configured workspace
      then built_from workspace
      else ok none

  built_verifier-effective :
      (entry : PolicyEntry) (workspace : Option VerificationConfig)
      → built_verifier entry workspace
        ≡ (if entry.skip_verify then ok none else built_from (effective_config entry workspace))
  unfolding built_verifier effective_config built_from
  built_verifier-effective entry workspace = elim (Bool-cases (is_configured entry.verification)) [
    | inl own ↦ rw (own, effective_config, built_verifier) refl
    | inr blank ↦ elim (Bool-cases (is_configured workspace)) [
      | inl shared ↦ rw (blank, shared, effective_config, built_verifier) refl
      | inr nothing ↦ rw (blank, nothing, effective_config, built_verifier) refl
    ]
  ]

  -- Each verifier in the cache is the one that its block builds.
  IsCoherent : VerifierCache Verifier → Type 0
  IsCoherent = All (λ (e : VerificationConfig × Verifier). build e.0 ≡ ok e.1)

  find_verifier-build :
      (cfg : VerificationConfig) (m : VerifierCache Verifier) (vf : Verifier)
      → IsCoherent m
      → find_verifier cfg m ≡ some vf
      → build cfg ≡ ok vf
  unfolding find_verifier IsCoherent
  find_verifier-build cfg [] vf h e = absurd (ground arith)
  find_verifier-build cfg ((c, v) ∷ m) vf h e = elim (Bool-cases (config_eq c cfg)) [
    | inl same ↦ ap build (sym (config_eq_iff c cfg same)) ∙ h.0 ∙ ground arith
    | inr different ↦ find_verifier-build cfg m vf h.1 (ground arith)
  ]

  -- With a cache that is coherent, the result is the one without a cache, and the cache stays so.
  resolve_verifier-built :
      (entry : PolicyEntry) (workspace : Option VerificationConfig) (m : VerifierCache Verifier)
      → IsCoherent m
      → (n : VerifierCache Verifier) × IsCoherent n
        × (resolve_verifier build entry workspace (some m)
            ≡ (some n, built_verifier entry workspace))
  unfolding resolve_verifier built_from IsCoherent
  resolve_verifier-built entry workspace m h = elim (Bool-cases entry.skip_verify) [
    | inl skipped ↦ (m, h, ground (arith, built_verifier-effective entry workspace))
    | inr asked ↦ elim (Option-cases (effective_config entry workspace)) [
      | inl blank ↦ (m, h, ground (arith, built_verifier-effective entry workspace))
      | inr (cfg, effective) ↦ elim (Option-cases (find_verifier cfg m)) [
        | inr (vf, cached) ↦ (
          m,
          h,
          ground (
            arith,
            built_verifier-effective entry workspace,
            find_verifier-build cfg m vf h cached,
          ),
        )
        | inl new ↦ elim (Result-cases (build cfg)) [
          | inl (x, failed) ↦ (m, h, ground (arith, built_verifier-effective entry workspace))
          | inr (vf, built) ↦
              ((cfg, vf) ∷ m, (built, h), ground (arith, built_verifier-effective entry workspace))
        ]
      ]
    ]
  ]

  resolve_all-built :
      (entries : List PolicyEntry) (workspace : Option VerificationConfig)
      (m : VerifierCache Verifier)
      → IsCoherent m
      → resolve_all build entries workspace (some m)
        ≡ map (λ entry. built_verifier entry workspace) entries
  unfolding resolve_all
  resolve_all-built [] workspace m h = refl
  resolve_all-built (entry ∷ entries) workspace m h =
      let (n, coherent, resolved) = resolve_verifier-built entry workspace m h in
      rw resolved (
        ap (λ rest. built_verifier entry workspace ∷ rest)
          (resolve_all-built entries workspace n coherent))

  -- In a run with a workspace block each entry gets the verifier of its own block, or else of the
  -- workspace's, and none where it opts out or neither is configured; that one verifier serves all
  -- the entries with equal blocks makes no difference.
  pub verifiers_of_run-built :
      (v : VerificationConfig) (entries : List PolicyEntry)
      → verifiers_of_run build false (some v) entries
        ≡ map (λ entry. built_verifier entry (some v)) entries
  unfolding verifiers_of_run init_cache IsCoherent
  verifiers_of_run-built v entries = resolve_all-built entries (some v) [] tt

  resolve_verifier-uncached :
      (entry : PolicyEntry) → resolve_verifier build entry none none ≡ (none, ok none)
  unfolding resolve_verifier
  resolve_verifier-uncached entry = elim (Option-cases (effective_config entry none)) [
    | inl blank ↦ ground arith
    | inr (cfg, effective) ↦ ground arith
  ]

  resolve_all-uncached :
      (entries : List PolicyEntry)
      → resolve_all build entries none none ≡ map (λ entry. ok none) entries
  unfolding resolve_all resolve_verifier
  resolve_all-uncached [] = refl
  resolve_all-uncached (entry ∷ entries) =
      rw (resolve_verifier-uncached entry)
        (ap (λ rest. ok none ∷ rest) (resolve_all-uncached entries))

  -- In a run without a workspace block no entry is verified, as little without --skip-verify as with
  -- it, and also where an entry's own block is configured.
  pub verifiers_of_run-without_workspace :
      (skip_verify : Bool) (entries : List PolicyEntry)
      → verifiers_of_run build skip_verify none entries ≡ map (λ entry. ok none) entries
  unfolding verifiers_of_run init_cache
  verifiers_of_run-without_workspace true entries = resolve_all-uncached entries
  verifiers_of_run-without_workspace false entries = resolve_all-uncached entries

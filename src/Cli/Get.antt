-- ===== src/Cli/Get.antt =====
-- cmd/complyctl/cli/get.go: the sync of every configured policy. The entry's number selects the
-- answers that its own sync meets. `extract` is the resolver's ExtractPolicyMetadata.
pub mod Attempts
pub mod Complypacks
use complytime.Base.{
  ℕ, suc, String, Bool, true, false, not, ◌&&◌, ◌||◌, Option, none, some, List, [], ◌∷◌, ◌==◌,
  if◌then◌else◌, ltb,
}
use complytime.Base.Result.{Result, Check, ok, err}
use complytime.Config.{VerificationConfig, PolicyEntry}
use complytime.Config.Reference.{
  PolicyRef, RefError, Parsers, version_string, parse_policy_ref, effective_id,
}
use complytime.Cache.State.{
  State, PolicyState, VerificationResult, get_policy_state, set_policy_metadata,
}
use complytime.Cache.StateFile.{Codec, Faults, FileError, save_state, load_state}
use complytime.Cache.Sync.{Env, Host, World, SourceError, SyncError, new_host, sync_policy}
use complytime.Cli.Verifiers.{VerifierCache, resolve_verifier, init_cache}

pub record PolicyMetadata : Type 0 where
  pub title : String
  pub evaluator_id : String
  pub control_count : ℕ
  pub assessment_count : ℕ

abbrev pub VerifyFunc : Type 0
VerifyFunc = String → Bool → Result String VerificationResult

-- What a run meets: the libraries' parsers, the construction of verifiers, for each entry and
-- registry the surroundings of its sync, the resolver, and the answers to the last save.
pub record Session (Stores : Type 0) : Type 0 where
  pub parsers : Parsers
  pub build : VerificationConfig → Result String VerifyFunc
  pub remote : ℕ → String → Env Stores
  pub extract : String → String → Stores → Option PolicyMetadata
  pub codec : Codec
  pub last_faults : Faults
  pub unreadable : Bool
  pub credentials : Bool

-- What the entries of a run share and change.
pub record Run (Stores : Type 0) : Type 0 where
  pub world : World Stores
  pub verifiers : Option (VerifierCache VerifyFunc)

pub data GetError : Type 0 where
  invalid_entry : String → RefError → GetError
  no_verifier : String → String → GetError
  policy_failed : SyncError → GetError
  state_unloadable : FileError → GetError
  no_credentials : GetError

-- list.go.
unfoldable pub has_metadata : PolicyState → Bool
has_metadata ps =
    not (ps.policy_title == "")
    || not (ps.policy_evaluator == "")
    || ltb 0 ps.control_count
    || ltb 0 ps.assessment_count

-- The version is the registry's where the reference names none.
unfoldable pub resolve_latest_version : {Stores : Type 0} → Env Stores → String → String
resolve_latest_version env repository = elim (env.definition_version repository) [
  | err e ↦ "latest"
  | ok (digest, version) ↦ version
]

-- `errs = append(errs, err)`.
unfoldable pub note_failure : {E : Type 0} → Check E → List E → List E
note_failure (ok _) errors = errors
note_failure (err e) errors = e ∷ errors

module _ {Stores : Type 0} (session : Session Stores) where
  -- After the sync. An entry that is missing reads as the zero value, and a failure is dropped.
  unfoldable pub extract_metadata : String → Bool → World Stores → World Stores
  extract_metadata repository fetched w =
      let read = get_policy_state w.state repository in
      let version : String = elim read [ none ↦ "" | some ps ↦ ps.version ] in
      let known : Bool = elim read [ none ↦ false | some ps ↦ has_metadata ps ] in
      if fetched || not known
      then elim (session.extract repository version w.stores) [
        | none ↦ w
        | some meta ↦ record w {
          state =
              set_policy_metadata repository meta.title meta.evaluator_id meta.control_count
                meta.assessment_count w.state;
        }
      ]
      else w

  -- The environment of one entry's sync, with its verifier.
  unfoldable pub entry_env : ℕ → PolicyRef → Option VerifyFunc → Env Stores
  entry_env i ref verifier = record (session.remote i ref.registry) { verify = verifier }

  unfoldable pub asked_version : ℕ → PolicyRef → String
  asked_version i ref =
      let version = version_string ref in
      if version == ""
      then resolve_latest_version (session.remote i ref.registry) ref.repository
      else version

  -- From the resolved verifier on.
  unfoldable pub sync_ref :
      ℕ → PolicyRef → Option VerifyFunc → World Stores → World Stores × Check GetError
  sync_ref i ref verifier w =
      let (w', synced) =
        sync_policy (entry_env i ref verifier) (new_host ref.registry) ref.repository
          (asked_version i ref) w in
      elim synced [
        | err e ↦ (w', err (policy_failed e))
        | ok fetched ↦ (extract_metadata ref.repository fetched w', ok tt)
      ]

  unfoldable pub sync_single_policy :
      Option VerificationConfig → ℕ → PolicyEntry → Run Stores → Run Stores × Check GetError
  sync_single_policy workspace i entry run = elim (parse_policy_ref session.parsers entry.url) [
    | err e ↦ (run, err (invalid_entry entry.url e))
    | ok ref ↦
        let (verifiers, resolved) = resolve_verifier session.build entry workspace run.verifiers in
        elim resolved [
          | err e ↦ (
            record run { verifiers = verifiers },
            err (no_verifier (effective_id session.parsers entry) e),
          )
          | ok verifier ↦
              let (w, result) = sync_ref i ref verifier run.world in
              (record { world = w; verifiers = verifiers }, result)
        ]
  ]

  -- The loop of syncAllPolicies, from the entry of number i on.
  unfoldable pub sync_each_policy :
      Option VerificationConfig → ℕ → List PolicyEntry → Run Stores → Run Stores × List GetError
  sync_each_policy workspace i [] run = (run, [])
  sync_each_policy workspace i (entry ∷ entries) run =
      let (run', result) = sync_single_policy workspace i entry run in
      let (last, errors) = sync_each_policy workspace (suc i) entries run' in
      (last, note_failure result errors)

  -- The failure of the last save is only logged.
  unfoldable pub sync_all_policies :
      Option VerificationConfig → List PolicyEntry → Run Stores → Run Stores × List GetError
  sync_all_policies workspace entries run =
      let (last, errors) = sync_each_policy workspace 0 entries run in
      let (disk, saved) =
        save_state session.codec session.last_faults last.world.state last.world.disk in
      (record last { world = record last.world { disk = disk } }, errors)

  -- syncPolicies, which reads the state from its file.
  unfoldable pub sync_policies :
      (String → Bool)
      → Option VerificationConfig
      → List PolicyEntry
      → Run Stores
      → Run Stores × List GetError
  sync_policies digest_ok workspace entries run =
      elim (load_state digest_ok session.codec session.unreadable run.world.disk) [
        | err e ↦ (run, state_unloadable e ∷ [])
        | ok state ↦
            if session.credentials
            then sync_all_policies workspace entries
                (record run { world = record run.world { state = state } })
            else (record run { world = record run.world { state = state } }, no_credentials ∷ [])
      ]

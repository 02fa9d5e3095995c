-- ===== src/Cli/Get/Complypacks.antt =====
-- cmd/complyctl/cli/get.go: the sync of every configured complypack, the invalidation of what was
-- generated with an older one, and the check of their evaluators. The last step's texts are left out.
pub mod Unique
use complytime.Base.{
  ℕ, suc, String, Bool, true, false, not, ◌&&◌, ◌||◌, Option, none, some, List, [], ◌∷◌, ◌++◌, ◌==◌,
  if◌then◌else◌, keep, map,
}
use complytime.Base.Result.{Result, Check, ok, err}
use complytime.Base.Table.{Table, lookup, insert}
use complytime.Config.{VerificationConfig, PolicyEntry}
use complytime.Config.Reference.{
  PolicyRef, RefError, Parsers, version_string, parse_policy_ref, effective_id,
}
use complytime.Cache.State.{State, PolicyState, get_complypack_state}
use complytime.Cache.StateFile.{FileError, load_state}
use complytime.Cache.PathComponent.{validate_path_component}
use complytime.Cache.ComplypackSync.{Env, World, SyncError, sync_complypack}
use complytime.Cache.Sync.{new_host}
use complytime.Cli.Get.{VerifyFunc, note_failure, GetError, sync_policies}
use complytime.Cli.Get
use complytime.Cli.Verifiers.{init_cache}
use complytime.Cli.Verifiers.{VerifierCache, resolve_verifier}
use complytime.Policy.Generation.{
  GenerationDir, missing, unopenable, holding, GenerationError, invalidate_for_evaluator,
}

-- The generation directory and the names beside it, each with an evaluator's artifacts.
pub record Workspace : Type 0 where
  pub generation : GenerationDir
  pub artifacts : List String

-- `remove_failed` is os.RemoveAll's error.
pub record Session : Type 0 where
  pub parsers : Parsers
  pub build : VerificationConfig → Result String VerifyFunc
  pub remote : ℕ → String → Env
  pub remove_failed : String → Bool
  pub sort : List String → List String
  pub unreadable : Bool
  pub credentials : Bool

pub record Run : Type 0 where
  pub world : World
  pub workspace : Workspace
  pub verifiers : Option (VerifierCache VerifyFunc)

pub data PackError : Type 0 where
  invalid_entry : String → RefError → PackError
  no_verifier : String → String → PackError
  complypack_failed : String → SyncError → PackError
  duplicate_evaluators : List (String × List String) → PackError
  state_unloadable : FileError → PackError
  no_credentials : PackError

unfoldable pub resolve_latest_version : Env → String → String
resolve_latest_version env repository = elim (env.definition_version repository) [
  | none ↦ "latest"
  | some (digest, version) ↦ version
]

-- The directory after InvalidateForEvaluator.
unfoldable pub remaining_dir : String → GenerationDir → GenerationDir
remaining_dir evaluator_id missing = missing
remaining_dir evaluator_id unopenable = unopenable
remaining_dir evaluator_id (holding files) =
    holding (invalidate_for_evaluator evaluator_id (holding files)).files

unfoldable pub repos_at : String → Table (List String) → List String
repos_at evaluator_id groups = elim (lookup evaluator_id groups) [ none ↦ [] | some repos ↦ repos ]

unfoldable pub add_repo : Option (String × String) → Table (List String) → Table (List String)
add_repo none groups = groups
add_repo (some (evaluator_id, repository)) groups =
    insert evaluator_id (repos_at evaluator_id groups ++ repository ∷ []) groups

unfoldable pub is_conflict : List String → Bool
is_conflict [] = false
is_conflict (repo ∷ []) = false
is_conflict (repo ∷ other ∷ repos) = true

module _ (session : Session) where
  -- RemoveEvaluatorArtifacts.
  unfoldable pub remove_evaluator_artifacts : String → List String → List String
  remove_evaluator_artifacts evaluator_id artifacts = elim (validate_path_component evaluator_id) [
    | err e ↦ artifacts
    | ok _ ↦
        if session.remove_failed evaluator_id
        then artifacts
        else keep (λ name. not (name == evaluator_id)) artifacts
  ]

  unfoldable pub invalidate_generation_for_complypack : State → String → Workspace → Workspace
  invalidate_generation_for_complypack state repository ws =
      elim (get_complypack_state state repository) [
        | none ↦ ws
        | some ps ↦
            if ps.evaluator_id == ""
            then ws
            else elim (invalidate_for_evaluator ps.evaluator_id ws.generation).failed [
              | some e ↦ record ws { generation = remaining_dir ps.evaluator_id ws.generation }
              | none ↦ record {
                generation = remaining_dir ps.evaluator_id ws.generation;
                artifacts = remove_evaluator_artifacts ps.evaluator_id ws.artifacts;
              }
            ]
      ]

  unfoldable pub asked_version : ℕ → PolicyRef → String
  asked_version i ref =
      let version = version_string ref in
      if version == ""
      then resolve_latest_version (session.remote i ref.registry) ref.repository
      else version

  -- From the resolved verifier on.
  unfoldable pub sync_ref :
      ℕ → PolicyRef → Option VerifyFunc → World → Workspace → World × Workspace × Check PackError
  sync_ref i ref verifier w ws =
      let (w', synced) =
        sync_complypack (record (session.remote i ref.registry) { verify = verifier })
          (new_host ref.registry) ref.repository (asked_version i ref) w in
      elim synced [
        | err e ↦ (w', ws, err (complypack_failed ref.repository e))
        | ok fetched ↦ (
          w',
          if fetched then invalidate_generation_for_complypack w'.state ref.repository ws else ws,
          ok tt,
        )
      ]

  unfoldable pub sync_single_complypack :
      Option VerificationConfig → ℕ → PolicyEntry → Run → Run × Check PackError
  sync_single_complypack verification i entry run =
      elim (parse_policy_ref session.parsers entry.url) [
        | err e ↦ (run, err (invalid_entry entry.url e))
        | ok ref ↦
            let (verifiers, resolved) =
              resolve_verifier session.build entry verification run.verifiers in
            elim resolved [
              | err e ↦ (
                record run { verifiers = verifiers },
                err (no_verifier (effective_id session.parsers entry) e),
              )
              | ok verifier ↦
                  let (w, ws, result) = sync_ref i ref verifier run.world run.workspace in
                  (record { world = w; workspace = ws; verifiers = verifiers }, result)
            ]
      ]

  -- syncAllComplypacks, from the entry of number i on.
  unfoldable pub sync_all_complypacks :
      Option VerificationConfig → ℕ → List PolicyEntry → Run → Run × List PackError
  sync_all_complypacks verification i [] run = (run, [])
  sync_all_complypacks verification i (entry ∷ entries) run =
      let (run', result) = sync_single_complypack verification i entry run in
      let (last, errors) = sync_all_complypacks verification (suc i) entries run' in
      (last, note_failure result errors)

  -- The repository and the evaluator of an entry that has both.
  unfoldable pub resolved_entry : State → PolicyEntry → Option (String × String)
  resolved_entry state entry = elim (parse_policy_ref session.parsers entry.url) [
    | err e ↦ none
    | ok ref ↦ elim (get_complypack_state state ref.repository) [
      | none ↦ none
      | some ps ↦ if ps.evaluator_id == "" then none else some (ps.evaluator_id, ref.repository)
    ]
  ]

  unfoldable pub eval_to_repos :
      State → List PolicyEntry → Table (List String) → Table (List String)
  eval_to_repos state [] groups = groups
  eval_to_repos state (entry ∷ entries) groups =
      eval_to_repos state entries (add_repo (resolved_entry state entry) groups)

  -- The order of the conflicts, which the source sorts by their texts, is that of the table here.
  unfoldable pub validate_unique_evaluator_ids : State → List PolicyEntry → List PackError
  validate_unique_evaluator_ids state complypacks =
      elim (keep (λ (e : String × List String). is_conflict e.1)
        (eval_to_repos state complypacks [])) [
          | [] ↦ []
          | conflict ∷ conflicts ↦
              duplicate_evaluators
                (map (λ (e : String × List String). (e.0, session.sort e.1)) (conflict ∷ conflicts))
              ∷ []
        ]

  -- syncComplypacks.
  unfoldable pub sync_complypacks :
      (String → Bool) → Option VerificationConfig → List PolicyEntry → Run → Run × List PackError
  sync_complypacks digest_ok verification [] run = (run, [])
  sync_complypacks digest_ok verification (entry ∷ entries) run =
      elim (load_state digest_ok (session.remote 0 "").codec session.unreadable run.world.disk) [
        | err e ↦ (run, state_unloadable e ∷ [])
        | ok state ↦
            let loaded = record run { world = record run.world { state = state } } in
            let (last, errors) = sync_all_complypacks verification 0 (entry ∷ entries) loaded in
            if not session.credentials then (loaded, no_credentials ∷ []) else elim errors [
              | e ∷ es ↦ (last, e ∷ es)
              | [] ↦ (last, validate_unique_evaluator_ids last.world.state (entry ∷ entries))
            ]
      ]

-- syncAll: the complypacks follow whatever became of the policies, with the same file and verifiers.
unfoldable pub sync_all :
    {Stores : Type 0}
    → Get.Session Stores
    → Session
    → (String → Bool)
    → Option VerificationConfig
    → List PolicyEntry
    → List PolicyEntry
    → World
    → Workspace
    → complytime.Cache.Sync.World Stores
    → Get.Run Stores × Run × List GetError × List PackError
sync_all policies packs digest_ok verification policy_entries pack_entries pack_world ws w =
    let (run, errors) =
      sync_policies policies digest_ok verification policy_entries
        (record { world = w; verifiers = init_cache policies.build verification }) in
    let (last, pack_errors) = sync_complypacks packs digest_ok verification pack_entries (record {
      world = record pack_world { disk = run.world.disk };
      workspace = ws;
      verifiers = run.verifiers;
    }) in
    (run, last, errors, pack_errors)

-- ===== src/Cache/Sync.antt =====
-- internal/cache/sync.go: SyncPolicy, the incremental transfer of a policy from its registry.
-- The registry, the signature verification, oras.Copy and the local OCI stores are the parameter
-- `Env`; a store's contents are values of an unknown type.
pub mod FailClosed
pub mod Incremental
pub mod Failures
use complytime.Base.{
  ℕ, String, Bool, true, false, not, ◌&&◌, ◌||◌, Option, none, some, ◌==◌, if◌then◌else◌, is_some,
}
use complytime.Base.Result.{Result, Check, ok, err}
use complytime.Cache.State.{
  State, PolicyState, VerificationResult, StateError, get_policy_state, update_policy_state,
}
use complytime.Cache.StateFile.{Codec, Disk, Faults, FileError, save_state}
use complytime.Cache.Reference.{version_ref, pin_version}
use complytime.Registry.{split_host_scheme}

-- What a registry answers: `missing` is ErrVersionNotFound.
pub data SourceError : Type 0 where
  missing unreachable : SourceError

-- `verify` is nil where no verifier is configured. `digest_ok` is go-digest's Parse.
pub record Env (Stores : Type 0) : Type 0 where
  pub digest_ok : String → Bool
  pub definition_version : String → Result SourceError (String × String)
  pub verify : Option (String → Bool → Result String VerificationResult)
  pub store_exists : String → Stores → Bool
  pub new_store : String → Stores → Stores × Bool
  pub copy : String → String → Stores → Stores × Bool
  pub codec : Codec
  pub faults : Faults
  pub now : ℕ

-- The fields of `Sync` that NewSync derives from the registry's URL.
pub record Host : Type 0 where
  pub name : String
  pub insecure : Bool

unfoldable pub new_host : String → Host
new_host url =
    let (name, insecure) = split_host_scheme url in record { name = name; insecure = insecure }

-- What a sync can change: the state in memory, its file, and the local stores.
pub record World (Stores : Type 0) : Type 0 where
  pub state : State
  pub disk : Disk
  pub stores : Stores

pub data SyncError : Type 0 where
  empty_policy_id host_required version_not_found registry_unreachable : SyncError
  verification_failed : String → SyncError
  store_failed copy_failed : SyncError
  state_failed : StateError → SyncError
  save_failed : FileError → SyncError

-- The verification before the copy: `none` where no verifier is configured.
unfoldable pub verify_ref :
    Option (String → Bool → Result String VerificationResult)
    → String
    → Bool
    → Result String (Option VerificationResult)
verify_ref none ref insecure = ok none
verify_ref (some verify) ref insecure = elim (verify ref insecure) [
  | err e ↦ err e
  | ok vr ↦ ok (some vr)
]

module _ {Stores : Type 0} where
  -- `s.state.Update...` and SaveState, after the content is in place.
  unfoldable pub record_state :
      Env Stores → Result StateError State → World Stores → World Stores × Result SyncError Bool
  record_state env (err e) w = (w, err (state_failed e))
  record_state env (ok s) w =
      let (disk, saved) = save_state env.codec env.faults s w.disk in
      let w' = record w { state = s; disk = disk } in
      elim saved [ err e ↦ (w', err (save_failed e)) | ok _ ↦ (w', ok true) ]

  -- From NewPolicyStore on, with the result of the verification.
  unfoldable pub fetch_policy :
      Env Stores
      → String
      → String
      → String
      → Option VerificationResult
      → World Stores
      → World Stores × Result SyncError Bool
  fetch_policy env policy_id version digest vr w =
      let (opened, open_ok) = env.new_store policy_id w.stores in
      let (copied, copy_ok) = env.copy policy_id version opened in
      if not open_ok
      then (record w { stores = opened }, err store_failed)
      else if not copy_ok
      then (record w { stores = copied }, err copy_failed)
      else record_state env
          (update_policy_state env.digest_ok policy_id version digest vr env.now w.state)
          (record w { stores = copied })

  -- `exists && localState.Digest == remoteDigest && PolicyStoreExists`.
  unfoldable pub up_to_date : Env Stores → String → String → World Stores → Bool
  up_to_date env policy_id digest w =
      elim (get_policy_state w.state policy_id) [ none ↦ false | some ps ↦ ps.digest == digest ]
      && env.store_exists policy_id w.stores

  -- From the answer of the registry on.
  unfoldable pub compare_policy :
      Env Stores
      → Host
      → String
      → String
      → String
      → String
      → World Stores
      → World Stores × Result SyncError Bool
  compare_policy env host policy_id version digest remote_version w =
      if up_to_date env policy_id digest w
      then (w, ok false)
      else elim (verify_ref env.verify (version_ref env.digest_ok host.name policy_id version)
          host.insecure) [
            | err e ↦ (w, err (verification_failed e))
            | ok vr ↦ fetch_policy env policy_id (pin_version version remote_version) digest vr w
          ]

  unfoldable pub sync_policy :
      Env Stores → Host → String → String → World Stores → World Stores × Result SyncError Bool
  sync_policy env host policy_id version w =
      if policy_id == ""
      then (w, err empty_policy_id)
      else if is_some env.verify && host.name == ""
      then (w, err host_required)
      else elim (env.definition_version (version_ref env.digest_ok "" policy_id version)) [
        | err e ↦
            (w, err (elim e [ missing ↦ version_not_found | unreachable ↦ registry_unreachable ]))
        | ok (digest, remote_version) ↦
            compare_policy env host policy_id version digest remote_version w
      ]

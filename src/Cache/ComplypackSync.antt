-- ===== src/Cache/ComplypackSync.antt =====
-- internal/cache/complypack_sync.go: SyncComplypack. The cache shares the sync's state, as the get
-- command sets them up, so the two are one field of the world here.
pub mod Guarded
pub mod Entry
pub mod Recorded
pub mod Switched
use complytime.Base.{
  ℕ, String, Bool, true, false, not, ◌&&◌, ◌||◌, Option, none, some, ◌==◌, if◌then◌else◌, is_some,
}
use complytime.Base.Result.{Result, Check, ok, err}
use complytime.Cache.State.{
  State, PolicyState, VerificationResult, StateError, get_complypack_state, update_complypack_state,
}
use complytime.Cache.StateFile.{Codec, Disk, Faults, FileError, save_state}
use complytime.Cache.Reference.{version_ref, pin_version}
use complytime.Cache.Eviction.{Sorter}
use complytime.Cache.Complypack.{
  Config, ConfigCodec, ComplypackCache, CacheError, ContentPath, StoreFaults, Tree, store,
  lookup_version, lookup_by_evaluator_id,
}
use complytime.Cache.Sync.{Host, verify_ref}

-- The registry, go-digest, the verifier, the transfer of an artifact to a temporary store together
-- with its unpacking (its configuration and content), JSON, and the answers of the file system.
pub record Env : Type 0 where
  pub digest_ok : String → Bool
  pub definition_version : String → Option (String × String)
  pub verify : Option (String → Bool → Result String VerificationResult)
  pub temp_store : Bool
  pub copy : String → String → Option String
  pub unpack : String → Option (Config × String)
  pub codec : Codec
  pub config_codec : ConfigCodec
  pub sorter : Sorter
  pub faults : Faults
  pub store_faults : StoreFaults
  pub unreadable : Bool
  pub now : ℕ

pub record World : Type 0 where
  pub state : State
  pub disk : Disk
  pub tree : Tree
  pub retention_count : ℕ

abbrev pub cache_of : World → ComplypackCache
cache_of w = record { tree = w.tree; state = some w.state; retention_count = w.retention_count }

pub data SyncError : Type 0 where
  empty_repository host_required registry_unreachable temp_store_failed copy_failed : SyncError
  unpack_failed : SyncError
  lookup_failed : CacheError → SyncError
  verification_failed : String → SyncError
  store_failed : CacheError → SyncError
  state_failed : StateError → SyncError
  save_failed : FileError → SyncError

unfoldable pub cache_exists_for_state : Env → World → PolicyState → Bool
cache_exists_for_state env w ps =
    if ps.evaluator_id == ""
    then false
    else elim (lookup_by_evaluator_id env.config_codec env.unreadable ps.evaluator_id
        (cache_of w)) [ err _ ↦ false | ok found ↦ is_some found ]

-- The update of the state and its save.
unfoldable pub record_state : Env → Result StateError State → World → World × Result SyncError Bool
record_state env (err e) w = (w, err (state_failed e))
record_state env (ok s) w =
    let (disk, saved) = save_state env.codec env.faults s w.disk in
    let w' = record w { state = s; disk = disk } in
    elim saved [ err e ↦ (w', err (save_failed e)) | ok _ ↦ (w', ok true) ]

-- tryLocalCacheHit: `ok true` if the version was cached, was verified and is recorded now.
unfoldable pub try_local_cache_hit :
    Env
    → Host
    → String
    → String
    → String
    → String
    → PolicyState
    → World
    → World × Result SyncError Bool
try_local_cache_hit env host repository asked version digest local w =
    elim (lookup_version env.config_codec local.evaluator_id version (cache_of w)) [
      | err e ↦ (w, err (lookup_failed e))
      | ok _ ↦
          elim (verify_ref env.verify (version_ref env.digest_ok host.name repository asked)
            host.insecure) [
              | err e ↦ (w, err (verification_failed e))
              | ok vr ↦
                  record_state env
                    (update_complypack_state env.digest_ok repository version digest
                      local.evaluator_id vr env.now w.state)
                    w
            ]
    ]

-- From the temporary OCI store on. The recorded version is that of the unpacked configuration.
unfoldable pub fetch_complypack :
    Env
    → String
    → String
    → String
    → Option VerificationResult
    → World
    → World × Result SyncError Bool
fetch_complypack env repository version digest vr w =
    if not env.temp_store then (w, err temp_store_failed) else elim (env.copy repository version) [
      | none ↦ (w, err copy_failed)
      | some artifact ↦ elim (env.unpack artifact) [
        | none ↦ (w, err unpack_failed)
        | some (config, content) ↦
            let (c, stored) =
              store env.config_codec env.sorter env.store_faults config content (cache_of w) in
            let w' = record w { tree = c.tree } in
            elim stored [
              | err e ↦ (w', err (store_failed e))
              | ok _ ↦
                  record_state env
                    (update_complypack_state env.digest_ok repository config.version digest
                      config.evaluator_id vr env.now w.state)
                    w'
            ]
      ]
    ]

-- The standard path: verification, then the fetch.
unfoldable pub verify_and_fetch :
    Env → Host → String → String → String → String → World → World × Result SyncError Bool
verify_and_fetch env host repository asked version digest w =
    elim (verify_ref env.verify (version_ref env.digest_ok host.name repository asked)
      host.insecure) [
        | err e ↦ (w, err (verification_failed e))
        | ok vr ↦ fetch_complypack env repository version digest vr w
      ]

-- The local cache is tried where the state knows the evaluator and another version than this one.
unfoldable pub switch_or_fetch :
    Env
    → Host
    → String
    → String
    → String
    → String
    → PolicyState
    → World
    → World × Result SyncError Bool
switch_or_fetch env host repository asked version digest local w =
    let (w', hit) = try_local_cache_hit env host repository asked version digest local w in
    let fetch_after = λ (v : World). verify_and_fetch env host repository asked version digest v in
    if not (local.evaluator_id == "") && not (local.version == version)
    then elim hit [ ok b ↦ if b then (w', ok true) else fetch_after w' | err _ ↦ fetch_after w' ]
    else fetch_after w

-- With the registry's answer, its version taken for an empty one and for `latest`.
unfoldable pub compare_complypack :
    Env → Host → String → String → String → String → World → World × Result SyncError Bool
compare_complypack env host repository asked version digest w =
    elim (get_complypack_state w.state repository) [
      | none ↦ verify_and_fetch env host repository asked version digest w
      | some local ↦
          if local.digest == digest && cache_exists_for_state env w local
          then (w, ok false)
          else switch_or_fetch env host repository asked version digest local w
    ]

-- Without the registry an entry whose content is cached is served as it is.
unfoldable pub serve_offline : Env → String → World → World × Result SyncError Bool
serve_offline env repository w = elim (get_complypack_state w.state repository) [
  | none ↦ (w, err registry_unreachable)
  | some local ↦
      if cache_exists_for_state env w local then (w, ok false) else (w, err registry_unreachable)
]

unfoldable pub sync_complypack :
    Env → Host → String → String → World → World × Result SyncError Bool
sync_complypack env host repository asked w =
    if repository == ""
    then (w, err empty_repository)
    else if is_some env.verify && host.name == ""
    then (w, err host_required)
    else elim (env.definition_version (version_ref env.digest_ok "" repository asked)) [
      | none ↦ serve_offline env repository w
      | some (digest, remote_version) ↦
          compare_complypack env host repository asked (pin_version asked remote_version) digest w
    ]

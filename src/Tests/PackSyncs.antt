-- ===== src/Tests/PackSyncs.antt =====
-- The complypack sync: runs, and the theorem at concrete data.
use complytime.Base.{
  String, Bool, true, false, none, some, [], ◌∷◌, ◌≡◌, ◌≢◌, refl, inr, arith, eq_iff,
}
use complytime.Base.Result.{ok, Result, err}
use complytime.Cache.State.{State, get_complypack_state, PolicyState, VerificationResult}
use complytime.Cache.StateFile.{Codec, no_faults, save_state}
use complytime.Cache.Complypack.{version_entry, lookup_version}
use complytime.Cache.Sync.{Host}
use complytime.Cache.ComplypackSync.{Env, World, cache_of, sync_complypack}
use complytime.Cache.ComplypackSync.Guarded.{sync_complypack-fail_closed}
use complytime.Cache.ComplypackSync.Entry.{OthersKept, Recorded}
use complytime.Cache.ComplypackSync.Recorded.{sync_complypack-Recorded}
use complytime.Cache.ComplypackSync.Switched.{sync_complypack-switches}
use complytime.Cache.Reference.{version_ref, pin_version}
use complytime.Tests.Fixtures.{digest_ok, entry, config, config_codec}
use complytime.Tests.Sorting.{sorter}
use complytime.Tests.Complypacks.{faults}

abbrev codec : Codec
codec = record { encode = λ s. some "state"; decode = λ text. none }

abbrev pub env : Env
env = record {
  digest_ok = digest_ok;
  definition_version = λ ref. some ("sha256:b", "v2");
  verify = none;
  temp_store = true;
  copy = λ repository version. some version;
  unpack = λ artifact. some (config "2.0", "new");
  codec = codec;
  config_codec = config_codec;
  sorter = sorter;
  faults = no_faults;
  store_faults = faults;
  unreadable = false;
  now = 8;
}

abbrev host : Host
host = record { name = "ghcr.io"; insecure = false }

-- The switch to a version that is cached, with a verifier that has revoked it.
abbrev refusing : String → Bool → Result String VerificationResult
refusing ref insecure = err "revoked"

abbrev world : World
world = record {
  state = record {
    last_sync = 1;
    policies = none;
    complypacks = some (("c/opa", entry "1.0" "sha256:a" "opa" 1) ∷ []);
  };
  disk = record { state_file = some "state"; temp_file = none };
  tree =
      ("opa", (("1.0", version_entry "old" "1.0") ∷ ("2.0", version_entry "new" "2.0") ∷ [])) ∷ [];
  retention_count = 2;
}

abbrev guarded : Env
guarded = record env { verify = some refusing }

sync_complypack-fail_closed_example : (sync_complypack guarded host "c/opa" "2.0" world).0 ≡ world
sync_complypack-fail_closed_example =
    sync_complypack-fail_closed guarded host "c/opa" "2.0" refusing "revoked" refl (inr refl) world

sync_complypack-Recorded_example :
    let p = sync_complypack env host "c/opa" "2.0" world in
    OthersKept "c/opa" world p.0
    × (p.1 ≡ ok true
        → (digest : String) × (remote_version : String) × (env.definition_version
              (version_ref digest_ok "" "c/opa" "2.0")
            ≡ some (digest, remote_version))
          × Recorded codec "c/opa" digest p.0)
sync_complypack-Recorded_example = sync_complypack-Recorded env host "c/opa" "2.0" world

abbrev repository : String
repository = "c/opa"

abbrev old_entry : PolicyState
old_entry = entry "1.0" "sha256:a" "opa" 1

repository_named : repository ≢ ""
repository_named = ground (arith, eq_iff repository "")

evaluator_named : old_entry.evaluator_id ≢ ""
evaluator_named = ground (arith, eq_iff old_entry.evaluator_id "")

digest_changed : old_entry.digest ≢ "sha256:b"
digest_changed = ground (arith, eq_iff old_entry.digest "sha256:b")

version_changed : old_entry.version ≢ pin_version "2.0" "v2"
unfolding pin_version
version_changed = ground (arith, eq_iff old_entry.version "2.0")

known : get_complypack_state world.state repository ≡ some old_entry
unfolding get_complypack_state complytime.Base.Table.lookup
known = refl

in_cache :
    lookup_version config_codec "opa" (pin_version "2.0" "v2") (cache_of world)
    ≡ ok (("opa", "2.0"), config "2.0")
unfolding lookup_version complytime.Cache.PathComponent.validate_path_component
    complytime.Base.Text.contains_rune complytime.Base.Text.contains_text
    complytime.Base.Text.all_runes complytime.Cache.PathComponent.is_path_rune pin_version
    complytime.Base.Table.lookup
in_cache = refl

accepted : digest_ok "sha256:b" ≡ true
unfolding complytime.Base.Text.has_prefix
accepted = refl

saves : (t : State) → (save_state codec no_faults t world.disk).1 ≡ ok tt
unfolding save_state
saves t = refl

-- The content that is served is the cached one, and the digest that of the registry.
sync_complypack-switches_example :
    let p = sync_complypack env host repository "2.0" world in
    (p.0.tree ≡ world.tree) × (p.1 ≡ ok true)
sync_complypack-switches_example =
    sync_complypack-switches env host repository "2.0" world "sha256:b" "v2" old_entry
      (("opa", "2.0"), config "2.0") repository_named refl refl known evaluator_named digest_changed
      version_changed in_cache accepted saves

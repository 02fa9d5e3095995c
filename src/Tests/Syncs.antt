-- ===== src/Tests/Syncs.antt =====
-- The syncs: runs, and the theorems at concrete data. The store of a policy is the list of the
-- versions copied to it, the first of which is its marker.
use complytime.Base.{
  ℕ, String, Bool, true, false, not, none, some, List, [], ◌∷◌, ◌≡◌, ◌≢◌, refl, ◌⊎◌, inl, inr,
  arith, eq_iff,
}
use complytime.Base.Table.{Table}
use complytime.Base.Result.{Result, ok, err}
use complytime.Cache.State.{PolicyState, State, VerificationResult, get_policy_state, new_entry}
use complytime.Cache.StateFile.{Disk, no_faults}
use complytime.Cache.Reference.{version_ref, pin_version}
use complytime.Cache.Sync.{verify_ref, Env, Host, World, SyncError, copy_failed, sync_policy}
use complytime.Cache.Sync.FailClosed.{sync_policy-fail_closed}
use complytime.Cache.Sync.Incremental.{copied, sync_policy-twice}
use complytime.Cache.Sync.Failures.{Kept, sync_policy-Kept, sync_policy-skips_after_failed_copy}
use complytime.Tests.Fixtures.{digest_ok, codec, entry, one_policy, vr}

abbrev pub Stores : Type 0
Stores = List String

abbrev pub exists_in : Stores → Bool
exists_in [] = false
exists_in (v ∷ vs) = true

abbrev pub env : Env Stores
env = record {
  digest_ok = digest_ok;
  definition_version = λ ref. ok ("sha256:a", "v1");
  verify = none;
  store_exists = λ id. exists_in;
  new_store = λ id stores. ("marker" ∷ stores, true);
  copy = λ id v stores. (v ∷ stores, true);
  codec = codec;
  faults = no_faults;
  now = 0;
}

abbrev refusing : String → Bool → Result String VerificationResult
refusing ref insecure = err "no signature"

abbrev accepting : String → Bool → Result String VerificationResult
accepting ref insecure = ok vr

abbrev host : Host
host = record { name = "localhost:5000"; insecure = true }

abbrev pub empty_world : World Stores
empty_world = record {
  state = record { last_sync = 0; policies = none; complypacks = none };
  disk = record { state_file = none; temp_file = none };
  stores = [];
}

abbrev synced_world : World Stores
synced_world = record {
  state = one_policy "sha256:a";
  disk = record { state_file = some "sha256:a"; temp_file = none };
  stores = "v1" ∷ "marker" ∷ [];
}

first_sync : sync_policy env host "p/nist" "" empty_world ≡ (synced_world, ok true)
unfolding sync_policy complytime.Cache.Sync.compare_policy complytime.Cache.Sync.up_to_date
    get_policy_state complytime.Base.Table.lookup complytime.Cache.Sync.verify_ref
    complytime.Cache.Sync.fetch_policy complytime.Cache.Sync.record_state
    complytime.Cache.State.update_policy_state complytime.Cache.State.validate_digest
    complytime.Base.Text.has_prefix complytime.Cache.StateFile.save_state
    complytime.Tests.Fixtures.encode complytime.Cache.State.put complytime.Base.Table.insert
    new_entry pin_version complytime.Base.Text.strip_prefix complytime.Base.Text.trim_right_rune
    complytime.Cache.Reference.build_lookup_ref complytime.Cache.Reference.classify_version
    complytime.Cache.State.get complytime.Cache.StateFile.remove_temp
    complytime.Cache.StateFile.replace_file
first_sync = refl

copied_exists :
    (v : String) (stores : Stores) → env.store_exists "p/nist" (copied env "p/nist" v stores) ≡ true
unfolding copied
copied_exists v stores = refl

sync_policy-twice_example : sync_policy env host "p/nist" "" synced_world ≡ (synced_world, ok false)
sync_policy-twice_example =
    sync_policy-twice env host "p/nist" "" copied_exists empty_world synced_world first_sync

abbrev guarded : Env Stores
guarded = record env { verify = some refusing }

sync_policy-fail_closed_example :
    ((sync_policy guarded host "p/nist" "" empty_world).0 ≡ empty_world)
    ⊎ ((host.name ≢ "")
        × ((r : VerificationResult) × (refusing
                (version_ref digest_ok host.name "p/nist" "")
                host.insecure
              ≡ ok r)))
sync_policy-fail_closed_example =
    sync_policy-fail_closed guarded host "p/nist" "" refusing refl empty_world

abbrev full_disk : Env Stores
full_disk = record env { faults = record no_faults { rename = true } }

sync_policy-Kept_example :
    Kept full_disk host "p/nist" "" empty_world
      (sync_policy full_disk host "p/nist" "" empty_world).0
      (sync_policy full_disk host "p/nist" "" empty_world).1
sync_policy-Kept_example = sync_policy-Kept full_disk host "p/nist" "" empty_world

-- The marker is made, and the copy fails.
abbrev broken_copy : Env Stores
broken_copy = record env { copy = λ id v stores. (stores, false) }

abbrev lost_store : World Stores
lost_store = record synced_world { stores = [] }

abbrev nist : String
nist = "p/nist"

nist_named : nist ≢ ""
nist_named = ground (arith, eq_iff nist "")

sync_policy-skips_after_failed_copy_example :
    let (v, r) = sync_policy broken_copy host "p/nist" "" lost_store in
    (r ≡ err copy_failed) × (sync_policy broken_copy host "p/nist" "" v ≡ (v, ok false))
unfolding get_policy_state complytime.Base.Table.lookup copied
sync_policy-skips_after_failed_copy_example =
    sync_policy-skips_after_failed_copy broken_copy host "p/nist" "" lost_store
      (entry "v1" "sha256:a" "" 0) "sha256:a" "v1" nist_named refl refl refl refl refl refl refl
      refl

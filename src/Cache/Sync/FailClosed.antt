-- ===== src/Cache/Sync/FailClosed.antt =====
-- A sync transfers nothing that a configured verifier has not accepted.
use complytime.Base.{String, Bool, some, ◌≡◌, ◌≢◌, ◌⊎◌, arith, eq_iff}
use complytime.Base.Result.{Result, ok}
use complytime.Cache.State.{VerificationResult}
use complytime.Cache.Reference.{version_ref}
use complytime.Cache.Sync.{Env, Host, World, verify_ref, compare_policy, sync_policy}

module _ {Stores : Type 0} (env : Env Stores) (host : Host) (policy_id version : String) where
  -- With a verifier configured, a sync changes the state, its file or a store only if a registry
  -- host is known and the verifier has accepted the reference of that host, repository and version.
  pub sync_policy-fail_closed :
      (verify : String → Bool → Result String VerificationResult)
      → env.verify ≡ some verify
      → (w : World Stores)
      → ((sync_policy env host policy_id version w).0 ≡ w)
        ⊎ ((host.name ≢ "")
            × ((vr : VerificationResult) × (verify
                    (version_ref env.digest_ok host.name policy_id version)
                    host.insecure
                  ≡ ok vr)))
  unfolding sync_policy compare_policy verify_ref
  sync_policy-fail_closed verify configured w = ground (arith, eq_iff host.name "")

-- ===== src/Cache/ComplypackSync/Guarded.antt =====
-- A complypack sync changes nothing that a configured verifier has not accepted.
use complytime.Base.{inr, inl, arith, ◌⊎◌, some, Bool, String, ◌≡◌, refl, Option-cases}
use complytime.Cache.ComplypackSync.{
  Env, World, SyncError, cache_of, verification_failed, lookup_failed, try_local_cache_hit,
  verify_and_fetch, switch_or_fetch, compare_complypack, serve_offline, sync_complypack,
}
use complytime.Cache.Sync.{Host, verify_ref}
use complytime.Base.Result.{Result-cases, err, Result}
use complytime.Cache.State.{PolicyState, VerificationResult, get_complypack_state}
use complytime.Cache.Reference.{version_ref, pin_version}
use complytime.Cache.Complypack.{lookup_version}

module _ (env : Env) (host : Host) (repository asked : String) where
  verify_and_fetch-refused :
      (verify : String → Bool → Result String VerificationResult) (e version digest : String)
      (w : World)
      → env.verify ≡ some verify
      → verify (version_ref env.digest_ok host.name repository asked) host.insecure ≡ err e
      → verify_and_fetch env host repository asked version digest w
        ≡ (w, err (verification_failed e))
  unfolding verify_and_fetch verify_ref
  verify_and_fetch-refused verify e version digest w configured denied = ground arith

  try_local_cache_hit-refused :
      (verify : String → Bool → Result String VerificationResult) (e version digest : String)
      (local : PolicyState) (w : World)
      → env.verify ≡ some verify
      → verify (version_ref env.digest_ok host.name repository asked) host.insecure ≡ err e
      → (x : SyncError) × (try_local_cache_hit env host repository asked version digest local w
          ≡ (w, err x))
  unfolding try_local_cache_hit verify_ref
  try_local_cache_hit-refused verify e version digest local w configured denied =
      elim (Result-cases
        (lookup_version env.config_codec local.evaluator_id version (cache_of w))) [
          | inl (x, missing) ↦ (lookup_failed x, rw (missing, try_local_cache_hit))
          | inr (hit, found) ↦ (
            verification_failed e,
            rw (found, configured, denied, try_local_cache_hit, verify_ref),
          )
        ]

  compare_complypack-refused :
      (verify : String → Bool → Result String VerificationResult) (e version digest : String)
      (w : World)
      → env.verify ≡ some verify
      → verify (version_ref env.digest_ok host.name repository asked) host.insecure ≡ err e
      → (compare_complypack env host repository asked version digest w).0 ≡ w
  unfolding compare_complypack switch_or_fetch
  compare_complypack-refused verify e version digest w configured denied =
      let straight = verify_and_fetch-refused verify e version digest w configured denied in
      elim (Option-cases (get_complypack_state w.state repository)) [
        | inl unknown ↦ rw (unknown, straight, compare_complypack) refl
        | inr (local, known) ↦
            let (x, missed) =
              try_local_cache_hit-refused verify e version digest local w configured denied in
            ground arith
      ]

  -- Where the verifier refuses the reference of the host, the repository and the asked version, or
  -- no host is known for it, a sync changes neither the state nor its file nor the cache, on the
  -- path through the local cache as little as on the fetch.
  pub sync_complypack-fail_closed :
      (verify : String → Bool → Result String VerificationResult) (e : String)
      → env.verify ≡ some verify
      → (host.name ≡ "")
        ⊎ (verify (version_ref env.digest_ok host.name repository asked) host.insecure ≡ err e)
      → (w : World) → (sync_complypack env host repository asked w).0 ≡ w
  unfolding sync_complypack serve_offline
  sync_complypack-fail_closed verify e configured (inl unknown) w =
      rw (unknown, configured) (ground arith)
  sync_complypack-fail_closed verify e configured (inr denied) w =
      elim (Option-cases (env.definition_version (version_ref env.digest_ok "" repository asked))) [
        | inl silent ↦ ground arith
        | inr ((digest, remote_version), answer) ↦
            let same =
              compare_complypack-refused verify e (pin_version asked remote_version) digest w
                configured denied in
            ground arith
      ]

-- ===== src/Cache/ComplypackSync/Switched.antt =====
-- The switch to a version that is in the local cache.
use complytime.Base.{inr, inl, String, true, none, some, ◌≡◌, refl, ◌≢◌, arith, eq_iff, inl, inr}
use complytime.Base.Result.{Result-cases, ok}
use complytime.Cache.State.{
  State, PolicyState, validate_digest, get_complypack_state, update_complypack_state,
}
use complytime.Cache.StateFile.{save_state}
use complytime.Cache.Reference.{version_ref, pin_version}
use complytime.Cache.Complypack.{Config, ContentPath, lookup_version}
use complytime.Cache.ComplypackSync.{
  Env, World, cache_of, record_state, try_local_cache_hit, switch_or_fetch, compare_complypack,
  sync_complypack,
}
use complytime.Cache.Sync.{Host, verify_ref}

module _ (env : Env) (host : Host) (repository asked : String) where
  record_state-saved :
      (t : State) (w : World)
      → (save_state env.codec env.faults t w.disk).1 ≡ ok tt
      → ((record_state env (ok t) w).0.tree ≡ w.tree) × ((record_state env (ok t) w).1 ≡ ok true)
  unfolding record_state
  record_state-saved t w saved = rw (saved, record_state) (refl, refl)

  update_accepted :
      (version digest evaluator : String) (w : World)
      → env.digest_ok digest ≡ true
      → (t : State) × (update_complypack_state env.digest_ok repository version digest evaluator
            none env.now w.state
          ≡ ok t)
  unfolding update_complypack_state validate_digest
  update_accepted version digest evaluator w valid =
      elim (Result-cases (
        update_complypack_state env.digest_ok repository version digest evaluator none env.now
          w.state)) [ inl (x, refused) ↦ absurd (ground arith) | inr accepted ↦ accepted ]

  try_local_cache_hit-served :
      (version digest : String) (local : PolicyState) (w : World) (hit : ContentPath × Config)
      → env.verify ≡ none
      → lookup_version env.config_codec local.evaluator_id version (cache_of w) ≡ ok hit
      → env.digest_ok digest ≡ true
      → ((t : State) → (save_state env.codec env.faults t w.disk).1 ≡ ok tt)
      → let p = try_local_cache_hit env host repository asked version digest local w in
        (p.0.tree ≡ w.tree) × (p.1 ≡ ok true)
  unfolding try_local_cache_hit verify_ref
  try_local_cache_hit-served version digest local w hit bare found valid saves =
      let (t, updated) = update_accepted version digest local.evaluator_id w valid in
      let (tree, done) = record_state-saved t w (saves t) in
      rw (found, bare, updated, try_local_cache_hit, verify_ref) (tree, done)

  -- With no verifier, a switch to a version that the cache holds succeeds and leaves the cache as it
  -- is, whatever content stands there under that version: the digest that is recorded with it is the
  -- registry's. It is assumed that the saves succeed and go-digest accepts the registry's digest.
  pub sync_complypack-switches :
      (w : World) (digest remote_version : String) (local : PolicyState)
      (hit : ContentPath × Config)
      → repository ≢ ""
      → env.verify ≡ none
      → env.definition_version (version_ref env.digest_ok "" repository asked)
        ≡ some (digest, remote_version)
      → get_complypack_state w.state repository ≡ some local
      → local.evaluator_id ≢ ""
      → local.digest ≢ digest
      → local.version ≢ pin_version asked remote_version
      → lookup_version env.config_codec local.evaluator_id
          (pin_version asked remote_version)
          (cache_of w)
        ≡ ok hit
      → env.digest_ok digest ≡ true
      → ((t : State) → (save_state env.codec env.faults t w.disk).1 ≡ ok tt)
      → let p = sync_complypack env host repository asked w in (p.0.tree ≡ w.tree) × (p.1 ≡ ok true)
  unfolding sync_complypack compare_complypack switch_or_fetch
  sync_complypack-switches w digest remote_version local hit named bare answer known evaluator stale
        other found valid saves =
      let served =
        try_local_cache_hit-served (pin_version asked remote_version) digest local w hit bare found
          valid saves in
      ground (
        arith,
        eq_iff repository "",
        eq_iff local.evaluator_id "",
        eq_iff local.digest digest,
        eq_iff local.version (pin_version asked remote_version),
      )

-- ===== src/Cache/ComplypackSync/Recorded.antt =====
-- What a complypack sync that reports a change has recorded, by either of its paths.
use complytime.Cache.ComplypackSync.Entry.{
  OthersKept, Recorded, OthersKept-of_state, OthersKept-trans, record_state-OthersKept,
  record_state-Recorded,
}
use complytime.Base.{
  String, Bool, true, false, Option, some, ◌==◌, ◌≡◌, refl, inl, inr, arith, ap, Option-cases,
  Bool-cases, is_some, ◌&&◌, not,
}
use complytime.Base.Result.{Result, Result-cases, ok, err}
use complytime.Cache.State.{
  PolicyState, VerificationResult, get_complypack_state, update_complypack_state,
}
use complytime.Cache.Reference.{version_ref, pin_version}
use complytime.Cache.Complypack.{lookup_version, store}
use complytime.Cache.ComplypackSync.{
  Env, World, SyncError, temp_store_failed, copy_failed, unpack_failed, lookup_failed,
  verification_failed, store_failed, cache_of, record_state, cache_exists_for_state,
  try_local_cache_hit, fetch_complypack, verify_and_fetch, switch_or_fetch, compare_complypack,
  serve_offline, sync_complypack,
}
use complytime.Cache.Sync.{Host, verify_ref}

module _ (env : Env) (host : Host) (repository : String) where
  -- Both claims at the outcome of a call: they hold of every one that leaves the state.
  abbrev Keeps : String → World → World × Result SyncError Bool → Type 0
  Keeps digest w p =
      OthersKept repository w p.0 × (p.1 ≡ ok true → Recorded env.codec repository digest p.0)

  Keeps-of_err :
      (digest : String) (w v : World) (x : SyncError)
      → v.state ≡ w.state
      → Keeps digest w (v, err x)
  Keeps-of_err digest w v x e = (OthersKept-of_state env repository w v e, λ h. absurd (cc))

  Keeps-of_skip : (digest : String) (w : World) → Keeps digest w (w, ok false)
  Keeps-of_skip digest w = (OthersKept-of_state env repository w w refl, λ h. absurd (ground arith))

  Keeps-trans :
      (digest : String) (w v : World) (p : World × Result SyncError Bool)
      → OthersKept repository w v
      → Keeps digest v p
      → Keeps digest w p
  Keeps-trans digest w v p h k = (OthersKept-trans env repository h k.0, k.1)

  record_state-Keeps :
      (version digest evaluator : String) (vr : Option VerificationResult) (w v : World)
      → v.state ≡ w.state
      → Keeps digest w (
          record_state env
            (update_complypack_state env.digest_ok repository version digest evaluator vr env.now
              w.state)
            v)
  record_state-Keeps version digest evaluator vr w v e = (
    record_state-OthersKept env repository version digest evaluator vr w v e,
    λ h.
        record_state-Recorded env repository version digest evaluator vr w v p.0
          (ap (λ r. (p.0, r)) h),
  )
    where
      p : World × Result SyncError Bool
      p =
          record_state env
            (update_complypack_state env.digest_ok repository version digest evaluator vr env.now
              w.state)
            v

  fetch_complypack-Keeps :
      (version digest : String) (vr : Option VerificationResult) (w : World)
      → Keeps digest w (fetch_complypack env repository version digest vr w)
  unfolding fetch_complypack
  fetch_complypack-Keeps version digest vr w = elim (Bool-cases env.temp_store) [
    | inr full ↦ rw (full, fetch_complypack) (Keeps-of_err digest w w temp_store_failed refl)
    | inl made ↦ elim (Option-cases (env.copy repository version)) [
      | inl broken ↦ rw (made, broken, fetch_complypack) (Keeps-of_err digest w w copy_failed refl)
      | inr (artifact, copied) ↦ elim (Option-cases (env.unpack artifact)) [
        | inl bad ↦
            rw (made, copied, bad, fetch_complypack) (Keeps-of_err digest w w unpack_failed refl)
        | inr ((config, content), unpacked) ↦
            elim (Result-cases
              (store env.config_codec env.sorter env.store_faults config content (cache_of w)).1) [
                | inl (x, failed) ↦
                    rw (made, copied, unpacked, failed, fetch_complypack)
                      (Keeps-of_err digest w
                        (record w {
                          tree =
                              (store env.config_codec env.sorter env.store_faults config content
                                (cache_of w)).0.tree;
                        })
                        (store_failed x) refl)
                | inr (path, stored) ↦
                    rw (made, copied, unpacked, stored, fetch_complypack)
                      (record_state-Keeps config.version digest config.evaluator_id vr w
                        (record w {
                          tree =
                              (store env.config_codec env.sorter env.store_faults config content
                                (cache_of w)).0.tree;
                        })
                        refl)
              ]
      ]
    ]
  ]

  module _ (asked version digest : String) where
    verify_and_fetch-Keeps :
        (w : World) → Keeps digest w (verify_and_fetch env host repository asked version digest w)
    unfolding verify_and_fetch
    verify_and_fetch-Keeps w =
        elim (Result-cases (
          verify_ref env.verify (version_ref env.digest_ok host.name repository asked)
            host.insecure)) [
              | inl (x, refused) ↦
                  rw (refused, verify_and_fetch)
                    (Keeps-of_err digest w w (verification_failed x) refl)
              | inr (vr, accepted) ↦
                  rw (accepted, verify_and_fetch) (fetch_complypack-Keeps version digest vr w)
            ]

    try_local_cache_hit-Keeps :
        (local : PolicyState) (w : World)
        → Keeps digest w (try_local_cache_hit env host repository asked version digest local w)
    unfolding try_local_cache_hit
    try_local_cache_hit-Keeps local w =
        elim (Result-cases
          (lookup_version env.config_codec local.evaluator_id version (cache_of w))) [
            | inl (x, missing) ↦
                rw (missing, try_local_cache_hit) (Keeps-of_err digest w w (lookup_failed x) refl)
            | inr (hit, found) ↦
                elim (Result-cases (
                  verify_ref env.verify (version_ref env.digest_ok host.name repository asked)
                    host.insecure)) [
                      | inl (x, refused) ↦
                          rw (found, refused, try_local_cache_hit)
                            (Keeps-of_err digest w w (verification_failed x) refl)
                      | inr (vr, accepted) ↦
                          rw (found, accepted, try_local_cache_hit)
                            (record_state-Keeps version digest local.evaluator_id vr w w refl)
                    ]
          ]

    switch_or_fetch-Keeps :
        (local : PolicyState) (w : World)
        → Keeps digest w (switch_or_fetch env host repository asked version digest local w)
    unfolding switch_or_fetch
    switch_or_fetch-Keeps local w =
        elim (Bool-cases (not (local.evaluator_id == "") && not (local.version == version))) [
          | inr same ↦ rw (same, switch_or_fetch) (verify_and_fetch-Keeps w)
          | inl switched ↦ elim (Result-cases hit.1) [
            | inl (x, missed) ↦
                rw (switched, missed, switch_or_fetch)
                  (Keeps-trans digest w hit.0
                    (verify_and_fetch env host repository asked version digest hit.0) tried.0
                    (verify_and_fetch-Keeps hit.0))
            | inr (false, missed) ↦
                rw (switched, missed, switch_or_fetch)
                  (Keeps-trans digest w hit.0
                    (verify_and_fetch env host repository asked version digest hit.0) tried.0
                    (verify_and_fetch-Keeps hit.0))
            | inr (true, served) ↦
                rw (switched, served, switch_or_fetch) (tried.0, λ h. tried.1 served)
          ]
        ]
      where
        hit : World × Result SyncError Bool
        hit = try_local_cache_hit env host repository asked version digest local w

        tried : Keeps digest w hit
        tried = try_local_cache_hit-Keeps local w

    compare_complypack-Keeps :
        (w : World) → Keeps digest w (compare_complypack env host repository asked version digest w)
    unfolding compare_complypack
    compare_complypack-Keeps w = elim (Option-cases (get_complypack_state w.state repository)) [
      | inl unknown ↦ rw (unknown, compare_complypack) (verify_and_fetch-Keeps w)
      | inr (local, known) ↦
          elim (Bool-cases (local.digest == digest && cache_exists_for_state env w local)) [
            | inl fresh ↦ rw (known, fresh, compare_complypack) (Keeps-of_skip digest w)
            | inr stale ↦ rw (known, stale, compare_complypack) (switch_or_fetch-Keeps local w)
          ]
    ]

  serve_offline-skips :
      (w : World)
      → ((serve_offline env repository w).0 ≡ w)
        × (¬ ((serve_offline env repository w).1 ≡ ok true))
  unfolding serve_offline
  serve_offline-skips w = elim (Option-cases (get_complypack_state w.state repository)) [
    | inl unknown ↦ (ground arith, λ h. ground arith)
    | inr (local, known) ↦ (ground arith, λ h. ground arith)
  ]

  -- A complypack sync, whatever it reports, leaves the policies and the entries of all other
  -- repositories as they were. One that reports a change, by a fetch or by a switch to a cached
  -- version, has recorded the registry's digest in the repository's entry and has saved the state.
  pub sync_complypack-Recorded :
      (asked : String) (w : World)
      → let p = sync_complypack env host repository asked w in
        OthersKept repository w p.0
        × (p.1 ≡ ok true
            → (digest : String) × (remote_version : String) × (env.definition_version
                  (version_ref env.digest_ok "" repository asked)
                ≡ some (digest, remote_version))
              × Recorded env.codec repository digest p.0)
  unfolding sync_complypack
  sync_complypack-Recorded asked w = elim (Bool-cases (repository == "")) [
    | inl empty ↦
        rw (empty, sync_complypack) (OthersKept-of_state env repository w w refl, λ h. absurd (cc))
    | inr named ↦ elim (Bool-cases (is_some env.verify && host.name == "")) [
      | inl unqualified ↦
          rw (named, unqualified, sync_complypack)
            (OthersKept-of_state env repository w w refl, λ h. absurd (cc))
      | inr qualified ↦
          elim (Option-cases
            (env.definition_version (version_ref env.digest_ok "" repository asked))) [
              | inl silent ↦
                  rw (named, qualified, silent, sync_complypack)
                    (
                      OthersKept-of_state env repository w (serve_offline env repository w).0
                          (ap (λ (v : World). v.state) (serve_offline-skips w).0),
                      λ h. absurd ((serve_offline-skips w).1 h),
                    )
              | inr ((digest, remote_version), answer) ↦
                  let compared =
                    compare_complypack-Keeps asked (pin_version asked remote_version) digest w in
                  rw (named, qualified, answer, sync_complypack)
                    (compared.0, λ h. (digest, remote_version, refl, compared.1 h))
            ]
    ]
  ]

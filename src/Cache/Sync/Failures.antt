-- ===== src/Cache/Sync/Failures.antt =====
-- What a policy sync leaves behind when it fails.
use complytime.Base.{
  String, Bool, true, false, Option, none, some, ◌==◌, ◌≡◌, refl, ◌≢◌, inl, inr, arith, is_some,
  eq_iff, ◌∙◌, ap, ◌&&◌, Bool-cases,
}
use complytime.Base.Result.{Result, Result-cases, ok, err}
use complytime.Cache.State.{
  State, StateError, PolicyState, VerificationResult, get_policy_state, update_policy_state,
}
use complytime.Cache.StateFile.{save_state}
use complytime.Cache.StateFile.Atomic.{save_state-failed}
use complytime.Cache.Reference.{version_ref, pin_version}
use complytime.Cache.Sync.Incremental.{copied, up_to_date_of_entry}
use complytime.Cache.Sync.{
  Env, Host, World, missing, unreachable, SyncError, copy_failed, save_failed, verify_ref,
  record_state, fetch_policy, up_to_date, compare_policy, sync_policy,
}

module _ {Stores : Type 0} (env : Env Stores) (host : Host) (policy_id version : String) where
  -- The state to which a sync updates another, with the registry's and the verifier's answers.
  unfoldable pub IsUpdated : State → State → Type 0
  IsUpdated s t =
      (digest : String) × (remote_version : String) × (vr : Option VerificationResult)
      × (env.definition_version (version_ref env.digest_ok "" policy_id version)
          ≡ ok (digest, remote_version))
      × (verify_ref env.verify (version_ref env.digest_ok host.name policy_id version) host.insecure
          ≡ ok vr)
      × (update_policy_state env.digest_ok policy_id (pin_version version remote_version) digest vr
            env.now s
          ≡ ok t)

  -- What a call keeps of the world, by its result.
  abbrev pub Kept : World Stores → World Stores → Result SyncError Bool → Type 0
  Kept w w' (ok true) = Unit
  Kept w w' (ok false) = w' ≡ w
  Kept w w' (err (save_failed x)) =
      (w'.disk.state_file ≡ w.disk.state_file) × IsUpdated w.state w'.state
  Kept w w' (err x) = (w'.state ≡ w.state) × (w'.disk ≡ w.disk)

  record_state-Kept :
      (r : Result StateError State) (v w : World Stores)
      → v.state ≡ w.state
      → v.disk ≡ w.disk
      → ((t : State) → r ≡ ok t → IsUpdated w.state t)
      → Kept w (record_state env r v).0 (record_state env r v).1
  unfolding record_state
  record_state-Kept (err x) v w s d u = (s, d)
  record_state-Kept (ok t) v w s d u =
      elim (Result-cases (save_state env.codec env.faults t v.disk).1) [
        | inl (x, failed) ↦
            rw (failed, record_state)
              (
                save_state-failed env.codec env.faults t v.disk x failed ∙ ap (λ k. k.state_file) d,
                u t refl,
              )
        | inr (_, saved) ↦ rw (saved, record_state) tt
      ]

  fetch_policy-Kept :
      (v digest : String) (vr : Option VerificationResult) (w : World Stores)
      → ((t : State)
          → update_policy_state env.digest_ok policy_id v digest vr env.now w.state ≡ ok t
          → IsUpdated w.state t)
      → Kept w
          (fetch_policy env policy_id v digest vr w).0
          (fetch_policy env policy_id v digest vr w).1
  unfolding fetch_policy copied
  fetch_policy-Kept v digest vr w u = elim (Bool-cases (env.new_store policy_id w.stores).1) [
    | inr closed ↦ rw (closed, fetch_policy) (refl, refl)
    | inl opened ↦ elim (Bool-cases (env.copy policy_id v (env.new_store policy_id w.stores).0).1) [
      | inr broken ↦ rw (opened, broken, fetch_policy) (refl, refl)
      | inl done ↦
          rw (opened, done, fetch_policy)
            (record_state-Kept
              (update_policy_state env.digest_ok policy_id v digest vr env.now w.state)
              (record w { stores = copied env policy_id v w.stores }) w refl refl u)
    ]
  ]

  compare_policy-Kept :
      (digest remote_version : String) (w : World Stores)
      → env.definition_version (version_ref env.digest_ok "" policy_id version)
        ≡ ok (digest, remote_version)
      → Kept w
          (compare_policy env host policy_id version digest remote_version w).0
          (compare_policy env host policy_id version digest remote_version w).1
  unfolding compare_policy IsUpdated
  compare_policy-Kept digest remote_version w answer =
      elim (Bool-cases (up_to_date env policy_id digest w)) [
        | inl fresh ↦ rw (fresh, compare_policy) refl
        | inr stale ↦
            elim (Result-cases (
              verify_ref env.verify (version_ref env.digest_ok host.name policy_id version)
                host.insecure)) [
                  | inl (x, refused) ↦ rw (stale, refused, compare_policy) (refl, refl)
                  | inr (vr, accepted) ↦
                      rw (stale, accepted, compare_policy)
                        (fetch_policy-Kept (pin_version version remote_version) digest vr w
                          (λ t updated. (digest, remote_version, vr, answer, accepted, updated)))
                ]
      ]

  -- A sync that skips changes nothing. One that fails leaves the state and its file as they were,
  -- but that a failure to save leaves in memory the state updated with the version and the digest of
  -- the registry's answer and the verifier's result, the file still as it was.
  pub sync_policy-Kept :
      (w : World Stores)
      → Kept w
          (sync_policy env host policy_id version w).0
          (sync_policy env host policy_id version w).1
  unfolding sync_policy
  sync_policy-Kept w = elim (Bool-cases (policy_id == "")) [
    | inl empty ↦ rw (empty, sync_policy) (refl, refl)
    | inr named ↦ elim (Bool-cases (is_some env.verify && host.name == "")) [
      | inl unqualified ↦ rw (named, unqualified, sync_policy) (refl, refl)
      | inr qualified ↦
          elim (Result-cases
            (env.definition_version (version_ref env.digest_ok "" policy_id version))) [
              | inl (missing, answer) ↦ rw (named, qualified, answer, sync_policy) (refl, refl)
              | inl (unreachable, answer) ↦ rw (named, qualified, answer, sync_policy) (refl, refl)
              | inr ((digest, remote_version), answer) ↦
                  rw (named, qualified, answer, sync_policy)
                    (compare_policy-Kept digest remote_version w answer)
            ]
    ]
  ]

  passed :
      (w : World Stores) (digest remote_version : String)
      → policy_id ≢ ""
      → env.verify ≡ none
      → env.definition_version (version_ref env.digest_ok "" policy_id version)
        ≡ ok (digest, remote_version)
      → sync_policy env host policy_id version w
        ≡ compare_policy env host policy_id version digest remote_version w
  unfolding sync_policy
  passed w digest remote_version named bare answer = ground (arith, eq_iff policy_id "")

  stale_copy :
      (w : World Stores) (ps : PolicyState) (digest remote_version : String)
      → env.verify ≡ none
      → env.store_exists policy_id w.stores ≡ false
      → (env.new_store policy_id w.stores).1 ≡ true
      → (env.copy policy_id
          (pin_version version remote_version)
          (env.new_store policy_id w.stores).0).1
        ≡ false
      → compare_policy env host policy_id version digest remote_version w ≡ (
        record w { stores = copied env policy_id (pin_version version remote_version) w.stores },
        err copy_failed,
      )
  unfolding compare_policy up_to_date verify_ref fetch_policy copied
  stale_copy w ps digest remote_version bare gone opened broken = rw (bare, gone) (ground arith)

  fresh_skip :
      (w : World Stores) (digest remote_version : String)
      → up_to_date env policy_id digest w ≡ true
      → compare_policy env host policy_id version digest remote_version w ≡ (w, ok false)
  unfolding compare_policy
  fresh_skip w digest remote_version fresh = rw fresh

  -- A copy that fails leaves the store that NewPolicyStore made. If the registry's digest is the one
  -- that the state still records, the next sync, with no verifier and the same answers, takes the
  -- policy for up to date, though no content has been copied.
  pub sync_policy-skips_after_failed_copy :
      (w : World Stores) (ps : PolicyState) (digest remote_version : String)
      → policy_id ≢ ""
      → env.verify ≡ none
      → env.definition_version (version_ref env.digest_ok "" policy_id version)
        ≡ ok (digest, remote_version)
      → get_policy_state w.state policy_id ≡ some ps
      → ps.digest ≡ digest
      → env.store_exists policy_id w.stores ≡ false
      → (env.new_store policy_id w.stores).1 ≡ true
      → (env.copy policy_id
          (pin_version version remote_version)
          (env.new_store policy_id w.stores).0).1
        ≡ false
      → env.store_exists policy_id
          (copied env policy_id (pin_version version remote_version) w.stores)
        ≡ true
      → let (v, r) = sync_policy env host policy_id version w in
        (r ≡ err copy_failed) × (sync_policy env host policy_id version v ≡ (v, ok false))
  sync_policy-skips_after_failed_copy w ps digest remote_version named bare answer found same gone
        opened broken marked =
      let v : World Stores = record w {
        stores = copied env policy_id (pin_version version remote_version) w.stores;
      } in
      let first : sync_policy env host policy_id version w ≡ (v, err copy_failed) =
        passed w digest remote_version named bare answer
        ∙ stale_copy w ps digest remote_version bare gone opened broken in
      rw first (
        refl,
        passed v digest remote_version named bare answer
            ∙ fresh_skip v digest remote_version
                (up_to_date_of_entry env host policy_id version v digest ps found same marked),
      )

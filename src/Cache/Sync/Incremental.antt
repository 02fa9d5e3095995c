-- ===== src/Cache/Sync/Incremental.antt =====
-- What a policy sync leaves behind when it fetches, and that it then skips.
use complytime.Base.{
  String, Bool, true, false, Option, some, ◌==◌, ◌≡◌, inl, inr, arith, if◌then◌else◌, eq_refl, ◌∙◌,
  ap, sym,
}
use complytime.Base.Result.{Result-cases, ok}
use complytime.Cache.State.{
  State, PolicyState, VerificationResult, new_entry, get_policy_state, update_policy_state,
}
use complytime.Cache.State.Invariant.{get-put, new_entry-digest, update_policy_state-eq-ok}
use complytime.Cache.StateFile.{save_state}
use complytime.Cache.StateFile.Atomic.{save_state-written}
use complytime.Cache.Reference.{version_ref, pin_version}
use complytime.Cache.Sync.{
  Env, Host, World, verify_ref, record_state, fetch_policy, up_to_date, compare_policy, sync_policy,
}

-- The stores after NewPolicyStore and the copy of a version.
unfoldable pub copied : {Stores : Type 0} → Env Stores → String → String → Stores → Stores
copied env policy_id v stores = (env.copy policy_id v (env.new_store policy_id stores).0).0

module _ {Stores : Type 0} (env : Env Stores) (host : Host) (policy_id version : String) where
  -- A fetch has asked the registry, passed the verification and gone through `fetch_policy`.
  sync_policy-fetches :
      (w w' : World Stores)
      → sync_policy env host policy_id version w ≡ (w', ok true)
      → (digest : String) × (remote_version : String) × (vr : Option VerificationResult)
        × (env.definition_version (version_ref env.digest_ok "" policy_id version)
            ≡ ok (digest, remote_version))
        × (verify_ref env.verify
              (version_ref env.digest_ok host.name policy_id version)
              host.insecure
            ≡ ok vr)
        × (fetch_policy env policy_id (pin_version version remote_version) digest vr w
            ≡ (w', ok true))
  unfolding sync_policy compare_policy
  sync_policy-fetches w w' e =
      elim (Result-cases
        (env.definition_version (version_ref env.digest_ok "" policy_id version))) [
          | inl (x, answer) ↦ absurd (ground arith)
          | inr ((digest, remote_version), answer) ↦
              elim (Result-cases (
                verify_ref env.verify (version_ref env.digest_ok host.name policy_id version)
                  host.insecure)) [
                    | inl (x, refused) ↦ absurd (ground arith)
                    | inr (vr, accepted) ↦
                        (digest, remote_version, vr, answer, accepted, ground arith)
                  ]
        ]

  -- A successful transfer has copied the store, and has updated the state and saved it.
  fetch_policy-eq-true :
      (v digest : String) (vr : Option VerificationResult) (w w' : World Stores)
      → fetch_policy env policy_id v digest vr w ≡ (w', ok true)
      → (update_policy_state env.digest_ok policy_id v digest vr env.now w.state ≡ ok w'.state)
        × (w'.stores ≡ copied env policy_id v w.stores)
        × ((save_state env.codec env.faults w'.state w.disk) ≡ (w'.disk, ok tt))
  unfolding fetch_policy record_state copied
  fetch_policy-eq-true v digest vr w w' e = ground arith

  -- The policy's entry in a state to which a sync has written.
  pub get_policy_state-update :
      (v digest : String) (vr : Option VerificationResult) (s t : State)
      → update_policy_state env.digest_ok policy_id v digest vr env.now s ≡ ok t
      → (t.complypacks ≡ s.complypacks)
        × ((id : String)
            → get_policy_state t id ≡ (
                if policy_id == id
                then some (new_entry v digest "" env.now vr)
                else get_policy_state s id))
  unfolding get_policy_state
  get_policy_state-update v digest vr s t e =
      let (valid, written) =
        update_policy_state-eq-ok env.digest_ok policy_id v digest vr env.now s t e in
      (
        ap (λ (u : State). u.complypacks) written,
        λ id. rw written (get-put s.policies policy_id id (new_entry v digest "" env.now vr)),
      )

  pub sync_policy-fetched :
      (w w' : World Stores)
      → sync_policy env host policy_id version w ≡ (w', ok true)
      → (digest : String) × (remote_version : String) × (vr : Option VerificationResult)
        × (env.definition_version (version_ref env.digest_ok "" policy_id version)
            ≡ ok (digest, remote_version))
        × (verify_ref env.verify
              (version_ref env.digest_ok host.name policy_id version)
              host.insecure
            ≡ ok vr)
        × (w'.stores ≡ copied env policy_id (pin_version version remote_version) w.stores)
        × (w'.disk.state_file ≡ env.codec.encode w'.state)
        × (w'.state.complypacks ≡ w.state.complypacks)
        × ((id : String)
            → get_policy_state w'.state id ≡ (
                if policy_id == id
                then some (new_entry (pin_version version remote_version) digest "" env.now vr)
                else get_policy_state w.state id))
  sync_policy-fetched w w' e =
      let (digest, remote_version, vr, answer, accepted, fetched) = sync_policy-fetches w w' e in
      let (updated, stored, saved) =
        fetch_policy-eq-true (pin_version version remote_version) digest vr w w' fetched in
      let (same, entry) =
        get_policy_state-update (pin_version version remote_version) digest vr w.state w'.state
          updated in
      let (text, encoded, written) =
        save_state-written env.codec env.faults w'.state w.disk (ap (λ p. p.1) saved) in
      (
        digest,
        remote_version,
        vr,
        answer,
        accepted,
        stored,
        sym (ap (λ p. p.0.state_file) saved) ∙ written ∙ sym encoded,
        same,
        entry,
      )

  pub up_to_date_of_entry :
      (w : World Stores) (digest : String) (ps : PolicyState)
      → get_policy_state w.state policy_id ≡ some ps
      → ps.digest ≡ digest
      → env.store_exists policy_id w.stores ≡ true
      → up_to_date env policy_id digest w ≡ true
  unfolding up_to_date
  up_to_date_of_entry w digest ps found same exists = rw (found, same, eq_refl digest, exists)

  -- A sync skips where the registry's digest is the recorded one and the store exists: the guards
  -- of the arguments have been passed by any sync that reports success.
  sync_policy_of_up_to_date :
      (w v v' : World Stores) (digest remote_version : String) (b : Bool)
      → sync_policy env host policy_id version w ≡ (v', ok b)
      → env.definition_version (version_ref env.digest_ok "" policy_id version)
        ≡ ok (digest, remote_version)
      → up_to_date env policy_id digest v ≡ true
      → sync_policy env host policy_id version v ≡ (v, ok false)
  unfolding sync_policy compare_policy
  sync_policy_of_up_to_date w v v' digest remote_version b e answer fresh = ground arith

  -- A second sync, with the same answers of the registry, skips, if the store exists after the copy.
  pub sync_policy-twice :
      ((v : String) (stores : Stores)
        → env.store_exists policy_id (copied env policy_id v stores) ≡ true)
      → (w w' : World Stores) → sync_policy env host policy_id version w ≡ (w', ok true)
      → sync_policy env host policy_id version w' ≡ (w', ok false)
  sync_policy-twice exists w w' e =
      let (digest, remote_version, vr, answer, accepted, stored, file, same, entry) =
        sync_policy-fetched w w' e in
      sync_policy_of_up_to_date w w' w' digest remote_version true e answer (
        up_to_date_of_entry w' digest
          (new_entry (pin_version version remote_version) digest "" env.now vr)
          (entry policy_id ∙ rw (eq_refl policy_id))
          (new_entry-digest env.digest_ok (pin_version version remote_version) digest "" env.now vr)
          (ap (env.store_exists policy_id) stored
            ∙ exists (pin_version version remote_version) w.stores))

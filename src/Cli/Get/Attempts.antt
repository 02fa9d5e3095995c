-- ===== src/Cli/Get/Attempts.antt =====
-- That the failures of a get command's policies do not stop one another.
use complytime.Base.{
  ℕ, suc, ◌+◌, String, Bool, true, false, Option, none, some, List, [], ◌∷◌, ◌++◌, ◌≡◌, refl, ap,
  subst, inl, inr, arith, is_some, Option-cases, length, eq_iff,
}
use complytime.Base.Result.{err, Check, Result-cases, ok}
use complytime.Cache.State.{
  get, set_policy_metadata, State, VerificationResult, get_policy_state, update_policy_state,
}
use complytime.Cache.Sync.{
  Env, Host, World, record_state, fetch_policy, up_to_date, compare_policy, sync_policy, verify_ref,
}
use complytime.Cache.Reference.{version_ref, pin_version}
use complytime.Cache.Sync.Incremental.{sync_policy-fetched, get_policy_state-update}
use complytime.Cache.Sync.{new_host}
use complytime.Cli.Verifiers.{resolve_verifier}
use complytime.Config.{VerificationConfig, PolicyEntry}
use complytime.Config.Reference.{parse_policy_ref}
use complytime.Cli.Get.{
  Session, Run, GetError, VerifyFunc, extract_metadata, entry_env, asked_version, sync_ref,
  sync_single_policy, note_failure, sync_each_policy, sync_all_policies,
}
use complytime.Config.Reference.{PolicyRef}
use complytime.Cache.State.Invariant.{get-put}

-- The state in memory has the policy.
unfoldable pub is_recorded : {Stores : Type 0} → World Stores → String → Bool
is_recorded w id = is_some (get_policy_state w.state id)

module _ {Stores : Type 0} (env : Env Stores) (host : Host) (policy_id version id : String) where
  record_state-recorded :
      (v digest : String) (vr : Option VerificationResult) (s : State) (w : World Stores)
      → is_some (get_policy_state s id) ≡ true
      → is_recorded w id ≡ true
      → is_recorded
          (record_state env (update_policy_state env.digest_ok policy_id v digest vr env.now s) w).0
          id
        ≡ true
  unfolding record_state is_recorded
  record_state-recorded v digest vr s w h k =
      elim (Result-cases (update_policy_state env.digest_ok policy_id v digest vr env.now s)) [
        | inl (x, refused) ↦ rw (refused, record_state) k
        | inr (t, updated) ↦
            rw (updated, record_state)
              (ground (
                arith,
                h,
                (get_policy_state-update env host policy_id version v digest vr s t updated).1 id,
              ))
      ]

  fetch_policy-recorded :
      (v digest : String) (vr : Option VerificationResult) (w : World Stores)
      → is_recorded w id ≡ true
      → is_recorded (fetch_policy env policy_id v digest vr w).0 id ≡ true
  unfolding fetch_policy is_recorded
  fetch_policy-recorded v digest vr w h = ground (
    arith,
    h,
    record_state-recorded v digest vr w.state
        (record w { stores = (env.copy policy_id v (env.new_store policy_id w.stores).0).0 }) h h,
  )

  -- No branch of a sync removes an entry.
  sync_policy-recorded :
      (w : World Stores)
      → is_recorded w id ≡ true
      → is_recorded (sync_policy env host policy_id version w).0 id ≡ true
  unfolding sync_policy compare_policy
  sync_policy-recorded w h =
      elim (Result-cases
        (env.definition_version (version_ref env.digest_ok "" policy_id version))) [
          | inl (x, unanswered) ↦ ground arith
          | inr ((digest, remote_version), answer) ↦
              elim (Result-cases (
                verify_ref env.verify (version_ref env.digest_ok host.name policy_id version)
                  host.insecure)) [
                    | inl (x, refused) ↦ ground arith
                    | inr (vr, accepted) ↦ ground (
                      arith,
                      fetch_policy-recorded (pin_version version remote_version) digest vr w h,
                    )
                  ]
        ]

module _ {Stores : Type 0} (env : Env Stores) (host : Host) (policy_id version : String) where
  skipped_is_recorded :
      (w w' : World Stores)
      → sync_policy env host policy_id version w ≡ (w', ok false)
      → is_recorded w' policy_id ≡ true
  unfolding sync_policy compare_policy is_recorded up_to_date fetch_policy record_state
  skipped_is_recorded w w' e = ground arith

  -- A sync that reports no error, whether it fetches or skips, leaves the policy recorded.
  synced_is_recorded :
      (w w' : World Stores) (b : Bool)
      → sync_policy env host policy_id version w ≡ (w', ok b)
      → is_recorded w' policy_id ≡ true
  unfolding is_recorded
  synced_is_recorded w w' false e = skipped_is_recorded w w' e
  synced_is_recorded w w' true e =
      let (digest, remote_version, vr, answer, accepted, stored, file, same, entry) =
        sync_policy-fetched env host policy_id version w w' e in
      ground (arith, entry policy_id, eq_iff policy_id policy_id)

module _ {Stores : Type 0} (session : Session Stores) where
  set_policy_metadata-recorded :
      (repository title evaluator id : String) (controls assessments : ℕ) (s : State)
      → is_some (get_policy_state s id) ≡ true
      → is_some (
          get_policy_state
            (set_policy_metadata repository title evaluator controls assessments s)
            id)
        ≡ true
  unfolding set_policy_metadata get_policy_state
  set_policy_metadata-recorded repository title evaluator id controls assessments s h =
      elim (Option-cases (get s.policies repository)) [
        | inl absent ↦ rw (absent, set_policy_metadata) h
        | inr (ps, present) ↦
            rw (present, set_policy_metadata)
              (ground (
                arith,
                h,
                get-put s.policies repository id (record ps {
                  policy_title = title;
                  policy_evaluator = evaluator;
                  control_count = controls;
                  assessment_count = assessments;
                }),
              ))
      ]

  extract_metadata-recorded :
      (repository id : String) (fetched : Bool) (w : World Stores)
      → is_recorded w id ≡ true
      → is_recorded (extract_metadata session repository fetched w) id ≡ true
  unfolding extract_metadata is_recorded
  extract_metadata-recorded repository id fetched w h =
      elim (Option-cases (
        session.extract repository
          (elim (get_policy_state w.state repository) [ none ↦ "" | some ps ↦ ps.version ])
          w.stores)) [
            | inl failed ↦ ground arith
            | inr (meta, extracted) ↦ ground (
              arith,
              set_policy_metadata-recorded repository meta.title meta.evaluator_id id
                  meta.control_count meta.assessment_count w.state h,
            )
          ]

  sync_ref-recorded :
      (i : ℕ) (ref : PolicyRef) (verifier : Option VerifyFunc) (id : String) (w : World Stores)
      → is_recorded w id ≡ true
      → is_recorded (sync_ref session i ref verifier w).0 id ≡ true
  unfolding sync_ref
  sync_ref-recorded i ref verifier id w h =
      let kept =
        sync_policy-recorded (entry_env session i ref verifier) (new_host ref.registry)
          ref.repository (asked_version session i ref) id w h in
      elim (Result-cases
        (sync_policy (entry_env session i ref verifier) (new_host ref.registry) ref.repository
          (asked_version session i ref) w).1) [
            | inl (x, failed) ↦ rw (failed, sync_ref) kept
            | inr (fetched, synced) ↦
                rw (synced, sync_ref) (extract_metadata-recorded ref.repository id fetched _ kept)
          ]

  sync_single_policy-recorded :
      (workspace : Option VerificationConfig) (i : ℕ) (entry : PolicyEntry) (id : String)
      (run : Run Stores)
      → is_recorded run.world id ≡ true
      → is_recorded (sync_single_policy session workspace i entry run).0.world id ≡ true
  unfolding sync_single_policy
  sync_single_policy-recorded workspace i entry id run h =
      elim (Result-cases (parse_policy_ref session.parsers entry.url)) [
        | inl (x, malformed) ↦ rw (malformed, sync_single_policy) h
        | inr (ref, parsed) ↦
            elim (Result-cases (resolve_verifier session.build entry workspace run.verifiers).1) [
              | inl (x, unbuilt) ↦ rw (parsed, unbuilt, sync_single_policy) h
              | inr (verifier, resolved) ↦
                  rw (parsed, resolved, sync_single_policy)
                    (sync_ref-recorded i ref verifier id run.world h)
            ]
      ]

  sync_each_policy-recorded :
      (workspace : Option VerificationConfig) (i : ℕ) (entries : List PolicyEntry) (id : String)
      (run : Run Stores)
      → is_recorded run.world id ≡ true
      → is_recorded (sync_each_policy session workspace i entries run).0.world id ≡ true
  unfolding sync_each_policy
  sync_each_policy-recorded workspace i [] id run h = h
  sync_each_policy-recorded workspace i (entry ∷ entries) id run h =
      sync_each_policy-recorded workspace (suc i) entries id
        (sync_single_policy session workspace i entry run).0
        (sync_single_policy-recorded workspace i entry id run h)

  sync_ref-own :
      (i : ℕ) (ref : PolicyRef) (verifier : Option VerifyFunc) (w : World Stores)
      → (sync_ref session i ref verifier w).1 ≡ ok tt
      → is_recorded (sync_ref session i ref verifier w).0 ref.repository ≡ true
  unfolding sync_ref
  sync_ref-own i ref verifier w e =
      elim (Result-cases
        (sync_policy (entry_env session i ref verifier) (new_host ref.registry) ref.repository
          (asked_version session i ref) w).1) [
            | inl (x, failed) ↦ absurd (ground arith)
            | inr (fetched, synced) ↦
                rw (synced, sync_ref)
                  (extract_metadata-recorded ref.repository ref.repository fetched _ (
                    synced_is_recorded (entry_env session i ref verifier) (new_host ref.registry)
                      ref.repository (asked_version session i ref) w
                      (sync_policy (entry_env session i ref verifier) (new_host ref.registry)
                        ref.repository (asked_version session i ref) w).0
                      fetched
                      (ap
                        (λ r. (
                          (sync_policy (entry_env session i ref verifier) (new_host ref.registry)
                              ref.repository (asked_version session i ref) w).0,
                          r,
                        ))
                        synced)))
          ]

  sync_single_policy-own :
      (workspace : Option VerificationConfig) (i : ℕ) (entry : PolicyEntry) (ref : PolicyRef)
      (run : Run Stores)
      → parse_policy_ref session.parsers entry.url ≡ ok ref
      → (sync_single_policy session workspace i entry run).1 ≡ ok tt
      → is_recorded (sync_single_policy session workspace i entry run).0.world ref.repository ≡ true
  unfolding sync_single_policy
  sync_single_policy-own workspace i entry ref run parsed e =
      elim (Result-cases (resolve_verifier session.build entry workspace run.verifiers).1) [
        | inl (x, unbuilt) ↦ absurd (ground arith)
        | inr (verifier, resolved) ↦
            rw (parsed, resolved, sync_single_policy)
              (sync_ref-own i ref verifier run.world (ground arith))
      ]

  note_failure-append :
      (r : Check GetError) (xs ys : List GetError)
      → note_failure r (xs ++ ys) ≡ note_failure r xs ++ ys
  unfolding note_failure
  note_failure-append (ok _) xs ys = refl
  note_failure-append (err e) xs ys = refl

  -- A run of two lists of entries is a run of the second in what the first has left.
  sync_each_policy-append :
      (workspace : Option VerificationConfig) (before after : List PolicyEntry) (i : ℕ)
      (run : Run Stores)
      → sync_each_policy session workspace i (before ++ after) run ≡ (
        (sync_each_policy session workspace
            (i + length before)
            after
            (sync_each_policy session workspace i before run).0).0,
        (sync_each_policy session workspace i before run).1
            ++ (sync_each_policy session workspace
                (i + length before)
                after
                (sync_each_policy session workspace i before run).0).1,
      )
  unfolding sync_each_policy
  sync_each_policy-append workspace [] after i run =
      ap (λ j. sync_each_policy session workspace j after run) (omega arith)
  sync_each_policy-append workspace (entry ∷ before) after i run =
      let run' = (sync_single_policy session workspace i entry run).0 in
      let shift : suc i + length before ≡ i + suc (length before) = omega arith in
      rw (sync_each_policy-append workspace before after (suc i) run', shift)
        (ap
          (λ es. (
            (sync_each_policy session workspace (i + suc (length before)) after
                (sync_each_policy session workspace (suc i) before run').0).0,
            es,
          ))
          (note_failure-append (sync_single_policy session workspace i entry run).1 _ _))

  sync_each_policy-first :
      (workspace : Option VerificationConfig) (i : ℕ) (entry : PolicyEntry)
      (after : List PolicyEntry) (run run' : Run Stores)
      → sync_single_policy session workspace i entry run ≡ (run', ok tt)
      → sync_each_policy session workspace i (entry ∷ after) run
        ≡ sync_each_policy session workspace (suc i) after run'
  unfolding sync_each_policy note_failure
  sync_each_policy-first workspace i entry after run run' own = rw (own, note_failure) refl

  -- A policy whose own sync succeeds, in what the entries before it have left, is in the state when
  -- the run is over and adds no error, whatever the entries before and after it do: each of these is
  -- attempted too, and the errors of the run are theirs in their order.
  pub sync_all_policies-attempted :
      (workspace : Option VerificationConfig) (before after : List PolicyEntry)
      (entry : PolicyEntry) (ref : PolicyRef) (run run' : Run Stores)
      → parse_policy_ref session.parsers entry.url ≡ ok ref
      → sync_single_policy session workspace
          (length before)
          entry
          (sync_each_policy session workspace 0 before run).0
        ≡ (run', ok tt)
      → (is_recorded
            (sync_all_policies session workspace (before ++ entry ∷ after) run).0.world
            ref.repository
          ≡ true)
        × ((sync_all_policies session workspace (before ++ entry ∷ after) run).1
            ≡ (sync_each_policy session workspace 0 before run).1
              ++ (sync_each_policy session workspace (suc (length before)) after run').1)
  unfolding sync_all_policies is_recorded
  sync_all_policies-attempted workspace before after entry ref run run' parsed own =
      let own_recorded : is_recorded run'.world ref.repository ≡ true =
        subst (λ (p : Run Stores × Check GetError). is_recorded p.0.world ref.repository ≡ true) own
          (sync_single_policy-own workspace (length before) entry ref
            (sync_each_policy session workspace 0 before run).0 parsed (ap (λ p. p.1) own)) in
      let later =
        sync_each_policy-recorded workspace (suc (length before)) after ref.repository run'
          own_recorded in
      let first : 0 + length before ≡ length before = omega arith in
      rw
        (
          sync_each_policy-append workspace before (entry ∷ after) 0 run,
          first,
          sync_each_policy-first workspace (length before) entry after
              (sync_each_policy session workspace 0 before run).0 run' own,
        )
        (later, refl)

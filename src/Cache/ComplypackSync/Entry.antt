-- ===== src/Cache/ComplypackSync/Entry.antt =====
-- The update of one repository's entry: what it leaves alone, and what it records.
use complytime.Base.{
  String, true, Option, some, ◌==◌, ◌≡◌, ◌≢◌, inl, inr, arith, if◌then◌else◌, eq_refl, eq_iff, ◌∙◌,
  ap, sym,
}
use complytime.Base.Result.{Result, Result-cases, ok, err}
use complytime.Cache.State.{
  State, StateError, PolicyState, VerificationResult, new_entry, get_complypack_state,
  update_complypack_state,
}
use complytime.Cache.State.Invariant.{get-put, new_entry-digest, update_complypack_state-eq-ok}
use complytime.Cache.StateFile.{Codec, save_state}
use complytime.Cache.StateFile.Atomic.{save_state-written}
use complytime.Cache.ComplypackSync.{Env, World, record_state}

-- The policies and the entries of the other repositories are as they were.
pub record OthersKept (repository : String) (w w' : World) : Type 0 where
  pub policies : w'.state.policies ≡ w.state.policies
  pub complypacks :
      (id : String)
      → repository ≢ id
      → get_complypack_state w'.state id ≡ get_complypack_state w.state id

-- The repository's entry has the digest, and the state file holds the state.
pub record Recorded (codec : Codec) (repository digest : String) (w' : World) : Type 0 where
  pub entry : PolicyState
  pub found : get_complypack_state w'.state repository ≡ some entry
  pub same_digest : entry.digest ≡ digest
  pub saved : w'.disk.state_file ≡ codec.encode w'.state

module _ (env : Env) (repository : String) where
  pub OthersKept-of_state : (w w' : World) → w'.state ≡ w.state → OthersKept repository w w'
  OthersKept-of_state w w' e = record {
    policies = ap (λ (s : State). s.policies) e;
    complypacks = λ id other. ap (λ s. get_complypack_state s id) e;
  }

  pub OthersKept-trans :
      {u v w : World}
      → OthersKept repository u v
      → OthersKept repository v w
      → OthersKept repository u w
  OthersKept-trans h k = record {
    policies = k.policies ∙ h.policies;
    complypacks = λ id other. k.complypacks id other ∙ h.complypacks id other;
  }

  record_state-state : (t : State) (v : World) → (record_state env (ok t) v).0.state ≡ t
  unfolding record_state
  record_state-state t v = ground arith

  refused_not_ok : (x : StateError) (v w' : World) → ¬ (record_state env (err x) v ≡ (w', ok true))
  unfolding record_state
  refused_not_ok x v w' e = ground arith

  record_state-eq-true :
      (t : State) (v w' : World)
      → record_state env (ok t) v ≡ (w', ok true)
      → (w'.state ≡ t) × (save_state env.codec env.faults t v.disk ≡ (w'.disk, ok tt))
  unfolding record_state
  record_state-eq-true t v w' e = ground arith

  -- The state after an update of the repository's entry.
  module _ (version digest evaluator : String) (vr : Option VerificationResult) (w : World) where
    abbrev updated : Result StateError State
    updated =
        update_complypack_state env.digest_ok repository version digest evaluator vr env.now w.state

    get_complypack_state-update :
        (t : State)
        → updated ≡ ok t
        → (t.policies ≡ w.state.policies)
          × ((id : String)
              → get_complypack_state t id ≡ (
                  if repository == id
                  then some (new_entry version digest evaluator env.now vr)
                  else get_complypack_state w.state id))
    unfolding get_complypack_state
    get_complypack_state-update t e =
        let (valid, written) =
          update_complypack_state-eq-ok env.digest_ok repository version digest evaluator vr env.now
            w.state t e in
        (
          ap (λ (u : State). u.policies) written,
          λ id. rw written (
              get-put w.state.complypacks repository id
                (new_entry version digest evaluator env.now vr)),
        )

    pub record_state-OthersKept :
        (v : World) → v.state ≡ w.state → OthersKept repository w (record_state env updated v).0
    unfolding record_state
    record_state-OthersKept v e = elim (Result-cases updated) [
      | inl (x, refused) ↦
          OthersKept-of_state w (record_state env updated v).0 (rw (refused, record_state) e)
      | inr (t, done) ↦
          let (policies, entry) = get_complypack_state-update t done in
          let state = ap (λ r. (record_state env r v).0.state) done ∙ record_state-state t v in
          record {
            policies = ap (λ (s : State). s.policies) state ∙ policies;
            complypacks = λ id other.
                ap (λ s. get_complypack_state s id) state
                ∙ entry id
                ∙ ground (arith, eq_iff repository id);
          }
    ]

    pub record_state-Recorded :
        (v w' : World)
        → record_state env updated v ≡ (w', ok true)
        → Recorded env.codec repository digest w'
    record_state-Recorded v w' e = elim (Result-cases updated) [
      | inl (x, refused) ↦
          absurd (refused_not_ok x v w' (ap (λ r. record_state env r v) (sym refused) ∙ e))
      | inr (t, done) ↦
          let (state, saved) =
            record_state-eq-true t v w' (ap (λ r. record_state env r v) (sym done) ∙ e) in
          let (policies, entry) = get_complypack_state-update t done in
          let (text, encoded, written) =
            save_state-written env.codec env.faults t v.disk (ap (λ p. p.1) saved) in
          record {
            entry = new_entry version digest evaluator env.now vr;
            found =
                ap (λ s. get_complypack_state s repository) state
                ∙ entry repository
                ∙ rw (eq_refl repository);
            same_digest = new_entry-digest env.digest_ok version digest evaluator env.now vr;
            saved =
                sym (ap (λ p. p.0.state_file) saved)
                ∙ written
                ∙ sym encoded
                ∙ ap env.codec.encode (sym state);
          }
    ]

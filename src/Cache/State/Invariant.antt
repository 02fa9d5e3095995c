-- ===== src/Cache/State/Invariant.antt =====
-- The digests of the state, and what each operation leaves in its two maps.
use mathlib.Core.Option
use complytime.Base.{
  ℕ, String, Bool, true, Option, none, some, [], ◌∷◌, ◌≡◌, refl, ◌⊎◌, inl, inr, arith, ◌==◌, eq_iff,
  keep, if◌then◌else◌, Option-cases,
}
use complytime.Base.Result.{ok, is_ok}
use complytime.Base.Table.{Table, lookup-insert, AllValues, AllValues-insert, AllValues-lookup}
use complytime.Cache.State.{
  VerificationResult, PolicyState, State, StateMap, entries, get, put, new_entry,
  set_policy_metadata, validate_digest, exclude_malformed, exclude_malformed_digests,
  update_policy_state, update_complypack_state,
}

pub get-put :
    (m : StateMap) (k j : String) (ps : PolicyState)
    → get (put k ps m) j ≡ (if k == j then some ps else get m j)
unfolding get put
get-put m k j ps = lookup-insert k j ps (entries m)

module _ (digest_ok : String → Bool) where
  -- No digest was recorded, or go-digest accepts it.
  abbrev pub HasDigest : PolicyState → Type 0
  HasDigest ps = (ps.digest ≡ "") ⊎ (digest_ok ps.digest ≡ true)

  -- Every entry of both maps has a usable digest.
  pub record IsWellFormed (s : State) : Type 0 where
    pub policy_digests : AllValues HasDigest (entries s.policies)
    pub complypack_digests : AllValues HasDigest (entries s.complypacks)

  pub validate_digest-HasDigest :
      (ps : PolicyState) → is_ok (validate_digest digest_ok ps.digest) ≡ true → HasDigest ps
  unfolding validate_digest
  validate_digest-HasDigest ps h = ground (arith, eq_iff ps.digest "")

  exclude_malformed-HasDigest :
      (m : Table PolicyState) → AllValues HasDigest (exclude_malformed digest_ok m)
  unfolding exclude_malformed keep
  exclude_malformed-HasDigest [] = tt
  exclude_malformed-HasDigest ((k, ps) ∷ m) =
      ground (arith, exclude_malformed-HasDigest m, validate_digest-HasDigest ps)

  of_map :
      (m : StateMap) → AllValues HasDigest (entries (Option.map (exclude_malformed digest_ok) m))
  of_map none = tt
  of_map (some m) = exclude_malformed-HasDigest m

  -- Whatever a state file holds, what is left after the malformed entries are excluded is
  -- well formed.
  pub exclude_malformed_digests-IsWellFormed :
      (s : State) → IsWellFormed (exclude_malformed_digests digest_ok s)
  unfolding exclude_malformed_digests
  exclude_malformed_digests-IsWellFormed s = record {
    policy_digests = of_map s.policies;
    complypack_digests = of_map s.complypacks;
  }

  pub new_entry-digest :
      (version digest evaluator_id : String) (now : ℕ) (vr : Option VerificationResult)
      → (new_entry version digest evaluator_id now vr).digest ≡ digest
  unfolding new_entry
  new_entry-digest version digest evaluator_id now none = refl
  new_entry-digest version digest evaluator_id now (some vr) = refl

  new_entry-HasDigest :
      (version digest evaluator_id : String) (now : ℕ) (vr : Option VerificationResult)
      → is_ok (validate_digest digest_ok digest) ≡ true
      → HasDigest (new_entry version digest evaluator_id now vr)
  new_entry-HasDigest version digest evaluator_id now vr h =
      validate_digest-HasDigest (new_entry version digest evaluator_id now vr)
        (rw new_entry-digest h)

  put-HasDigest :
      (k : String) (ps : PolicyState) (m : StateMap)
      → HasDigest ps
      → AllValues HasDigest (entries m)
      → AllValues HasDigest (entries (put k ps m))
  unfolding put
  put-HasDigest k ps m p h = AllValues-insert HasDigest k ps (entries m) p h

  -- A successful update of a policy has checked the digest and has written one entry.
  pub update_policy_state-eq-ok :
      (id version digest : String) (vr : Option VerificationResult) (now : ℕ) (s t : State)
      → update_policy_state digest_ok id version digest vr now s ≡ ok t
      → (is_ok (validate_digest digest_ok digest) ≡ true)
        × (t ≡ record s {
          policies = put id (new_entry version digest "" now vr) s.policies;
          last_sync = now;
        })
  unfolding update_policy_state
  update_policy_state-eq-ok id version digest vr now s t e = ground arith

  pub update_complypack_state-eq-ok :
      (id version digest evaluator : String) (vr : Option VerificationResult) (now : ℕ)
      (s t : State)
      → update_complypack_state digest_ok id version digest evaluator vr now s ≡ ok t
      → (is_ok (validate_digest digest_ok digest) ≡ true)
        × (t ≡ record s {
          complypacks = put id (new_entry version digest evaluator now vr) s.complypacks;
          last_sync = now;
        })
  unfolding update_complypack_state
  update_complypack_state-eq-ok id version digest evaluator vr now s t e = ground arith

  update_policy_state-IsWellFormed :
      (id version digest : String) (vr : Option VerificationResult) (now : ℕ) (s t : State)
      → IsWellFormed s
      → update_policy_state digest_ok id version digest vr now s ≡ ok t
      → IsWellFormed t
  update_policy_state-IsWellFormed id version digest vr now s t h e =
      let (valid, written) = update_policy_state-eq-ok id version digest vr now s t e in
      rw written (record {
        policy_digests =
            put-HasDigest id (new_entry version digest "" now vr) s.policies
              (new_entry-HasDigest version digest "" now vr valid) h.policy_digests;
        complypack_digests = h.complypack_digests;
      })

  update_complypack_state-IsWellFormed :
      (id version digest evaluator : String) (vr : Option VerificationResult) (now : ℕ)
      (s t : State)
      → IsWellFormed s
      → update_complypack_state digest_ok id version digest evaluator vr now s ≡ ok t
      → IsWellFormed t
  update_complypack_state-IsWellFormed id version digest evaluator vr now s t h e =
      let (valid, written) =
        update_complypack_state-eq-ok id version digest evaluator vr now s t e in
      rw written (record {
        policy_digests = h.policy_digests;
        complypack_digests =
            put-HasDigest id (new_entry version digest evaluator now vr) s.complypacks
              (new_entry-HasDigest version digest evaluator now vr valid) h.complypack_digests;
      })

  set_policy_metadata-IsWellFormed :
      (id title evaluator : String) (controls assessments : ℕ) (s : State)
      → IsWellFormed s
      → IsWellFormed (set_policy_metadata id title evaluator controls assessments s)
  unfolding set_policy_metadata
  set_policy_metadata-IsWellFormed id title evaluator controls assessments s h =
      elim (Option-cases (get s.policies id)) [
        | inl e ↦ rw (e, set_policy_metadata) h
        | inr (ps, e) ↦
            rw (e, set_policy_metadata)
              (record {
                policy_digests =
                    put-HasDigest id
                      (record ps {
                        policy_title = title;
                        policy_evaluator = evaluator;
                        control_count = controls;
                        assessment_count = assessments;
                      })
                      s.policies
                      (AllValues-lookup HasDigest id (entries s.policies) ps h.policy_digests
                        (unfold get in e))
                      h.policy_digests;
                complypack_digests = h.complypack_digests;
              })
      ]

  -- What the program does to a loaded state.
  pub data Step (s : State) : State → Type 0 where
    policy_synced :
        {t : State} (id version digest : String) (vr : Option VerificationResult) (now : ℕ)
        → update_policy_state digest_ok id version digest vr now s ≡ ok t
        → Step s t
    complypack_synced :
        {t : State} (id version digest evaluator : String) (vr : Option VerificationResult)
        (now : ℕ)
        → update_complypack_state digest_ok id version digest evaluator vr now s ≡ ok t
        → Step s t
    metadata_set :
        (id title evaluator : String) (controls assessments : ℕ)
        → Step s (set_policy_metadata id title evaluator controls assessments s)

  pub data Reach (s : State) : State → Type 0 where
    here : Reach s s
    next : {t u : State} → Reach s t → Step t u → Reach s u

  Step-IsWellFormed : {s t : State} → IsWellFormed s → Step s t → IsWellFormed t
  Step-IsWellFormed {s} {t} h (policy_synced id version digest vr now e) =
      update_policy_state-IsWellFormed id version digest vr now s t h e
  Step-IsWellFormed {s} {t} h (complypack_synced id version digest evaluator vr now e) =
      update_complypack_state-IsWellFormed id version digest evaluator vr now s t h e
  Step-IsWellFormed {s} h (metadata_set id title evaluator controls assessments) =
      set_policy_metadata-IsWellFormed id title evaluator controls assessments s h

  Reach-IsWellFormed : {s t : State} → IsWellFormed s → Reach s t → IsWellFormed t
  Reach-IsWellFormed h here = h
  Reach-IsWellFormed h (next r st) = Step-IsWellFormed (Reach-IsWellFormed h r) st

  -- From whatever a state file held, after its malformed entries are excluded, any sequence of
  -- policy updates, complypack updates and metadata updates keeps every recorded digest empty or
  -- accepted by go-digest.
  pub Reach-IsWellFormed_of_load :
      (s : State) {t : State} → Reach (exclude_malformed_digests digest_ok s) t → IsWellFormed t
  Reach-IsWellFormed_of_load s r = Reach-IsWellFormed (exclude_malformed_digests-IsWellFormed s) r

-- ===== src/Cache/StateFile/Atomic.antt =====
-- SaveState replaces the file as a whole or leaves it, and LoadState reads back what was saved.
use complytime.Base.{
  String, Bool, true, false, none, some, [], ◌∷◌, ◌≡◌, refl, ◌∙◌, ◌⊎◌, arith, ap, eq_iff, keep,
}
use complytime.Base.Result.{ok, err, is_ok}
use complytime.Base.Table.{Table, AllValues}
use complytime.Cache.State.{
  PolicyState, State, StateMap, entries, init_state_maps, exclude_malformed,
  exclude_malformed_digests, validate_digest,
}
use complytime.Cache.State.Invariant.{HasDigest, IsWellFormed}
use complytime.Cache.StateFile.{Codec, Disk, Faults, FileError, save_state, load_state}

-- Either the whole new text stands in the state file, and no temporary file is left; or an error is
-- returned and the state file is what it was, and a temporary file is left only where its removal
-- failed as well (none was there before).
pub save_state-atomic :
    (codec : Codec) (f : Faults) (s : State) (d : Disk)
    → d.temp_file ≡ none
    → let (d', r) = save_state codec f s d in
      ((r ≡ ok tt) × (d'.state_file ≡ codec.encode s) × (d'.temp_file ≡ none))
      ⊎ ((is_ok r ≡ false)
          × (d'.state_file ≡ d.state_file)
          × ((f.remove ≡ true) ⊎ (d'.temp_file ≡ none)))
unfolding save_state
save_state-atomic codec f s d clean = ground arith

-- A successful save has written the whole encoded text.
pub save_state-written :
    (codec : Codec) (f : Faults) (s : State) (d : Disk)
    → (save_state codec f s d).1 ≡ ok tt
    → (text : String) × (codec.encode s ≡ some text)
      × ((save_state codec f s d).0.state_file ≡ some text)
unfolding save_state
save_state-written codec f s d done = ground arith

pub save_state-failed :
    (codec : Codec) (f : Faults) (s : State) (d : Disk) (x : FileError)
    → (save_state codec f s d).1 ≡ err x
    → (save_state codec f s d).0.state_file ≡ d.state_file
unfolding save_state
save_state-failed codec f s d x failed = ground arith

-- The `omitempty` of the complypacks: an empty map is not written.
omit_map : StateMap → StateMap
omit_map none = none
omit_map (some []) = none
omit_map (some (e ∷ m)) = some (e ∷ m)

unfoldable pub omit_empty : State → State
unfolding omit_map
omit_empty s = record s { complypacks = omit_map s.complypacks }

entries-omit_map : (m : StateMap) → entries (omit_map m) ≡ entries m
unfolding omit_map
entries-omit_map none = refl
entries-omit_map (some []) = refl
entries-omit_map (some (e ∷ m)) = refl

init_state_maps-omit_empty : (s : State) → init_state_maps (omit_empty s) ≡ init_state_maps s
unfolding init_state_maps omit_empty
init_state_maps-omit_empty s = rw (entries-omit_map s.complypacks)

module _ (digest_ok : String → Bool) where
  validate_digest-of_HasDigest :
      (ps : PolicyState)
      → HasDigest digest_ok ps
      → is_ok (validate_digest digest_ok ps.digest) ≡ true
  unfolding validate_digest
  validate_digest-of_HasDigest ps h = ground (arith, eq_iff ps.digest "")

  exclude_malformed-eq_self :
      (m : Table PolicyState)
      → AllValues (HasDigest digest_ok) m
      → exclude_malformed digest_ok m ≡ m
  unfolding exclude_malformed keep
  exclude_malformed-eq_self [] h = refl
  exclude_malformed-eq_self ((k, ps) ∷ m) h =
      rw (validate_digest-of_HasDigest ps h.0)
        (ap (λ r. (k, ps) ∷ r) (exclude_malformed-eq_self m h.1))

  exclude_malformed_digests-init_state_maps :
      (s : State)
      → IsWellFormed digest_ok s
      → exclude_malformed_digests digest_ok (init_state_maps s) ≡ init_state_maps s
  unfolding exclude_malformed_digests init_state_maps
  exclude_malformed_digests-init_state_maps s h = rw (
    exclude_malformed-eq_self (entries s.policies) h.policy_digests,
    exclude_malformed-eq_self (entries s.complypacks) h.complypack_digests,
  )

  load_state-decoded :
      (codec : Codec) (d : Disk) (text : String) (s : State)
      → d.state_file ≡ some text
      → codec.decode text ≡ some s
      → load_state digest_ok codec false d
        ≡ ok (exclude_malformed_digests digest_ok (init_state_maps s))
  unfolding load_state
  load_state-decoded codec d text s e g = rw (e, g)

  -- After a save that reports success, a load answers the saved state with its nil maps made, if
  -- every digest in the state is empty or accepted by go-digest. It is assumed that decoding an
  -- encoded state gives the state with an empty complypack map left out, as `omitempty` asks.
  pub load-save_state :
      (codec : Codec)
      → ((s : State) (text : String)
          → codec.encode s ≡ some text
          → codec.decode text ≡ some (omit_empty s))
      → (f : Faults) (s : State) (d : Disk) → IsWellFormed digest_ok s
      → (save_state codec f s d).1 ≡ ok tt
      → load_state digest_ok codec false (save_state codec f s d).0 ≡ ok (init_state_maps s)
  load-save_state codec round_trip f s d h done =
      let (text, encoded, stored) = save_state-written codec f s d done in
      load_state-decoded codec (save_state codec f s d).0 text (omit_empty s) stored
        (round_trip s text encoded)
      ∙ rw (init_state_maps-omit_empty s, exclude_malformed_digests-init_state_maps s h)

-- ===== src/Tests/States.antt =====
-- The state and its file: runs, and the theorems at concrete data.
use complytime.Base.{keep, String, true, false, none, some, [], ◌∷◌, ◌≡◌, refl, ◌⊎◌, inr, ◌↔◌, ◌≢◌}
use complytime.Base.Result.{ok, err, is_ok}
use complytime.Base.Table.{Table}
use complytime.Base.Text.{contains_text, all_runes, has_prefix}
use complytime.Cache.State.{
  PolicyState, State, entries, exclude_malformed_digests, set_policy_metadata,
  evaluator_id_to_version, duplicate_evaluator, init_state_maps,
}
use complytime.Cache.State.Invariant.{
  IsWellFormed, metadata_set, Reach, here, next, Reach-IsWellFormed_of_load,
}
use complytime.Cache.State.Evaluators.{versions_of, the_only, evaluator_id_to_version_lem}
use complytime.Cache.StateFile.{Disk, Faults, no_faults, save_state, load_state}
use complytime.Cache.StateFile.Atomic.{save_state-atomic, load-save_state}
use complytime.Cache.PathComponent.{
  is_path_rune, validate_path_component, validate_path_component-accepts,
}
use complytime.Tests.Fixtures.{encode, digest_ok, entry, state, one_policy, codec, codec_round_trip}

-- The malformed policy is dropped, and everything else stays.
malformed_dropped :
    entries (exclude_malformed_digests digest_ok state).policies
    ≡ ("p/nist", entry "v1" "sha256:a" "" 3) ∷ []
unfolding exclude_malformed_digests keep has_prefix
malformed_dropped = refl

loaded : State
loaded = exclude_malformed_digests digest_ok state

titled : State
titled = set_policy_metadata "p/nist" "NIST" "opa" 3 4 loaded

titled_reached : Reach digest_ok loaded titled
unfolding titled
titled_reached = next here (metadata_set "p/nist" "NIST" "opa" 3 4)

Reach-IsWellFormed_of_load_example : IsWellFormed digest_ok titled
unfolding loaded
Reach-IsWellFormed_of_load_example = Reach-IsWellFormed_of_load digest_ok state titled_reached

evaluator_id_to_version_lem_example :
    evaluator_id_to_version "opa" (some state)
    ≡ the_only "opa" (versions_of "opa" (entries state.complypacks))
evaluator_id_to_version_lem_example = evaluator_id_to_version_lem "opa" state

two_repositories : evaluator_id_to_version "opa" (some state) ≡ err (duplicate_evaluator "opa")
unfolding evaluator_id_to_version
two_repositories = refl

one_repository : evaluator_id_to_version "ampel" (some state) ≡ ok ("0.9", true)
unfolding evaluator_id_to_version
one_repository = refl

abbrev dots : String
dots = ".."

abbrev pack : String × PolicyState
pack = ("c/opa", entry "1.0" "sha256:b" "opa" 1)

abbrev other_pack : String × PolicyState
other_pack = ("c/ampel", entry "0.9" "sha256:d" "ampel" 3)

abbrev with_packs : Table PolicyState → State
with_packs m = record { last_sync = 0; policies = none; complypacks = some m }

abbrev disk : Disk
disk = record { state_file = some "old"; temp_file = none }

abbrev failing_rename : Faults
failing_rename = record no_faults { rename = true }

saved : Disk
unfolding save_state
saved = (save_state codec failing_rename (one_policy "sha256:a") disk).0

save_state-atomic_example :
    let (d', r) = save_state codec failing_rename (one_policy "sha256:a") disk in
    ((r ≡ ok tt) × (d'.state_file ≡ codec.encode (one_policy "sha256:a")) × (d'.temp_file ≡ none))
    ⊎ ((is_ok r ≡ false)
        × (d'.state_file ≡ disk.state_file)
        × ((failing_rename.remove ≡ true) ⊎ (d'.temp_file ≡ none)))
save_state-atomic_example = save_state-atomic codec failing_rename (one_policy "sha256:a") disk refl

save_failed : saved ≡ disk
unfolding saved encode
save_failed = refl

one_policy-IsWellFormed : IsWellFormed digest_ok (one_policy "sha256:a")
unfolding has_prefix
one_policy-IsWellFormed = record { policy_digests = (inr refl, tt); complypack_digests = tt }

one_policy_saved : (save_state codec no_faults (one_policy "sha256:a") disk).1 ≡ ok tt
unfolding save_state encode
one_policy_saved = refl

load-save_state_example :
    load_state digest_ok codec false (save_state codec no_faults (one_policy "sha256:a") disk).0
    ≡ ok (init_state_maps (one_policy "sha256:a"))
load-save_state_example =
    load-save_state digest_ok codec codec_round_trip no_faults (one_policy "sha256:a") disk
      one_policy-IsWellFormed one_policy_saved

validate_path_component-accepts_example :
    (is_ok (validate_path_component dots) ≡ true)
    ↔ ((dots ≢ "") × (contains_text dots ".." ≡ false) × (all_runes is_path_rune dots ≡ true))
validate_path_component-accepts_example = validate_path_component-accepts dots

localhost_bare : has_prefix "localhost:5000/" "https://" ≡ false
unfolding has_prefix
localhost_bare = refl

-- A single dot passes, which names the directory itself.
dot_accepted : validate_path_component "." ≡ ok tt
unfolding validate_path_component complytime.Base.Text.contains_rune contains_text all_runes
    is_path_rune
dot_accepted = refl

-- ===== src/Cli/Scan/Freshness.antt =====
-- cmd/complyctl/cli/scan.go: when artifacts are generated again, and what is recorded then.
pub mod Settled
use complytime.Cache.State.{State, PolicyState, entries}
use complytime.Policy.Freshness.{is_fresh, new_generation_state}
use complytime.Policy.Generation.{GenerationState}
use complytime.Base.Table.{insert, lookup, Table}
use complytime.Base.{
  none, false, not, true, some, ◌||◌, Option, all, ◌==◌, Bool, List, [], ◌∷◌, if◌then◌else◌, String,
}

unfoldable pub add_digest : PolicyState → Table String → Table String
add_digest ps digests =
    if ps.evaluator_id == "" || ps.digest == ""
    then digests
    else insert ps.evaluator_id ps.digest digests

-- The loop over the state's map.
unfoldable pub digests_of : Table PolicyState → Table String → Table String
digests_of [] digests = digests
digests_of (entry ∷ packs) digests = digests_of packs (add_digest entry.1 digests)

unfoldable pub complypack_digests_by_evaluator : State → Table String
complypack_digests_by_evaluator s = digests_of (entries s.complypacks) []

unfoldable pub copy_digest : Table String → String → Table String → Table String
copy_digest all_digests evaluator filtered = elim (lookup evaluator all_digests) [
  | some digest ↦ insert evaluator digest filtered
  | none ↦ filtered
]

unfoldable pub copy_digests : Table String → List String → Table String → Table String
copy_digests all_digests [] filtered = filtered
copy_digests all_digests (evaluator ∷ available) filtered =
    copy_digests all_digests available (copy_digest all_digests evaluator filtered)

unfoldable pub filter_complypack_digests : Table String → List String → Table String
filter_complypack_digests all_digests available = copy_digests all_digests available []

-- `has_artifacts` tells whether an evaluator's directory is one, can be listed and is not empty.
unfoldable pub evaluator_artifacts_exist : (String → Bool) → List String → Bool
evaluator_artifacts_exist has_artifacts ids = all has_artifacts ids

unfoldable pub needs_regeneration :
    (String → Bool) → Option GenerationState → String → Table String → Bool
needs_regeneration has_artifacts none digest complypack_digests = true
needs_regeneration has_artifacts (some generated) digest complypack_digests =
    if not (is_fresh generated digest complypack_digests)
    then true
    else if not (evaluator_artifacts_exist has_artifacts generated.evaluator_ids)
    then true
    else false

-- What runGeneration saves, once the plugins have generated.
unfoldable pub generated_state :
    String → String → String → List String → Table String → List String → GenerationState
generated_state now repository policy_digest evaluator_ids complypack_digests available =
    new_generation_state now repository policy_digest evaluator_ids
      (filter_complypack_digests complypack_digests available)

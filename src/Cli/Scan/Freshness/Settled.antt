-- ===== src/Cli/Scan/Freshness/Settled.antt =====
-- Whether a scan reuses what the scan before it generated.
use complytime.Cache.State.{State, PolicyState, entries}
use complytime.Policy.Freshness.{entries_equal, maps_equal, is_fresh, new_generation_state}
use complytime.Cli.Scan.Freshness.{
  copy_digest, add_digest, digests_of, complypack_digests_by_evaluator, copy_digests,
  filter_complypack_digests, evaluator_artifacts_exist, needs_regeneration, generated_state,
}
use complytime.Base.Table.{lookup, insert, Table}
use complytime.Base.{
  length-map, not, Bool, all, eq_refl, Option-cases, ◌&&◌, true, some, ◌∙◌, refl, inr, [], inl,
  Bool-cases, arith, ◌||◌, ◌∷◌, ◌==◌, ◌≡◌, List, String, contains,
}
use complytime.Base.Members.{Distinct}
use complytime.Base.Keys.{contains-keys-insert, contains-keys_at, insert-Distinct, keys}
use complytime.Base.Covers.{length-covers}

digests_of-Distinct :
    (packs : Table PolicyState) (m : Table String)
    → Distinct (keys m)
    → Distinct (keys (digests_of packs m))
unfolding digests_of add_digest
digests_of-Distinct [] m h = h
digests_of-Distinct ((repository, ps) ∷ packs) m h =
    digests_of-Distinct packs (add_digest ps m)
      (elim (Bool-cases (ps.evaluator_id == "" || ps.digest == "")) [
        | inl skipped ↦ rw (add_digest, skipped) h
        | inr taken ↦ rw (add_digest, taken) (insert-Distinct ps.evaluator_id ps.digest m h)
      ])

entries_equal-insert :
    (k v : String) (m n : Table String)
    → lookup k n ≡ some v
    → entries_equal m n ≡ true
    → entries_equal (insert k v m) n ≡ true
unfolding entries_equal insert
entries_equal-insert k v [] n found h = ground (arith, found, eq_refl v)
entries_equal-insert k v (e ∷ m) n found h = elim (Bool-cases (e.0 == k)) [
  | inl same ↦ rw (insert, same) (ground (arith, found, eq_refl v))
  | inr other ↦ rw (insert, other) (ground (arith, entries_equal-insert k v m n found))
]

copy_digest_lem :
    (digests : Table String) (evaluator : String) (filtered : Table String)
    → Distinct (keys filtered)
    → entries_equal filtered digests ≡ true
    → (Distinct (keys (copy_digest digests evaluator filtered)))
      × (entries_equal (copy_digest digests evaluator filtered) digests ≡ true)
      × ((j : String)
          → contains (keys (copy_digest digests evaluator filtered)) j
            ≡ (contains (keys filtered) j || evaluator == j && contains (keys digests) j))
unfolding copy_digest
copy_digest_lem digests evaluator filtered distinct h =
    elim (Option-cases (lookup evaluator digests)) [
      | inl missing ↦
          rw (copy_digest, missing)
            (distinct, h, λ j. ground (arith, missing, contains-keys_at digests evaluator j))
      | inr (digest, found) ↦
          rw (copy_digest, found)
            (
              insert-Distinct evaluator digest filtered distinct,
              entries_equal-insert evaluator digest filtered digests found h,
              λ j.
                  contains-keys-insert evaluator digest j filtered
                  ∙ ground (arith, found, contains-keys_at digests evaluator j),
            )
    ]

copy_digests_lem :
    (digests : Table String) (available : List String) (filtered : Table String)
    → Distinct (keys filtered)
    → entries_equal filtered digests ≡ true
    → (Distinct (keys (copy_digests digests available filtered)))
      × (entries_equal (copy_digests digests available filtered) digests ≡ true)
      × ((j : String)
          → contains (keys (copy_digests digests available filtered)) j
            ≡ (contains (keys filtered) j || contains available j && contains (keys digests) j))
unfolding copy_digests contains
copy_digests_lem digests [] filtered distinct h = (distinct, h, λ j. ground arith)
copy_digests_lem digests (evaluator ∷ available) filtered distinct h =
    let (one, equal, has) = copy_digest_lem digests evaluator filtered distinct h in
    let (rest, agree, found) =
      copy_digests_lem digests available (copy_digest digests evaluator filtered) one equal in
    (rest, agree, λ j. ground (arith, found j, has j))

maps_equal-copy_digests :
    (digests : Table String) (available : List String)
    → Distinct (keys digests)
    → maps_equal (filter_complypack_digests digests available) digests
      ≡ all (contains available) (keys digests)
unfolding maps_equal filter_complypack_digests entries_equal contains
maps_equal-copy_digests digests available unique =
    let (distinct, equal, found) = copy_digests_lem digests available [] tt refl in
    let covers =
      length-covers (contains available) (keys (copy_digests digests available [])) (keys digests)
        distinct unique found in
    ground (
      arith,
      equal,
      covers,
      length-map (λ (e : String × String). e.0) (copy_digests digests available []),
      length-map (λ (e : String × String). e.0) digests,
    )

-- After artifacts were generated and recorded, a check against the same policy digest and the same
-- state reuses them, where they are on disk, exactly if every evaluator that the state has a
-- complypack for had its content at hand during the generation.
pub needs_regeneration-generated :
    (has_artifacts : String → Bool) (now repository digest : String)
    (evaluators available : List String) (s : State)
    → all has_artifacts evaluators ≡ true
    → needs_regeneration has_artifacts
        (some (
          generated_state now repository digest evaluators
            (complypack_digests_by_evaluator s)
            available))
        digest
        (complypack_digests_by_evaluator s)
      ≡ not (all (contains available) (keys (complypack_digests_by_evaluator s)))
unfolding needs_regeneration generated_state is_fresh new_generation_state evaluator_artifacts_exist
    complypack_digests_by_evaluator
needs_regeneration-generated has_artifacts now repository digest evaluators available s present =
    rw
      (
        eq_refl digest,
        present,
        maps_equal-copy_digests (complypack_digests_by_evaluator s) available
            (digests_of-Distinct (entries s.complypacks) [] tt),
      )
      (ground arith)

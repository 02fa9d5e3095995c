-- ===== src/Tests/Complypacks.antt =====
-- The complypack cache: runs, and the theorems at concrete data.
use complytime.Base.{
  arith, eq_iff, ℕ, String, Bool, true, false, Option, none, some, [], ◌∷◌, ◌≡◌, ◌≢◌, refl, ◌==◌,
  ◌&&◌, if◌then◌else◌,
}
use complytime.Base.Table.{Table}
use complytime.Base.Result.{ok, err}
use complytime.Cache.Eviction.{Entry}
use complytime.Cache.Complypack.{
  CacheError, ComplypackCache, ContentPath, StoreFaults, Tree, store, lookup_version,
  lookup_by_evaluator_id, version_entry,
}
use complytime.Cache.Complypack.Stored.{cached, left_over, store-lookup_version, store-failed}
use complytime.Tests.Fixtures.{config, config_codec, config_codec_round_trip}
use complytime.Tests.Sorting.{sorter}

abbrev tree : Tree
tree = ("opa", (("1.0", version_entry "old" "1.0") ∷ [])) ∷ []

abbrev cache : ComplypackCache
cache = record { tree = tree; state = none; retention_count = 1 }

abbrev pub faults : StoreFaults
faults = record {
  parent = false;
  temp = false;
  content = false;
  config = false;
  remove = none;
  remove_evaluator = none;
  rename = false;
  stuck = λ v. none;
  stuck_evaluators = λ id. none;
  unreadable = false;
}

abbrev failing_rename : StoreFaults
failing_rename = record faults { rename = true }

-- Without a state every other version is an orphan.
abbrev after_store : ComplypackCache
after_store = record cache { tree = ("opa", (("2.0", version_entry "new" "2.0") ∷ [])) ∷ [] }

abbrev opa : String
opa = "opa"

abbrev one : String
one = "1.0"

abbrev two : String
two = "2.0"

opa_proper : opa ≢ "."
opa_proper = ground (arith, eq_iff opa ".")

one_proper : one ≢ "."
one_proper = ground (arith, eq_iff one ".")

two_proper : two ≢ "."
two_proper = ground (arith, eq_iff two ".")

stored :
    store config_codec sorter faults (config "2.0") "new" cache ≡ (after_store, ok ("opa", "2.0"))
unfolding store complytime.Cache.PathComponent.validate_path_component
    complytime.Base.Text.contains_rune complytime.Base.Text.contains_text
    complytime.Base.Text.all_runes complytime.Cache.PathComponent.is_path_rune
    complytime.Cache.Complypack.replace_version complytime.Base.Table.insert
    complytime.Cache.Eviction.evict_old_versions complytime.Cache.Eviction.remove_all
    complytime.Base.keep complytime.Cache.Complypack.place complytime.Cache.Complypack.remove_entry
    complytime.Base.Table.lookup complytime.Base.contains complytime.Cache.Eviction.victims
    complytime.Cache.Eviction.candidates complytime.Base.Text.has_prefix
    complytime.Base.Text.strip_prefix complytime.Cache.Eviction.build_tracked_version_set
    complytime.Cache.Eviction.is_candidate complytime.Cache.Eviction.last_updated
    complytime.Cache.Eviction.orphaned complytime.Cache.Eviction.recorded
    complytime.Cache.Eviction.sort_by_last_updated complytime.Cache.Eviction.take
    complytime.Cache.Eviction.timestamps complytime.Cache.Eviction.tracked
stored = refl

store-lookup_version_example :
    (lookup_version config_codec "opa" "2.0" after_store ≡ ok (("opa", "2.0"), config "2.0"))
    × ((text : String) × (config_codec.encode (config "2.0") ≡ some text)
        × (cached "opa" "2.0" after_store ≡ some (version_entry "new" text)))
store-lookup_version_example =
    store-lookup_version config_codec sorter faults (config "2.0") "new" opa_proper two_proper
      config_codec_round_trip cache after_store ("opa", "2.0") stored

abbrev after_failure : ComplypackCache
after_failure = record cache { tree = ("opa", []) ∷ [] }

rename_fails :
    store config_codec sorter failing_rename (config "1.0") "new" cache
    ≡ (after_failure, err CacheError.rename_temp)
unfolding store complytime.Cache.PathComponent.validate_path_component
    complytime.Base.Text.contains_rune complytime.Base.Text.contains_text
    complytime.Base.Text.all_runes complytime.Cache.PathComponent.is_path_rune
    complytime.Cache.Complypack.replace_version complytime.Base.Table.insert
    complytime.Cache.Complypack.remove_entry complytime.Base.Table.lookup
rename_fails = refl

-- The earlier content of the version that was to be replaced is gone.
store-failed_example : cached "opa" "1.0" after_failure ≡ (
    if "opa" == "opa" && "1.0" == "1.0"
    then left_over none CacheError.rename_temp (cached "opa" "1.0" cache)
    else cached "opa" "1.0" cache)
store-failed_example =
    store-failed config_codec sorter failing_rename (config "1.0") "new" cache after_failure
      CacheError.rename_temp opa_proper one_proper rename_fails "opa" "1.0"

-- A removal that fails after the configuration is gone leaves the content.
abbrev failing_remove : StoreFaults
failing_remove = record faults { remove = some (record { content = true; config = false }) }

remove_fails : store config_codec sorter failing_remove (config "1.0") "new" cache ≡ (
  record cache {
    tree =
        ("opa", (("1.0", record { is_dir = true; content = some "old"; config = none }) ∷ [])) ∷ [];
  },
  err CacheError.remove_existing,
)
unfolding store complytime.Cache.PathComponent.validate_path_component
    complytime.Base.Text.contains_rune complytime.Base.Text.contains_text
    complytime.Base.Text.all_runes complytime.Cache.PathComponent.is_path_rune
    complytime.Cache.Complypack.replace_version complytime.Base.Table.insert
    complytime.Cache.Complypack.damage_entry complytime.Base.Table.lookup
    complytime.Cache.Eviction.remain
remove_fails = refl

-- The version "." replaces its evaluator's directory, and the eviction after it, which then works
-- among the evaluators, removes that one and every other.
dot_loses_all :
    store config_codec sorter faults
      (config ".")
      "new"
      (record cache { tree = ("scap", (("3.0", version_entry "other" "3.0") ∷ [])) ∷ tree })
    ≡ (record cache { tree = [] }, ok ("opa", "."))
unfolding store complytime.Cache.PathComponent.validate_path_component
    complytime.Base.Text.contains_rune complytime.Base.Text.contains_text
    complytime.Base.Text.all_runes complytime.Cache.PathComponent.is_path_rune
    complytime.Cache.Complypack.replace_evaluator complytime.Cache.Eviction.evict_evaluators
    complytime.Cache.Eviction.remove_evaluators complytime.Base.Table.insert
    complytime.Base.contains complytime.Cache.Eviction.victims complytime.Cache.Eviction.candidates
    complytime.Base.keep complytime.Cache.Eviction.is_candidate
dot_loses_all = refl

found_by_scan :
    lookup_by_evaluator_id config_codec false "opa" cache ≡ ok (some (("opa", "1.0"), config "1.0"))
unfolding lookup_by_evaluator_id complytime.Cache.PathComponent.validate_path_component
    complytime.Base.Text.contains_rune complytime.Base.Text.contains_text
    complytime.Base.Text.all_runes complytime.Cache.PathComponent.is_path_rune
    complytime.Cache.State.evaluator_id_to_version complytime.Cache.Complypack.lookup_by_dir_scan
    complytime.Cache.Complypack.scan_entries complytime.Base.Table.lookup
    complytime.Cache.Complypack.read_entry_config
found_by_scan = refl

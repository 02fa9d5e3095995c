-- ===== src/Tests/Evictions.antt =====
-- Evictions: runs, and the theorems at concrete data.
use complytime.Base.{
  ◌==◌, if◌then◌else◌, ◌≤◌, ◌-◌, String, true, false, Option, none, some, [], ◌∷◌, ◌≡◌, refl, map,
  keep, contains, length,
}
use complytime.Base.Text.{has_prefix}
use complytime.Base.Table.{Table, insert, lookup}
use complytime.Base.Members.{Distinct}
use complytime.Cache.State.{entries, State}
use complytime.Base.Integers.{ℤ, negsuc}
use complytime.Cache.Retention.{cache_retention_count}
use complytime.Cache.Eviction.{
  Remains, Entry, build_tracked_version_set, candidates, evict_old_versions, last_updated, recorded,
  take, tracked,
}
use complytime.Cache.Eviction.Bounds.{
  remaining, evict_old_versions-retention, evict_old_versions-recorded,
}
use complytime.Cache.Eviction.Kept.{
  is_protected, evict_old_versions-protected, evict_old_versions-oldest,
}
use complytime.Tests.Fixtures.{entry}
use complytime.Tests.Sorting.{sorter}

abbrev version_dir : Entry
version_dir = record { is_dir = true; content = some "blob"; config = some "1" }

-- Two tracked versions, an orphan, a hidden directory, a file, and the new version.
abbrev dir : Table Entry
dir =
    (".tmp", version_dir)
    ∷ ("0.9", version_dir)
    ∷ ("1.0", version_dir)
    ∷ ("2.0", version_dir)
    ∷ ("3.0", version_dir)
    ∷ ("notes", record version_dir { is_dir = false })
    ∷ []

abbrev state : State
state = record {
  last_sync = 9;
  policies = none;
  complypacks = some (
      ("c/a", entry "2.0" "" "opa" 2)
      ∷ ("c/b", entry "1.0" "" "opa" 5)
      ∷ ("c/c", entry "0.9" "" "ampel" 7)
      ∷ []);
}

no_fault : String → Option Remains
no_fault v = none

left : Table Entry
unfolding no_fault
left = evict_old_versions sorter no_fault false "opa" "3.0" 2 (some state) dir

-- The orphan and the tracked version that is the older go.
left_versions : map (λ (e : String × Entry). e.0) left ≡ ".tmp" ∷ "1.0" ∷ "3.0" ∷ "notes" ∷ []
unfolding left evict_old_versions complytime.Cache.Eviction.remove_all keep contains
    complytime.Cache.Eviction.victims complytime.Cache.Eviction.orphaned candidates
    complytime.Cache.Eviction.is_candidate has_prefix build_tracked_version_set tracked take
    complytime.Cache.Eviction.sort_by_last_updated complytime.Tests.Sorting.insertion_sort lookup
    insert
left_versions = refl

evict_old_versions-retention_example : length (remaining sorter "opa" 2 state "3.0" dir) ≤ 2 - 1
evict_old_versions-retention_example = evict_old_versions-retention sorter "opa" 2 state "3.0" dir

Distinct-dir : Distinct (candidates "3.0" dir)
unfolding candidates keep complytime.Cache.Eviction.is_candidate has_prefix contains
Distinct-dir = (refl, (refl, (refl, tt)))

evict_old_versions-recorded_example :
    length (remaining sorter "opa" 9 state "3.0" dir)
    ≤ length (recorded "opa" (entries state.complypacks))
evict_old_versions-recorded_example =
    evict_old_versions-recorded sorter "opa" 9 state "3.0" dir Distinct-dir

evict_old_versions-protected_example :
    keep
      (λ e. is_protected "3.0" e.0)
      (evict_old_versions sorter no_fault false "opa" "3.0" 2 (some state) dir)
    ≡ keep (λ e. is_protected "3.0" e.0) dir
evict_old_versions-protected_example =
    evict_old_versions-protected sorter "opa" "3.0" 2 no_fault false (some state) dir

older_tracked : contains (tracked state "opa" (candidates "3.0" dir)) "2.0" ≡ true
unfolding tracked contains keep candidates complytime.Cache.Eviction.is_candidate has_prefix
    build_tracked_version_set
older_tracked = refl

older_gone : contains (remaining sorter "opa" 2 state "3.0" dir) "2.0" ≡ false
unfolding remaining contains candidates keep evict_old_versions complytime.Cache.Eviction.remove_all
    complytime.Cache.Eviction.victims complytime.Cache.Eviction.orphaned
    complytime.Cache.Eviction.is_candidate has_prefix build_tracked_version_set tracked take
    complytime.Cache.Eviction.sort_by_last_updated complytime.Tests.Sorting.insertion_sort lookup
    insert
older_gone = refl

younger_stays : contains (remaining sorter "opa" 2 state "3.0" dir) "1.0" ≡ true
unfolding remaining contains candidates keep evict_old_versions complytime.Cache.Eviction.remove_all
    complytime.Cache.Eviction.victims complytime.Cache.Eviction.orphaned
    complytime.Cache.Eviction.is_candidate has_prefix build_tracked_version_set tracked take
    complytime.Cache.Eviction.sort_by_last_updated complytime.Tests.Sorting.insertion_sort lookup
    insert
younger_stays = refl

evict_old_versions-oldest_example : last_updated state "opa" "2.0" ≤ last_updated state "opa" "1.0"
evict_old_versions-oldest_example =
    evict_old_versions-oldest sorter "opa" "3.0" 2 state dir "2.0" "1.0" older_tracked older_gone
      younger_stays

abbrev parse : String → Option ℤ
parse s = if s == "-3" then some (negsuc 2) else none

cache_retention_count_unset : cache_retention_count parse "" ≡ 1
unfolding cache_retention_count
cache_retention_count_unset = refl

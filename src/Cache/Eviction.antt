-- ===== src/Cache/Eviction.antt =====
-- internal/cache/complypack.go: evictOldVersions and what it calls, over the entries of one
-- evaluator's directory in the order in which os.ReadDir gives them.
pub mod Victims
pub mod Bounds
pub mod Kept
use mathlib.Core.List.{Perm}
use complytime.Base.{
  ℕ, zero, suc, ◌-◌, ◌≤◌, String, Bool, true, false, not, ◌&&◌, ◌||◌, Option, none, some, List, [],
  ◌∷◌, ◌++◌, ◌==◌, map, length, keep, All, contains, leb, if◌then◌else◌,
}
use complytime.Base.Text.{has_prefix}
use complytime.Base.Table.{Table, lookup, insert}
use complytime.Cache.State.{State, PolicyState, entries}

-- A directory entry: a version directory with its two files, if they are there, or a plain file.
pub record Entry : Type 0 where
  pub is_dir : Bool
  pub content : Option String
  pub config : Option String

-- Which of a version's two files stay where os.RemoveAll of its directory fails: it goes on to remove
-- what it can, and the directory stays.
pub record Remains : Type 0 where
  pub content : Bool
  pub config : Bool

unfoldable pub remain : Remains → Entry → Entry
remain r e = record e {
  content = if r.content then e.content else none;
  config = if r.config then e.config else none;
}

-- Ascending by a key: each text's key is at most that of every later one.
abbrev pub IsAscending : (String → ℕ) → List String → Type 0
IsAscending key [] = Unit
IsAscending key (x ∷ xs) = All (λ y. key x ≤ key y) xs × IsAscending key xs

-- sort.Slice by a key, which may order equal keys as it likes.
pub record Sorter : Type 0 where
  pub sort : (String → ℕ) → List String → List String
  pub permutes : (key : String → ℕ) (xs : List String) → Perm (sort key xs) xs
  pub ascends : (key : String → ℕ) (xs : List String) → IsAscending key (sort key xs)

unfoldable pub take : ℕ → List String → List String
take zero xs = []
take (suc n) [] = []
take (suc n) (x ∷ xs) = x ∷ take n xs

-- The versions that the state records for the evaluator, one for each of its repositories.
unfoldable pub recorded : String → Table PolicyState → Table PolicyState
recorded evaluator_id = keep (λ e. e.1.evaluator_id == evaluator_id && not (e.1.version == ""))

-- A set is a list of its members; a repeated version is one member.
unfoldable pub build_tracked_version_set : State → String → List String
unfolding recorded
build_tracked_version_set s evaluator_id =
    map (λ e. e.1.version) (recorded evaluator_id (entries s.complypacks))

-- The map from a version to its timestamp; the last entry for a version counts.
unfoldable pub timestamps : Table PolicyState → Table ℕ → Table ℕ
timestamps [] m = m
timestamps ((k, ps) ∷ rest) m = timestamps rest (insert ps.version ps.last_updated m)

-- `timestamps[v]`, the zero time for a version that is not in the map.
unfoldable pub last_updated : State → String → String → ℕ
unfolding recorded timestamps
last_updated s evaluator_id v =
    elim (lookup v (timestamps (recorded evaluator_id (entries s.complypacks)) [])) [
      | none ↦ 0
      | some t ↦ t
    ]

unfoldable pub sort_by_last_updated : Sorter → List String → State → String → List String
unfolding last_updated
sort_by_last_updated sorter versions s evaluator_id =
    sorter.sort (last_updated s evaluator_id) versions

-- The visible directories other than the target.
unfoldable pub is_candidate : String → String × Entry → Bool
is_candidate target e = e.1.is_dir && not (has_prefix e.0 ".") && not (e.0 == target)

unfoldable pub candidates : String → Table Entry → List String
candidates target dir = map (λ e. e.0) (keep (is_candidate target) dir)

unfoldable pub tracked : State → String → List String → List String
tracked s evaluator_id = keep (contains (build_tracked_version_set s evaluator_id))

unfoldable pub orphaned : State → String → List String → List String
orphaned s evaluator_id = keep (λ v. not (contains (build_tracked_version_set s evaluator_id) v))

-- The directories that are removed: the orphaned ones, then the oldest tracked ones beyond the
-- slots. A negative number of slots counts as none, as `-` on the numbers has it.
unfoldable pub victims : Sorter → String → String → ℕ → Option State → Table Entry → List String
victims sorter evaluator_id target retention none dir = candidates target dir
victims sorter evaluator_id target retention (some s) dir =
    let names = candidates target dir in
    let old = tracked s evaluator_id names in
    let slots = retention - 1 in
    orphaned s evaluator_id names
    ++ (if leb (length old) slots
        then []
        else take (length old - slots) (sort_by_last_updated sorter old s evaluator_id))

-- os.RemoveAll of each name; `stuck` tells what stays of the ones whose removal fails, which is only
-- logged.
unfoldable pub remove_all : (String → Option Remains) → List String → Table Entry → Table Entry
remove_all stuck names [] = []
remove_all stuck names (e ∷ dir) =
    let rest = remove_all stuck names dir in
    if contains names e.0
    then elim (stuck e.0) [ none ↦ rest | some r ↦ (e.0, remain r e.1) ∷ rest ]
    else e ∷ rest

-- `unreadable` is an error of os.ReadDir.
unfoldable pub evict_old_versions :
    Sorter
    → (String → Option Remains)
    → Bool
    → String
    → String
    → ℕ
    → Option State
    → Table Entry
    → Table Entry
evict_old_versions sorter stuck unreadable evaluator_id target retention s dir =
    if unreadable
    then dir
    else remove_all stuck (victims sorter evaluator_id target retention s dir) dir

-- ComplypacksSubdir, the name of the directory of all evaluators.
abbrev pub complypacks_subdir : String
complypacks_subdir = "complypacks"

-- What stays of an evaluator's directory whose removal fails: the versions of which `left` tells
-- something, in part.
unfoldable pub remain_dir : (String → Option Remains) → Table Entry → Table Entry
remain_dir left [] = []
remain_dir left (e ∷ dir) =
    let rest = remain_dir left dir in
    elim (left e.0) [ none ↦ rest | some r ↦ (e.0, remain r e.1) ∷ rest ]

-- os.RemoveAll of the directories of some evaluators.
unfoldable pub remove_evaluators :
    (String → Option (String → Option Remains))
    → List String
    → Table (Table Entry)
    → Table (Table Entry)
remove_evaluators stuck names [] = []
remove_evaluators stuck names (e ∷ tree) =
    let rest = remove_evaluators stuck names tree in
    if contains names e.0
    then elim (stuck e.0) [ none ↦ rest | some left ↦ (e.0, remain_dir left e.1) ∷ rest ]
    else e ∷ rest

abbrev bare_dir : Entry
bare_dir = record { is_dir = true; content = none; config = none }

-- An eviction in the directory of all evaluators, to which Store gets for the version ".". The
-- evaluator whose versions the state is asked for is then the directory's name.
unfoldable pub evict_evaluators :
    Sorter
    → (String → Option (String → Option Remains))
    → Bool
    → ℕ
    → Option State
    → Table (Table Entry)
    → Table (Table Entry)
evict_evaluators sorter stuck unreadable retention s tree =
    if unreadable
    then tree
    else remove_evaluators stuck
        (victims sorter complypacks_subdir "." retention s (map (λ e. (e.0, bare_dir)) tree)) tree

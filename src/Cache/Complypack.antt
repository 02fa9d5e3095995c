-- ===== src/Cache/Complypack.antt =====
-- internal/cache/complypack.go: the complypack cache, `complypacks/{evaluator-id}/{version}/` with
-- the two files of each version. A path under it is the pair of its evaluator-id and its version;
-- the files that stand in an evaluator's directory itself are its entry ".". The evaluator-id ".",
-- with which a path leaves out that directory, is outside the model.
pub mod Stored
use complytime.Base.{
  ℕ, String, Bool, true, false, not, ◌&&◌, Option, none, some, List, [], ◌∷◌, ◌==◌, if◌then◌else◌,
  is_some,
}
use complytime.Base.Result.{Result, Check, ok, err, ◌>>=◌, ◌>>◌, map_err}
use complytime.Base.Text.{has_prefix}
use complytime.Base.Table.{Table, lookup, insert}
use Prim.Native.Nat.{Ordering}
use Prim.Native.String.{compare}
use complytime.Cache.State.{State, StateError, evaluator_id_to_version}
use complytime.Cache.PathComponent.{PathError, validate_path_component}
use complytime.Cache.Eviction.{
  Entry, Remains, Sorter, remain, evict_old_versions, remove_evaluators, evict_evaluators,
}

-- complypack.Config of the complypack module: the two fields that the cache reads, and the rest.
pub record Config : Type 0 where
  pub evaluator_id : String
  pub version : String
  pub rest : String

-- `json.MarshalIndent` and `json.Unmarshal` at the type `Config`; `none` is an error.
pub record ConfigCodec : Type 0 where
  pub encode : Config → Option String
  pub decode : String → Option Config

-- The directory of each evaluator-id that has one, its entries sorted by name as ReadDir gives them.
abbrev pub Tree : Type 0
Tree = Table (Table Entry)

pub record ComplypackCache : Type 0 where
  pub tree : Tree
  pub state : Option State
  pub retention_count : ℕ

abbrev pub ContentPath : Type 0
ContentPath = String × String

pub data CacheError : Type 0 where
  invalid_evaluator_id invalid_version : PathError → CacheError
  create_parent create_temp write_content marshal_config write_config remove_existing : CacheError
  rename_temp content_not_found read_config parse_config read_directory : CacheError
  state_lookup_failed : StateError → CacheError

-- The calls of one Store that fail. A removal that fails tells what it leaves: `remove` of the
-- version's directory, `remove_evaluator` where it is the evaluator's that is removed. `stuck`,
-- `stuck_evaluators` and `unreadable` are those of the eviction.
pub record StoreFaults : Type 0 where
  pub parent : Bool
  pub temp : Bool
  pub content : Bool
  pub config : Bool
  pub remove : Option Remains
  pub remove_evaluator : Option (String → Option Remains)
  pub rename : Bool
  pub stuck : String → Option Remains
  pub stuck_evaluators : String → Option (String → Option Remains)
  pub unreadable : Bool

-- A new entry in its place among the sorted ones, instead of one of that name.
unfoldable pub place : String → Entry → Table Entry → Table Entry
place v e [] = (v, e) ∷ []
place v e ((w, f) ∷ dir) =
    let rest = place v e dir in
    elim (compare v w) [
      | Ordering.lt ↦ (v, e) ∷ (w, f) ∷ dir
      | Ordering.eq ↦ (v, e) ∷ dir
      | Ordering.gt ↦ (w, f) ∷ rest
    ]

unfoldable pub remove_entry : String → Table Entry → Table Entry
remove_entry v [] = []
remove_entry v ((w, f) ∷ dir) =
    let rest = remove_entry v dir in if w == v then rest else (w, f) ∷ rest

-- An entry whose removal has failed.
unfoldable pub damage_entry : String → Remains → Table Entry → Table Entry
damage_entry v r [] = []
damage_entry v r ((w, f) ∷ dir) =
    let rest = damage_entry v r dir in if w == v then (w, remain r f) ∷ rest else (w, f) ∷ rest

abbrev pub directory : String → Tree → Table Entry
directory evaluator_id tree = elim (lookup evaluator_id tree) [ none ↦ [] | some dir ↦ dir ]

abbrev pub version_entry : String → String → Entry
version_entry content config = record {
  is_dir = true;
  content = some content;
  config = some config;
}

module _ (codec : ConfigCodec) (sorter : Sorter) where
  -- From the temporary directory on. Its own name is hidden, and it is renamed or removed again, so
  -- it is left out of the entries.
  unfoldable pub replace_version :
      StoreFaults
      → Config
      → String
      → ComplypackCache
      → ComplypackCache × Result CacheError ContentPath
  replace_version f config content c =
      let id = config.evaluator_id in
      let v = config.version in
      let dir = directory id c.tree in
      let made = record c { tree = insert id dir c.tree } in
      let removed = record c { tree = insert id (remove_entry v dir) c.tree } in
      if f.temp
      then (made, err create_temp)
      else if f.content
      then (made, err write_content)
      else elim (codec.encode config) [
        | none ↦ (made, err marshal_config)
        | some text ↦ if f.config then (made, err write_config) else elim f.remove [
          | some r ↦
              (record c { tree = insert id (damage_entry v r dir) c.tree }, err remove_existing)
          | none ↦ if f.rename then (removed, err rename_temp) else (
            record c {
              tree =
                  insert id
                    (evict_old_versions sorter f.stuck f.unreadable id v c.retention_count c.state
                      (place v (version_entry content text) (remove_entry v dir)))
                    c.tree;
            },
            ok (id, v),
          )
        ]
      ]

  -- The same for the version ".", which filepath.Join drops: the final directory is the evaluator's
  -- own, and its parent, in which the eviction works, the directory of all evaluators.
  unfoldable pub replace_evaluator :
      StoreFaults
      → Config
      → String
      → ComplypackCache
      → ComplypackCache × Result CacheError ContentPath
  replace_evaluator f config content c =
      let id = config.evaluator_id in
      if f.temp
      then (c, err create_temp)
      else if f.content
      then (c, err write_content)
      else elim (codec.encode config) [
        | none ↦ (c, err marshal_config)
        | some text ↦
            let removed = remove_evaluators (λ e. f.remove_evaluator) (id ∷ []) c.tree in
            if f.config
            then (c, err write_config)
            else if is_some f.remove_evaluator
            then (record c { tree = removed }, err remove_existing)
            else if f.rename
            then (record c { tree = removed }, err rename_temp)
            else (
              record c {
                tree =
                    evict_evaluators sorter f.stuck_evaluators f.unreadable c.retention_count
                      c.state (insert id ((".", version_entry content text) ∷ []) removed);
              },
              ok (id, "."),
            )
      ]

  -- ComplypackCache.Store.
  unfoldable pub store :
      StoreFaults
      → Config
      → String
      → ComplypackCache
      → ComplypackCache × Result CacheError ContentPath
  store f config content c = elim (validate_path_component config.evaluator_id) [
    | err e ↦ (c, err (invalid_evaluator_id e))
    | ok _ ↦ elim (validate_path_component config.version) [
      | err e ↦ (c, err (invalid_version e))
      | ok _ ↦
          if f.parent
          then (c, err create_parent)
          else if config.version == "."
          then replace_evaluator f config content c
          else replace_version f config content c
    ]
  ]

-- What both lookups read of an entry that has a content file.
unfoldable pub read_entry_config : ConfigCodec → Entry → Result CacheError Config
read_entry_config codec e = elim e.config [
  | none ↦ err read_config
  | some text ↦ elim (codec.decode text) [ none ↦ err parse_config | some cfg ↦ ok cfg ]
]

module _ (codec : ConfigCodec) where
  -- ComplypackCache.Lookup.
  unfoldable pub lookup_version :
      String → String → ComplypackCache → Result CacheError (ContentPath × Config)
  unfolding read_entry_config
  lookup_version evaluator_id version c = do
    map_err invalid_evaluator_id (validate_path_component evaluator_id)
    map_err invalid_version (validate_path_component version)
    elim (lookup version (directory evaluator_id c.tree)) [
      | none ↦ err content_not_found
      | some e ↦ elim e.content [
        | none ↦ err content_not_found
        | some _ ↦ read_entry_config codec e >>= λ cfg. ok ((evaluator_id, version), cfg)
      ]
    ]

  -- The loop of lookupByDirScan: the first visible directory with a content file decides.
  unfoldable pub scan_entries :
      String → Table Entry → Result CacheError (Option (ContentPath × Config))
  scan_entries evaluator_id [] = ok none
  scan_entries evaluator_id ((v, e) ∷ dir) =
      let rest = scan_entries evaluator_id dir in
      if e.is_dir && not (has_prefix v ".")
      then elim e.content [
        | none ↦ rest
        | some _ ↦ read_entry_config codec e >>= λ cfg. ok (some ((evaluator_id, v), cfg))
      ]
      else rest

  -- lookupByDirScan; `unreadable` is an error of ReadDir other than that there is no directory.
  unfoldable pub lookup_by_dir_scan :
      Bool → String → ComplypackCache → Result CacheError (Option (ContentPath × Config))
  lookup_by_dir_scan unreadable evaluator_id c =
      if unreadable
      then err read_directory
      else scan_entries evaluator_id (directory evaluator_id c.tree)

  -- LookupByEvaluatorID: the version that the state names, or the first one on disk.
  unfoldable pub lookup_by_evaluator_id :
      Bool → String → ComplypackCache → Result CacheError (Option (ContentPath × Config))
  lookup_by_evaluator_id unreadable evaluator_id c = do
    map_err invalid_evaluator_id (validate_path_component evaluator_id)
    (version, found) ← map_err state_lookup_failed (evaluator_id_to_version evaluator_id c.state)
    if found
        then elim (lookup_version evaluator_id version c) [
          | ok hit ↦ ok (some hit)
          | err _ ↦ lookup_by_dir_scan unreadable evaluator_id c
        ]
        else lookup_by_dir_scan unreadable evaluator_id c

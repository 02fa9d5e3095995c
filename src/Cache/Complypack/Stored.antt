-- ===== src/Cache/Complypack/Stored.antt =====
-- What a Store leaves in the cache, and what the lookups then find.
use text.Mathlib.TextEquality.{path_by_compare}
use text.Mathlib.TextPositions.{compare_refl}
use complytime.Base.{
  eq_refl, ◌∙◌, ap, ◌&&◌, ◌≢◌, Option-cases, refl, inr, eq_iff, [], ◌∷◌, inl, none, some, ◌==◌,
  if◌then◌else◌, Option, String, ◌≡◌, arith,
}
use complytime.Cache.Complypack.{
  damage_entry, lookup_version, version_entry, CacheError, replace_version, ContentPath, store,
  Config, StoreFaults, directory, Tree, remove_entry, ConfigCodec, ComplypackCache, place,
}
use complytime.Base.Table.{lookup-insert, insert, Table, lookup}
use complytime.Cache.Eviction.{evict_old_versions, Sorter, Entry, Remains, remain}
use mathlib.Core.Option
use complytime.Base.Result.{err, ok}
use complytime.Cache.PathComponent.{validate_path_component}
use complytime.Cache.Eviction.Kept.{is_protected_self, lookup-evict_old_versions}

lookup-place :
    (v j : String) (e : Entry) (dir : Table Entry)
    → lookup j (place v e dir) ≡ (if v == j then some e else lookup j dir)
unfolding lookup place
lookup-place v j e [] = refl
lookup-place v j e ((w, f) ∷ dir) =
    ground
      (arith, path_by_compare v w, eq_iff v j, eq_iff w j, compare_refl w, lookup-place v j e dir)

lookup-remove_entry :
    (v j : String) (dir : Table Entry)
    → lookup j (remove_entry v dir) ≡ (if v == j then none else lookup j dir)
unfolding lookup remove_entry
lookup-remove_entry v j [] = ground arith
lookup-remove_entry v j ((w, f) ∷ dir) =
    ground (arith, eq_iff w v, eq_iff w j, eq_iff v j, lookup-remove_entry v j dir)

lookup-damage_entry :
    (v j : String) (r : Remains) (dir : Table Entry)
    → lookup j (damage_entry v r dir)
      ≡ (if v == j then Option.map (remain r) (lookup j dir) else lookup j dir)
unfolding lookup damage_entry
lookup-damage_entry v j r [] = ground arith
lookup-damage_entry v j r ((w, f) ∷ dir) =
    ground (arith, eq_iff w v, eq_iff w j, eq_iff v j, lookup-damage_entry v j r dir)

directory-insert :
    (id j : String) (dir : Table Entry) (tree : Tree)
    → directory j (insert id dir tree) ≡ (if id == j then dir else directory j tree)
directory-insert id j dir tree = ground (arith, lookup-insert id j dir tree)

-- The entry that the cache has for a version.
pub cached : String → String → ComplypackCache → Option Entry
cached evaluator_id version c = lookup version (directory evaluator_id c.tree)

-- What a Store that fails leaves of the version that it was to replace: all of it, nothing where the
-- renaming fails, and where the removal before it fails a part.
unfoldable pub left_over : Option Remains → CacheError → Option Entry → Option Entry
left_over failed CacheError.rename_temp earlier = none
left_over (some r) CacheError.remove_existing earlier = Option.map (remain r) earlier
left_over failed x earlier = earlier

module _ (codec : ConfigCodec) (sorter : Sorter) (f : StoreFaults) (config : Config)
    (content : String) where
  -- The evaluator's directory after the renaming and the eviction.
  new_directory : String → ComplypackCache → Table Entry
  new_directory text c =
      evict_old_versions sorter f.stuck f.unreadable config.evaluator_id config.version
        c.retention_count c.state
        (place config.version (version_entry content text)
          (remove_entry config.version (directory config.evaluator_id c.tree)))

  lookup-new_directory :
      (text : String) (c : ComplypackCache)
      → lookup config.version (new_directory text c) ≡ some (version_entry content text)
  unfolding new_directory
  lookup-new_directory text c =
      lookup-evict_old_versions sorter config.evaluator_id config.version c.retention_count f.stuck
        f.unreadable c.state
        (place config.version (version_entry content text)
          (remove_entry config.version (directory config.evaluator_id c.tree)))
        config.version (is_protected_self config.version)
      ∙ lookup-place config.version config.version (version_entry content text)
          (remove_entry config.version (directory config.evaluator_id c.tree))
      ∙ rw (eq_refl config.version)

  store-eq-ok :
      (c c' : ComplypackCache) (p : ContentPath)
      → config.version ≢ "."
      → store codec sorter f config content c ≡ (c', ok p)
      → (validate_path_component config.evaluator_id ≡ ok tt)
        × (validate_path_component config.version ≡ ok tt)
        × (replace_version codec sorter f config content c ≡ (c', ok p))
  unfolding store
  store-eq-ok c c' p named e = ground (arith, eq_iff config.version ".")

  replace_version-eq-ok :
      (c c' : ComplypackCache) (p : ContentPath)
      → replace_version codec sorter f config content c ≡ (c', ok p)
      → (text : String) × (codec.encode config ≡ some text)
        × (p ≡ (config.evaluator_id, config.version))
        × (c'.tree ≡ insert config.evaluator_id (new_directory text c) c.tree)
  unfolding replace_version new_directory
  replace_version-eq-ok c c' p e = elim (Option-cases (codec.encode config)) [
    | inl unencoded ↦ absurd (ground arith)
    | inr (text, encoded) ↦ (text, encoded, ground arith, ground arith)
  ]

  -- The new version stands in its directory with both files, and no other evaluator's directory has
  -- changed.
  store-cached :
      (c c' : ComplypackCache) (p : ContentPath)
      → config.version ≢ "."
      → store codec sorter f config content c ≡ (c', ok p)
      → (text : String) × (codec.encode config ≡ some text)
        × (p ≡ (config.evaluator_id, config.version))
        × (cached config.evaluator_id config.version c' ≡ some (version_entry content text))
        × ((id v : String) → config.evaluator_id ≢ id → cached id v c' ≡ cached id v c)
  unfolding cached
  store-cached c c' p named e =
      let (valid_id, valid_version, replaced) = store-eq-ok c c' p named e in
      let (text, encoded, path, tree) = replace_version-eq-ok c c' p replaced in
      (
        text,
        encoded,
        path,
        written c' text tree,
        λ id v other.
            ap (λ t. lookup v (directory id t)) tree
            ∙ ap (lookup v) (
                directory-insert config.evaluator_id id (new_directory text c) c.tree
                ∙ ground (arith, eq_iff config.evaluator_id id)),
      )
    where
      written :
          (d : ComplypackCache) (text : String)
          → d.tree ≡ insert config.evaluator_id (new_directory text c) c.tree
          → cached config.evaluator_id config.version d ≡ some (version_entry content text)
      written d text tree =
          ap (λ t. lookup config.version (directory config.evaluator_id t)) tree
          ∙ rw
              (
                directory-insert config.evaluator_id config.evaluator_id (new_directory text c)
                    c.tree,
                eq_refl config.evaluator_id,
              )
              (lookup-new_directory text c)

  -- After a successful Store the version is found under its own name with the configuration that was
  -- stored, and its directory holds the content and the encoded configuration; if neither the
  -- evaluator-id nor the version is "." and decoding undoes the encoding of a configuration.
  pub store-lookup_version :
      config.evaluator_id ≢ "."
      → config.version ≢ "."
      → ((cfg : Config) (text : String)
          → codec.encode cfg ≡ some text
          → codec.decode text ≡ some cfg)
      → (c c' : ComplypackCache) (p : ContentPath)
      → store codec sorter f config content c ≡ (c', ok p)
      → (lookup_version codec config.evaluator_id config.version c' ≡ ok (p, config))
        × ((text : String) × (codec.encode config ≡ some text)
            × (cached config.evaluator_id config.version c' ≡ some (version_entry content text)))
  unfolding lookup_version cached
  store-lookup_version proper named round_trip c c' p e =
      let (valid_id, valid_version, replaced) = store-eq-ok c c' p named e in
      let (text, encoded, path, found, others) = store-cached c c' p named e in
      (ground (arith, round_trip config text encoded), (text, encoded, found))

  -- A Store that fails leaves every version as it was, with two exceptions, both of them the version
  -- that was to be replaced: where the renaming of the temporary directory fails, its earlier contents
  -- have been removed, and where their removal fails, what that leaves of them is left; if neither the
  -- evaluator-id nor the version is ".".
  pub store-failed :
      (c c' : ComplypackCache) (x : CacheError)
      → config.evaluator_id ≢ "."
      → config.version ≢ "."
      → store codec sorter f config content c ≡ (c', err x)
      → ((id v : String)
          → cached id v c' ≡ (
              if config.evaluator_id == id && config.version == v
              then left_over f.remove x (cached id v c)
              else cached id v c))
  unfolding store replace_version cached left_over
  store-failed c c' x proper named e id v = elim (Option-cases f.remove) [
    | inl removes ↦ ground (
      arith,
      directory-insert config.evaluator_id id (directory config.evaluator_id c.tree) c.tree,
      directory-insert config.evaluator_id id
          (remove_entry config.version (directory config.evaluator_id c.tree)) c.tree,
      lookup-remove_entry config.version v (directory config.evaluator_id c.tree),
      eq_iff config.evaluator_id id,
      eq_iff config.version ".",
    )
    | inr (r, keeps) ↦ ground (
      arith,
      directory-insert config.evaluator_id id (directory config.evaluator_id c.tree) c.tree,
      directory-insert config.evaluator_id id
          (damage_entry config.version r (directory config.evaluator_id c.tree)) c.tree,
      lookup-damage_entry config.version v r (directory config.evaluator_id c.tree),
      eq_iff config.evaluator_id id,
      eq_iff config.version ".",
    )
  ]

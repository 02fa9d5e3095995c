-- ===== src/Registry.antt =====
-- internal/registry/client.go: references to a registry, and the lookup of a tag's digest.
pub mod Hosts
use complytime.Base.{
  String, ◌<>◌, Bool, true, false, not, ◌&&◌, Option, none, some, ◌==◌, if◌then◌else◌,
}
use complytime.Base.Result.{Result, ok, err, map_err}
use complytime.Base.Text.{has_prefix, trim_prefix, trim_suffix_rune, contains_rune}

unfoldable pub normalize_host : String → String
normalize_host host = trim_suffix_rune b'/' (trim_prefix (trim_prefix host "http://") "https://")

unfoldable pub split_host_scheme : String → String × Bool
split_host_scheme host = (normalize_host host, has_prefix host "http://")

unfoldable pub build_ref : String → String → String
build_ref registry_host module_path =
    let ref = registry_host <> "/" <> module_path in
    if not (contains_rune module_path b':') && not (contains_rune module_path b'@')
    then ref <> ":latest"
    else ref

-- `version_not_found` wraps ErrVersionNotFound, and `fetch_failed` what DefinitionVersion adds to
-- any other error.
pub data RegistryError : Type 0 where
  empty_module_path invalid_reference no_repository version_not_found unreachable : RegistryError
  fetch_failed : String → RegistryError → RegistryError

-- What `errdef.ErrNotFound` of oras-go tells apart.
pub data ResolveError : Type 0 where
  not_found other : ResolveError

-- The calls of oras-go: ParseReference, NewRepository and Resolve.
pub record Remote : Type 0 where
  pub parse_reference : String → Option (String × String × String)
  pub new_repository : String → Bool
  pub resolve : String → String → Result ResolveError String

unfoldable pub fetch_version : Remote → String → Result RegistryError (String × String)
fetch_version r ref = elim (r.parse_reference ref) [
  | none ↦ err invalid_reference
  | some (registry, repository, reference) ↦
      let repo_name = registry <> "/" <> repository in
      let tag = if reference == "" then "latest" else reference in
      if r.new_repository repo_name
      then elim (r.resolve repo_name tag) [
        | err e ↦ elim e [ not_found ↦ err version_not_found | other ↦ err unreachable ]
        | ok digest ↦ ok (digest, tag)
      ]
      else err no_repository
]

abbrev wrap_fetch : String → RegistryError → RegistryError
wrap_fetch module_path version_not_found = version_not_found
wrap_fetch module_path e = fetch_failed module_path e

-- Client.DefinitionVersion; `fetcher` is the client's, if it has one.
unfoldable pub definition_version :
    Option (String → Result RegistryError (String × String))
    → Remote
    → String
    → String
    → Result RegistryError (String × String)
unfolding fetch_version
definition_version fetcher r registry_url module_path =
    if module_path == "" then err empty_module_path else elim fetcher [
      | some f ↦ f module_path
      | none ↦
          map_err (wrap_fetch module_path)
            (fetch_version r (build_ref (normalize_host registry_url) module_path))
    ]

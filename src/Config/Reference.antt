-- ===== src/Config/Reference.antt =====
-- internal/complytime/config.go: ParsePolicyRef, and what identifies an entry.
pub mod Notation
use complytime.Base.{
  String, ◌<>◌, Bool, true, false, not, ◌&&◌, ◌||◌, Option, none, some, List, [], ◌∷◌, ◌==◌,
  if◌then◌else◌,
}
use complytime.Base.Result.{Result, ok, err}
use complytime.Base.Text.{has_prefix, trim_prefix, contains_rune}
use complytime.Base.Splits.{trim_space, split_last, last_segment}
use complytime.Config.{PolicyEntry}

pub record PolicyRef : Type 0 where
  pub raw : String
  pub registry : String
  pub repository : String
  pub tag : String
  pub digest : String

pub data RefError : Type 0 where
  empty_reference : RefError
  invalid_reference : String → RefError

-- The calls of the libraries: ParseReference of oras-go, which answers the registry, the repository
-- and the reference, and Parse of go-digest, on which its Digest method rests.
pub record Parsers : Type 0 where
  pub parse_reference : String → Option (String × String × String)
  pub digest_ok : String → Bool

abbrev pub version_string : PolicyRef → String
version_string r = if not (r.tag == "") then r.tag else r.digest

-- The scheme, and what follows it.
unfoldable pub split_scheme : String → String × String
split_scheme s =
    if has_prefix s "http://"
    then ("http://", trim_prefix s "http://")
    else if has_prefix s "https://"
    then ("https://", trim_prefix s "https://")
    else ("", s)

-- The parts around the last `@`, if neither is empty.
unfoldable pub split_version : String → Option (String × String)
split_version s = elim (split_last b'@' s) [
  | none ↦ none
  | some (before, after) ↦
      if not (before == "") && not (after == "") then some (before, after) else none
]

unfoldable pub bare_ref : Parsers → String → String → PolicyRef
bare_ref parsers raw s = elim (split_version s) [
  | none ↦ record { raw = raw; registry = ""; repository = s; tag = ""; digest = "" }
  | some (before, suffix) ↦
      if parsers.digest_ok suffix
      then record { raw = raw; registry = ""; repository = before; tag = ""; digest = suffix }
      else record { raw = raw; registry = ""; repository = before; tag = suffix; digest = "" }
]

-- `@version` as `:version`; a digest keeps its `@`.
unfoldable pub convert_version : String → String
convert_version s = elim (split_version s) [
  | none ↦ s
  | some (before, suffix) ↦
      if not (has_prefix suffix "sha256:") && not (has_prefix suffix "sha512:")
      then before <> ":" <> suffix
      else s
]

unfoldable pub qualified_ref : Parsers → String → String → String → Result RefError PolicyRef
qualified_ref parsers raw scheme s = elim (parsers.parse_reference s) [
  | none ↦ err (invalid_reference raw)
  | some (registry, repository, reference) ↦ ok (
      if reference == ""
      then record {
        raw = raw;
        registry = scheme <> registry;
        repository = repository;
        tag = "";
        digest = "";
      }
      else if parsers.digest_ok reference
      then record {
        raw = raw;
        registry = scheme <> registry;
        repository = repository;
        tag = "";
        digest = reference;
      }
      else record {
        raw = raw;
        registry = scheme <> registry;
        repository = repository;
        tag = reference;
        digest = "";
      })
]

unfoldable pub parse_policy_ref : Parsers → String → Result RefError PolicyRef
parse_policy_ref parsers raw =
    let s = trim_space raw in
    let (scheme, rest) = split_scheme s in
    if s == ""
    then err empty_reference
    else if not (contains_rune rest b'/')
    then ok (bare_ref parsers raw rest)
    else qualified_ref parsers raw scheme (convert_version rest)

-- The last segment of the repository, where no id is given; a reference that does not parse has none.
unfoldable pub effective_id : Parsers → PolicyEntry → String
effective_id parsers entry =
    if not (entry.id == "") then entry.id else elim (parse_policy_ref parsers entry.url) [
      | err e ↦ last_segment b'/' ""
      | ok ref ↦ last_segment b'/' ref.repository
    ]

-- FindPolicy: the first entry of that effective id.
unfoldable pub find_policy : Parsers → List PolicyEntry → String → Option PolicyEntry
find_policy parsers [] policy_id = none
find_policy parsers (entry ∷ entries) policy_id =
    let rest = find_policy parsers entries policy_id in
    if effective_id parsers entry == trim_space policy_id then some entry else rest

-- ===== src/Tests/Configs.antt =====
-- The workspace configuration: runs, and the theorems at concrete data.
use complytime.Base.{
  ℕ, String, Bool, true, false, not, ◌||◌, Option, none, some, List, [], ◌∷◌, ◌++◌, map, ◌<>◌, ◌==◌,
  ◌≡◌, ◌≢◌, ◌↔◌, refl, arith, eq_iff, All, if◌then◌else◌,
}
use complytime.Base.Integers.{pos}
use complytime.Base.Members.{Distinct}
use complytime.Base.Splits.{trim_space}
use complytime.Base.Text.{has_prefix, contains_rune, differ}
use complytime.Base.Result.{ok}
use complytime.Config.{VerificationConfig, PolicyEntry, TargetConfig, WorkspaceConfig}
use complytime.Config.Verification.{validate_verification_config, is_configured}
use complytime.Config.Reference.{
  Parsers, effective_id, find_policy, parse_policy_ref, qualified_ref,
}
use complytime.Config.Reference.Notation.{IsWord, parse_policy_ref-at_version}
use complytime.Config.Entries.{validate_entries}
use complytime.Config.Entries.Accepted.{IsAcceptedEntry, validate_entries-accepted}
use complytime.Config.Targets.{is_supported, validate_targets, validate}
use complytime.Config.Targets.Known.{validate-found}
use complytime.Tests.Fixtures.{digest_ok}

-- A registry whose references have one repository.
abbrev pub parsers : Parsers
parsers = record {
  parse_reference = λ s. some ("ghcr.io", "org/nist", "v1");
  digest_ok = digest_ok;
}

abbrev clean : String → String
clean path = path

abbrev stat : String → Bool
stat path = path == "root.json"

abbrev pub keyless : VerificationConfig
keyless = record {
  issuer = "https://issuer";
  identity = "ci";
  key = "";
  trusted_root = "root.json";
}

abbrev mixed : VerificationConfig
mixed = record keyless { key = "cosign.pub" }

keyless_validated : validate_verification_config clean stat (some keyless) ≡ ok (some keyless)
unfolding validate_verification_config
keyless_validated = refl

abbrev nist : String
nist = "nist"

abbrev version : String
version = "v1"

nist-IsWord : IsWord nist
unfolding complytime.Base.Text.all_runes complytime.Base.Splits.is_space contains_rune
nist-IsWord = record { unspaced = refl; one_part = refl }

version-IsWord : IsWord version
unfolding complytime.Base.Text.all_runes complytime.Base.Splits.is_space contains_rune
version-IsWord = record { unspaced = refl; one_part = refl }

nist_given : nist ≢ ""
nist_given = ground (arith, eq_iff nist "")

version_given : version ≢ ""
version_given = ground (arith, eq_iff version "")

nist_bare : contains_rune nist b'/' ≡ false
unfolding contains_rune
nist_bare = refl

version_bare : contains_rune version b'/' ≡ false
unfolding contains_rune
version_bare = refl

-- A digest of sha384 is read as a tag.
abbrev repository : String
repository = "ghcr.io/org/nist"

abbrev sha384 : String
sha384 = "sha384:0a"

repository-IsWord : IsWord repository
unfolding complytime.Base.Text.all_runes complytime.Base.Splits.is_space contains_rune
repository-IsWord = record { unspaced = refl; one_part = refl }

sha384-IsWord : IsWord sha384
unfolding complytime.Base.Text.all_runes complytime.Base.Splits.is_space contains_rune
sha384-IsWord = record { unspaced = refl; one_part = refl }

sha384_given : sha384 ≢ ""
sha384_given = ground (arith, eq_iff sha384 "")

repository_qualified : contains_rune repository b'/' ≡ true
unfolding contains_rune
repository_qualified = refl

repository_not_http : differ "http://" repository ≡ true
unfolding differ
repository_not_http = refl

repository_not_https : differ "https://" repository ≡ true
unfolding differ
repository_not_https = refl

sha384_not_sha256 : has_prefix sha384 "sha256:" ≡ false
unfolding has_prefix
sha384_not_sha256 = refl

sha384_not_sha512 : has_prefix sha384 "sha512:" ≡ false
unfolding has_prefix
sha384_not_sha512 = refl

parse_policy_ref-at_version_example :
    (parse_policy_ref parsers (repository <> ("@" <> sha384))
      ≡ qualified_ref parsers (repository <> ("@" <> sha384)) "" (repository <> (":" <> sha384)))
    × (parse_policy_ref parsers (repository <> (":" <> sha384))
        ≡ qualified_ref parsers (repository <> (":" <> sha384)) "" (repository <> (":" <> sha384)))
parse_policy_ref-at_version_example =
    parse_policy_ref-at_version parsers repository sha384 repository-IsWord sha384-IsWord
      sha384_given repository_qualified repository_not_http repository_not_https sha384_not_sha256
      sha384_not_sha512

abbrev pub first : PolicyEntry
first = record {
  url = "ghcr.io/org/nist:v1";
  id = "nist";
  verification = some keyless;
  skip_verify = false;
}

abbrev pub second : PolicyEntry
second = record { url = "ghcr.io/org/cis:v1"; id = "cis"; verification = none; skip_verify = true }

abbrev pub both : List PolicyEntry
both = first ∷ second ∷ []

both_validated : validate_entries parsers clean stat [] [] both ≡ ok both
unfolding validate_entries complytime.Config.Entries.validate_entry
    complytime.Config.Entries.validate_oci_ref trim_space complytime.Base.Splits.trim_right
    complytime.Base.Splits.trim_left complytime.Base.Splits.is_space complytime.Base.Text.all_runes
    complytime.Config.Entries.is_unsafe complytime.Base.Splits.split_first
    complytime.Base.Text.trim_prefix contains_rune complytime.Base.contains
    validate_verification_config effective_id is_configured
both_validated = refl

validate_entries-accepted_example :
    All (IsAcceptedEntry parsers clean stat) both
    × Distinct (map (λ (e : PolicyEntry). e.url) both)
    × Distinct (map (effective_id parsers) both)
validate_entries-accepted_example =
    validate_entries-accepted parsers clean stat both both both_validated

trimmed : trim_space (effective_id parsers second) ≡ effective_id parsers second
unfolding effective_id trim_space complytime.Base.Splits.trim_right complytime.Base.Splits.trim_left
    complytime.Base.Splits.is_space
trimmed = refl

abbrev config : WorkspaceConfig
config = record {
  version = pos 1;
  policies = both;
  complypacks = [];
  targets = record { id = "host"; policies = "cis" ∷ "nist" ∷ []; variables = [] } ∷ [];
  variables = [];
  verification = none;
}

targets_validated : validate_targets (map (effective_id parsers) both) [] config.targets ≡ ok tt
unfolding validate_targets complytime.Base.contains
    complytime.Config.Targets.validate_target_policies effective_id
targets_validated = refl

config_validated : validate parsers clean stat config ≡ ok config
unfolding validate is_supported validate_entries validate_verification_config
config_validated = rw (both_validated, targets_validated) refl

validate-found_example :
    All
      (λ (target : TargetConfig).
        (target.id ≢ "")
        × All
            (λ pid.
              trim_space pid ≡ pid
              → (entry : PolicyEntry) × (find_policy parsers config.policies pid ≡ some entry)
                × (effective_id parsers entry ≡ pid))
            target.policies)
      config.targets
validate-found_example = validate-found parsers clean stat config config config_validated

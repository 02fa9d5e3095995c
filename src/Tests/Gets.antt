-- ===== src/Tests/Gets.antt =====
-- A run of the get command: a policy between two whose references are empty.
use complytime.Base.{
  String, ℕ, suc, true, false, none, some, Option, List, [], ◌∷◌, ◌++◌, ◌≡◌, refl, length,
}
use complytime.Base.Result.{ok, err}
use complytime.Config.{VerificationConfig, PolicyEntry}
use complytime.Config.Reference.{PolicyRef, Parsers, parse_policy_ref}
use complytime.Cache.StateFile.{no_faults}
use complytime.Cli.Get.{
  Session, Run, VerifyFunc, sync_single_policy, sync_each_policy, sync_all_policies,
}
use complytime.Cli.Get.Attempts.{is_recorded, sync_all_policies-attempted}
use complytime.Base.{◌↔◌}
use complytime.Base.Members.{Distinct}
use complytime.Cache.State.{State}
use complytime.Cli.Get.Complypacks
use complytime.Cli.Get.Complypacks.{PackError, validate_unique_evaluator_ids}
use complytime.Cli.Get.Complypacks.Unique.{evaluators_of, validate_unique_evaluator_ids-Distinct}
use complytime.Tests.PackSyncs
use complytime.Tests.Fixtures.{entry, digest_ok, codec}
use complytime.Tests.Syncs.{Stores, env, empty_world}

abbrev parsers : Parsers
parsers = record { parse_reference = λ s. some ("ghcr.io", "p/nist", "v1"); digest_ok = digest_ok }

abbrev session : Session Stores
session = record {
  parsers = parsers;
  build = λ cfg. err "no key";
  remote = λ i registry. env;
  extract = λ repository version stores. some (record {
    title = "NIST";
    evaluator_id = "openscap";
    control_count = 3;
    assessment_count = 5;
  });
  codec = codec;
  last_faults = no_faults;
  unreadable = false;
  credentials = true;
}

abbrev start : Run Stores
start = record { world = empty_world; verifiers = none }

abbrev blank : PolicyEntry
blank = record { url = ""; id = "blank"; verification = none; skip_verify = false }

abbrev nist : PolicyEntry
nist = record { url = "ghcr.io/p/nist:v1"; id = "nist"; verification = none; skip_verify = false }

abbrev ref : PolicyRef
ref = record {
  raw = "ghcr.io/p/nist:v1";
  registry = "ghcr.io";
  repository = "p/nist";
  tag = "v1";
  digest = "";
}

nist_parsed : parse_policy_ref parsers nist.url ≡ ok ref
unfolding parse_policy_ref complytime.Base.Splits.trim_space complytime.Base.Splits.trim_right
    complytime.Base.Splits.trim_left complytime.Base.Splits.is_space
    complytime.Base.Text.contains_rune complytime.Config.Reference.split_scheme
    complytime.Config.Reference.qualified_ref complytime.Config.Reference.convert_version
    complytime.Config.Reference.split_version complytime.Base.Splits.split_last
    complytime.Base.Text.has_prefix
nist_parsed = refl

abbrev after_blank : Run Stores
after_blank = (sync_each_policy session none 0 (blank ∷ []) start).0

abbrev after_nist : Run Stores
after_nist = (sync_single_policy session none 1 nist after_blank).0

nist_synced : sync_single_policy session none 1 nist after_blank ≡ (after_nist, ok tt)
unfolding sync_single_policy complytime.Base.Splits.is_space complytime.Base.Splits.last_segment
    complytime.Base.Splits.split_last complytime.Base.Splits.trim_left
    complytime.Base.Splits.trim_right complytime.Base.Splits.trim_space complytime.Base.Table.insert
    complytime.Base.Table.lookup complytime.Base.Text.contains_rune complytime.Base.Text.has_prefix
    complytime.Base.Text.strip_prefix complytime.Base.Text.trim_prefix
    complytime.Base.Text.trim_right_rune complytime.Base.Text.trim_suffix_rune
    complytime.Cache.Reference.build_lookup_ref complytime.Cache.Reference.classify_version
    complytime.Cache.Reference.pin_version complytime.Cache.State.get
    complytime.Cache.State.get_policy_state complytime.Cache.State.new_entry
    complytime.Cache.State.put complytime.Cache.State.set_policy_metadata
    complytime.Cache.State.update_policy_state complytime.Cache.State.validate_digest
    complytime.Cache.StateFile.remove_temp complytime.Cache.StateFile.replace_file
    complytime.Cache.StateFile.save_state complytime.Cache.Sync.compare_policy
    complytime.Cache.Sync.fetch_policy complytime.Cache.Sync.new_host
    complytime.Cache.Sync.record_state complytime.Cache.Sync.sync_policy
    complytime.Cache.Sync.up_to_date complytime.Cache.Sync.verify_ref
    complytime.Cli.Verifiers.config_eq complytime.Cli.Verifiers.effective_config
    complytime.Cli.Verifiers.find_verifier complytime.Cli.Verifiers.resolve_verifier
    complytime.Config.Reference.bare_ref complytime.Config.Reference.convert_version
    complytime.Config.Reference.effective_id complytime.Config.Reference.qualified_ref
    complytime.Config.Reference.split_scheme complytime.Config.Reference.split_version
    complytime.Config.Verification.is_configured complytime.Registry.normalize_host
    complytime.Registry.split_host_scheme complytime.Cli.Get.sync_each_policy
    complytime.Cli.Get.note_failure complytime.Cli.Get.sync_ref complytime.Cli.Get.entry_env
    complytime.Cli.Get.asked_version complytime.Cli.Get.resolve_latest_version
    complytime.Cli.Get.extract_metadata complytime.Cli.Get.has_metadata parse_policy_ref
    complytime.Registry.build_ref complytime.Tests.Fixtures.encode
nist_synced = refl

sync_all_policies-attempted_example :
    (is_recorded
        (sync_all_policies session none ((blank ∷ []) ++ nist ∷ blank ∷ []) start).0.world
        "p/nist"
      ≡ true)
    × ((sync_all_policies session none ((blank ∷ []) ++ nist ∷ blank ∷ []) start).1
        ≡ (sync_each_policy session none 0 (blank ∷ []) start).1
          ++ (sync_each_policy session none (suc 1) (blank ∷ []) after_nist).1)
sync_all_policies-attempted_example =
    sync_all_policies-attempted session none (blank ∷ []) (blank ∷ []) nist ref start after_nist
      nist_parsed nist_synced

-- Complypacks: two entries, each with a reference of its own, whose packs are of one evaluator.
abbrev pack_session : Complypacks.Session
pack_session = record {
  parsers = record { parse_reference = λ s. some ("ghcr.io", s, "v1"); digest_ok = digest_ok };
  build = λ cfg. err "no key";
  remote = λ i registry. PackSyncs.env;
  remove_failed = λ evaluator_id. false;
  sort = λ repos. repos;
  unreadable = false;
  credentials = true;
}

abbrev pack_state : State
pack_state = record {
  last_sync = 0;
  policies = none;
  complypacks = some (
      ("ghcr.io/p/scap:v1", entry "v1" "sha256:a" "openscap" 0)
      ∷ ("ghcr.io/p/rhel:v1", entry "v1" "sha256:b" "openscap" 0)
      ∷ []);
}

abbrev pack_entries : List PolicyEntry
pack_entries =
    record nist { url = "ghcr.io/p/scap:v1"; id = "scap" }
    ∷ record nist { url = "ghcr.io/p/rhel:v1"; id = "rhel" }
    ∷ []

validate_unique_evaluator_ids-Distinct_example :
    (validate_unique_evaluator_ids pack_session pack_state pack_entries ≡ [])
    ↔ Distinct (evaluators_of pack_session pack_state pack_entries)
validate_unique_evaluator_ids-Distinct_example =
    validate_unique_evaluator_ids-Distinct pack_session pack_state pack_entries

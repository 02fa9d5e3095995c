-- ===== src/Tests/Scans.antt =====
-- The scan command with its plugins: theorems at concrete data.
use complytime.Base.Result.{Result, ok, err}
use complytime.Provider.Discovery.{
  ProviderInfo, DirEntry, Listing, listed, not_existing, scan_dir, expand_path, evaluator_ids,
  discover_providers,
}
use complytime.Provider.Manager.{
  Provider, LoadedProvider, ScanResult, is_usable, load_providers, list_providers,
  route_scan_result,
}
use complytime.Provider.Manager.Routed.{
  fails, returned, returned_references, failed_ids, id_of, load_providers-discovered,
  route_scan_result-broadcast,
}
use complytime.Provider.Messages.{AssessmentLog, Step}
use complytime.Provider.Messages
use complytime.Provider.Requests.{Target}
use complytime.Base.{
  ◌≤◌, ◌||◌, keep, contains, ◌==◌, refl, length, if◌then◌else◌, some, ◌<>◌, map, ◌∷◌, false, All,
  [], ◌≡◌, none, List, true, String,
}
use complytime.Base.Table.{lookup, Table}
use complytime.Base.Members.{Distinct}

abbrev pub assessed : String → AssessmentLog
assessed plan = record {
  plan_id = plan;
  requirement_id = "";
  steps = record { name = "check"; result = Messages.Result.passed; message = "" } ∷ [];
  message = "";
  confidence = Messages.ConfidenceLevel.high;
  evidence = [];
  recommendation = "";
}

-- A plugin that answers each target with an assessment of one plan, and one whose scan fails.
abbrev pub answering : Provider
answering = record {
  describe = ok (record {
    healthy = true;
    version = "1";
    error_message = "";
    required_global_variables = [];
    required_target_variables = [];
    optional_target_variable_groups = [];
  });
  generate = λ _. ok (record { success = true; error_message = "" });
  scan = λ targets. ok (record {
    assessments = map (λ (t : Target). assessed t.target_id) targets;
    errors = [];
    mapping_references = [];
  });
}

abbrev pub failing : Provider
failing = record answering { scan = λ _. err "no access" }

abbrev join : String → String → String
join dir name = dir <> "/" <> name

abbrev executable : String → DirEntry
executable name = record { name = name; is_dir = false; executable = some true }

abbrev read_dir : String → Listing
read_dir dir =
    if dir == "user"
    then listed (executable "complyctl-provider-opa" ∷ executable "notes" ∷ [])
    else listed (executable "complyctl-provider-ampel" ∷ executable "complyctl-provider-opa" ∷ [])

abbrev info : String → String → ProviderInfo
info dir id = record {
  provider_id = id;
  evaluator_id = id;
  executable_path = dir <> "/complyctl-provider-" <> id;
}

abbrev user_infos : List ProviderInfo
user_infos = info "user" "opa" ∷ []

abbrev system_infos : List ProviderInfo
system_infos = info "system" "ampel" ∷ info "system" "opa" ∷ []

abbrev found_infos : List ProviderInfo
found_infos = info "user" "opa" ∷ info "system" "ampel" ∷ []

abbrev new_client : String → Result String Provider
new_client path = ok (if path == "user/complyctl-provider-opa" then answering else failing)

abbrev pub loaded : Table LoadedProvider
loaded =
    ("opa", record { info = info "user" "opa"; client = answering })
    ∷ ("ampel", record { info = info "system" "ampel"; client = failing })
    ∷ []

user_scanned : scan_dir join read_dir (expand_path join none "user") ≡ ok user_infos
unfolding scan_dir expand_path complytime.Base.Text.has_prefix keep
    complytime.Provider.Discovery.is_provider complytime.Provider.Discovery.info_of
    complytime.Base.Text.trim_prefix
user_scanned = refl

system_scanned : scan_dir join read_dir "system" ≡ ok system_infos
unfolding scan_dir keep complytime.Provider.Discovery.is_provider complytime.Base.Text.has_prefix
    complytime.Provider.Discovery.info_of complytime.Base.Text.trim_prefix
system_scanned = refl

discovered : discover_providers join read_dir none "user" "system" ≡ ok found_infos
unfolding discover_providers scan_dir expand_path complytime.Base.Text.has_prefix keep
    complytime.Provider.Discovery.is_provider complytime.Provider.Discovery.info_of contains
    complytime.Base.Text.trim_prefix
discovered = refl

all_loaded : load_providers new_client [] found_infos ≡ ok loaded
unfolding load_providers complytime.Provider.Manager.register is_usable complytime.Base.Table.insert
all_loaded = refl

user_Distinct : Distinct (evaluator_ids user_infos)
unfolding contains
user_Distinct = (refl, tt)

system_Distinct : Distinct (evaluator_ids system_infos)
unfolding contains
system_Distinct = (refl, (refl, tt))

load_providers-discovered_example :
    All
      (λ (i : ProviderInfo).
        (client : Provider) × (new_client i.executable_path ≡ ok client)
        × (lookup i.evaluator_id loaded
            ≡ (if is_usable client then some (record { info = i; client = client }) else none)))
      found_infos
    × ((k : String)
        → contains (evaluator_ids user_infos) k || contains (evaluator_ids system_infos) k ≡ false
        → lookup k loaded ≡ none)
load_providers-discovered_example =
    load_providers-discovered new_client join read_dir none "user" "system" user_infos system_infos
      found_infos loaded user_scanned system_scanned user_Distinct system_Distinct discovered
      all_loaded

abbrev asked : List Target
asked = record { target_id = "web"; variables = [] } ∷ []

route_scan_result-broadcast_example :
    (result : ScanResult) × (route_scan_result "log" (λ _. false) loaded "" asked ≡ ok result)
    × (result.assessments ≡ returned asked (list_providers loaded))
    × (result.mapping_references ≡ returned_references asked (list_providers loaded))
    × (failed_ids result ≡ map id_of (keep (fails asked) (list_providers loaded)))
    × (length result.rpc_failures ≤ length result.errors)
route_scan_result-broadcast_example = route_scan_result-broadcast "log" (λ _. false) asked loaded

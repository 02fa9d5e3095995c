-- ===== src/Provider/Manager.antt =====
-- pkg/provider/manager.go. A live gRPC client is what it answers to each request, an error as its
-- text; `available` lists are left out of errors, and logging too.
pub mod Routed
use complytime.Base.Result.{Result, ok, err, Check, ◌>>=◌, ◌>>◌}
use complytime.Provider.Discovery.{ProviderInfo}
use complytime.Provider.Messages.{AssessmentLog, MappingReference, ScanResponse, Step}
use complytime.Provider.Messages
use complytime.Provider.Requests.{
  AssessmentConfiguration, GenerateRequest, GenerateResponse, Target, DescribeResponse,
}
use complytime.Base.{
  none, true, ◌==◌, contains, some, ◌<>◌, if◌then◌else◌, ◌∷◌, false, ◌++◌, [], List, Bool, String,
}
use complytime.Base.Table.{insert, lookup, Table}

pub record Provider : Type 0 where
  pub describe : Result String DescribeResponse
  pub generate : GenerateRequest → Result String GenerateResponse
  pub scan : List Target → Result String ScanResponse

pub record LoadedProvider : Type 0 where
  pub info : ProviderInfo
  pub client : Provider

pub data ManagerError : Type 0 where
  client_failed : String → String → ManagerError
  no_provider : String → ManagerError
  generate_failed : String → String → ManagerError
  generate_refused : String → String → String → ManagerError

-- Whether a plugin that was started is registered.
unfoldable pub is_usable : Provider → Bool
is_usable client = elim client.describe [ ok response ↦ response.healthy | err e ↦ false ]

unfoldable pub register : Table LoadedProvider → ProviderInfo → Provider → Table LoadedProvider
register plugins info client =
    if is_usable client
    then insert info.evaluator_id (record { info = info; client = client }) plugins
    else plugins

-- LoadProviders, over what discovery found.
unfoldable pub load_providers :
    (String → Result String Provider)
    → Table LoadedProvider
    → List ProviderInfo
    → Result ManagerError (Table LoadedProvider)
load_providers new_client plugins [] = ok plugins
load_providers new_client plugins (info ∷ infos) = elim (new_client info.executable_path) [
  | err e ↦ err (client_failed info.provider_id e)
  | ok client ↦ load_providers new_client (register plugins info client) infos
]

unfoldable pub get_provider : Table LoadedProvider → String → Result ManagerError LoadedProvider
get_provider plugins evaluator_id = elim (lookup evaluator_id plugins) [
  | some lp ↦ ok lp
  | none ↦ err (no_provider evaluator_id)
]

-- The plugins whose provider id was not seen.
unfoldable pub unseen : List String → Table LoadedProvider → List LoadedProvider
unseen seen [] = []
unseen seen (entry ∷ plugins) =
    let lp = entry.1 in
    let rest = unseen seen plugins in
    let more = unseen (lp.info.provider_id ∷ seen) plugins in
    if contains seen lp.info.provider_id then rest else lp ∷ more

unfoldable pub list_providers : Table LoadedProvider → List LoadedProvider
list_providers plugins = unseen [] plugins

-- The answer of one plugin to a request to generate.
unfoldable pub generate_with : GenerateRequest → String → LoadedProvider → Check ManagerError
generate_with request evaluator_id lp = elim (lp.client.generate request) [
  | err e ↦ err (generate_failed lp.info.provider_id e)
  | ok response ↦
      if response.success
      then ok tt
      else err (generate_refused lp.info.provider_id evaluator_id response.error_message)
]

unfoldable pub generate_each : GenerateRequest → List LoadedProvider → Check ManagerError
generate_each request [] = ok tt
generate_each request (lp ∷ lps) =
    generate_with request lp.info.evaluator_id lp >> generate_each request lps

unfoldable pub route_generate :
    Table LoadedProvider
    → String
    → Table String
    → Table String
    → List AssessmentConfiguration
    → String
    → Check ManagerError
route_generate plugins evaluator_id globals targets configs content_path =
    let request : GenerateRequest = record {
      global_variables = globals;
      configuration = configs;
      target_variables = targets;
      complypack_content_path = content_path;
    } in
    if evaluator_id == ""
    then generate_each request (list_providers plugins)
    else get_provider plugins evaluator_id >>= generate_with request evaluator_id

pub record RpcFailure : Type 0 where
  pub evaluator_id : String
  pub message : String

pub record ScanResult : Type 0 where
  pub assessments : List AssessmentLog
  pub errors : List String
  pub mapping_references : List MappingReference
  pub rpc_failures : List RpcFailure

unfoldable pub has_errors : ScanResult → Bool
has_errors r = elim r.errors [ [] ↦ false | e ∷ rest ↦ true ]

-- `log_file` is the joined path of the log file, `exceeded` that the
-- context had met its deadline when the plugin of that id failed.
unfoldable pub scan_error_message : String → (String → Bool) → String → String → String
scan_error_message log_file exceeded provider_id e =
    let message = "provider " <> provider_id <> " failed: " <> e in
    if exceeded provider_id
    then message <> "\n\nThe scan exceeded the deadline."
      <> "\n  - Increase the timeout: complyctl scan --timeout 15m ..." <> "\n  - Check "
      <> log_file
    else message

unfoldable pub no_result : ScanResult
no_result = record { assessments = []; errors = []; mapping_references = []; rpc_failures = [] }

-- What one plugin contributes.
unfoldable pub scan_with :
    String → (String → Bool) → List Target → String → LoadedProvider → ScanResult
scan_with log_file exceeded targets evaluator_id lp = elim (lp.client.scan targets) [
  | err e ↦
      let message = scan_error_message log_file exceeded lp.info.provider_id e in
      record {
        assessments = [];
        errors = message ∷ [];
        mapping_references = [];
        rpc_failures = record { evaluator_id = evaluator_id; message = message } ∷ [];
      }
  | ok response ↦ record {
    assessments = response.assessments;
    errors = response.errors;
    mapping_references = response.mapping_references;
    rpc_failures = [];
  }
]

unfoldable pub append_result : ScanResult → ScanResult → ScanResult
append_result r s = record {
  assessments = r.assessments ++ s.assessments;
  errors = r.errors ++ s.errors;
  mapping_references = r.mapping_references ++ s.mapping_references;
  rpc_failures = r.rpc_failures ++ s.rpc_failures;
}

-- The loop of a broadcast.
unfoldable pub scan_each :
    String → (String → Bool) → List Target → ScanResult → List LoadedProvider → ScanResult
scan_each log_file exceeded targets result [] = result
scan_each log_file exceeded targets result (lp ∷ lps) =
    scan_each log_file exceeded targets
      (append_result result (scan_with log_file exceeded targets lp.info.evaluator_id lp)) lps

unfoldable pub route_scan_result :
    String
    → (String → Bool)
    → Table LoadedProvider
    → String
    → List Target
    → Result ManagerError ScanResult
unfolding no_result
route_scan_result log_file exceeded plugins evaluator_id targets =
    if evaluator_id == ""
    then ok (scan_each log_file exceeded targets no_result (list_providers plugins))
    else (get_provider plugins evaluator_id >>= λ lp.
        ok (scan_with log_file exceeded targets evaluator_id lp))

unfoldable pub error_assessments : String → String → List AssessmentLog
error_assessments evaluator_id message =
    record {
      plan_id = "";
      requirement_id = evaluator_id <> "-error";
      steps =
          record { name = "provider-error"; result = Messages.Result.error; message = message }
          ∷ [];
      message = message;
      confidence = Messages.ConfidenceLevel.not_set;
      evidence = [];
      recommendation = "";
    }
    ∷ []

unfoldable pub failure_assessments : List RpcFailure → List AssessmentLog
failure_assessments [] = []
failure_assessments (f ∷ failures) =
    error_assessments f.evaluator_id f.message ++ failure_assessments failures

unfoldable pub route_scan :
    String
    → (String → Bool)
    → Table LoadedProvider
    → String
    → List Target
    → Result ManagerError (List AssessmentLog)
route_scan log_file exceeded plugins evaluator_id targets =
    route_scan_result log_file exceeded plugins evaluator_id targets >>= λ result.
    ok (result.assessments ++ failure_assessments result.rpc_failures)

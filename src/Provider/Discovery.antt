-- ===== src/Provider/Discovery.antt =====
-- pkg/provider/discovery.go. `join` is filepath.Join; what os.ReadDir and Info answer is data.
pub mod Found
use complytime.Base.Result.{Result, ok, err, ◌>>=◌}
use complytime.Base.{
  none, false, some, contains, ◌++◌, keep, ◌&&◌, if◌then◌else◌, map, [], not, Option, Bool, List,
  String,
}
use complytime.Base.Text.{has_prefix, trim_prefix}

pub record ProviderInfo : Type 0 where
  pub provider_id : String
  pub evaluator_id : String
  pub executable_path : String

-- `executable` is `none` where Info fails, and tells whether any of the bits 0111 is set.
pub record DirEntry : Type 0 where
  pub name : String
  pub is_dir : Bool
  pub executable : Option Bool

pub data Listing : Type 0 where
  not_existing unreadable : Listing
  listed : List DirEntry → Listing

pub data DiscoveryError : Type 0 where
  read_failed : String → DiscoveryError

abbrev pub provider_executable_prefix : String
provider_executable_prefix = "complyctl-provider-"

unfoldable pub expand_path : (String → String → String) → Option String → String → String
expand_path join home path =
    if has_prefix path "~/"
    then elim home [ some directory ↦ join directory (trim_prefix path "~/") | none ↦ path ]
    else path

unfoldable pub is_provider : DirEntry → Bool
is_provider entry =
    not entry.is_dir
    && has_prefix entry.name provider_executable_prefix
    && (elim entry.executable [ some bits ↦ bits | none ↦ false ])

unfoldable pub info_of : (String → String → String) → String → DirEntry → ProviderInfo
info_of join dir entry =
    let id = trim_prefix entry.name provider_executable_prefix in
    record { provider_id = id; evaluator_id = id; executable_path = join dir entry.name }

unfoldable pub scan_dir :
    (String → String → String)
    → (String → Listing)
    → String
    → Result DiscoveryError (List ProviderInfo)
scan_dir join read_dir dir = elim (read_dir dir) [
  | not_existing ↦ ok []
  | unreadable ↦ err (read_failed dir)
  | listed entries ↦ ok (map (info_of join dir) (keep is_provider entries))
]

abbrev pub evaluator_ids : List ProviderInfo → List String
evaluator_ids = map (λ (p : ProviderInfo). p.evaluator_id)

unfoldable pub discover_providers :
    (String → String → String)
    → (String → Listing)
    → Option String
    → String
    → String
    → Result DiscoveryError (List ProviderInfo)
discover_providers join read_dir home provider_dir system_dir =
    scan_dir join read_dir (expand_path join home provider_dir) >>= λ user.
    scan_dir join read_dir system_dir >>= λ system.
    ok (
      user
      ++ keep (λ (p : ProviderInfo). not (contains (evaluator_ids user) p.evaluator_id)) system)

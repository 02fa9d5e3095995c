-- ===== src/Config/Verification.antt =====
-- internal/complytime/config.go: ValidateVerificationConfig and IsConfigured.
pub mod Modes
use complytime.Base.{String, Bool, false, not, ◌&&◌, ◌||◌, Option, none, some, ◌==◌, if◌then◌else◌}
use complytime.Base.Result.{Result, ok, err}
use complytime.Config.{VerificationConfig}

pub data VerificationError : Type 0 where
  trusted_root_with_key key_with_keyless issuer_requires_identity : VerificationError
  identity_requires_issuer trusted_root_requires_keyless : VerificationError
  trusted_root_not_found : String → VerificationError

-- `clean` is filepath.Clean, and `stat` tells the paths at which os.Stat finds a file. The answer
-- is the block as it stands afterwards, its trusted_root cleaned.
unfoldable pub validate_verification_config :
    (String → String)
    → (String → Bool)
    → Option VerificationConfig
    → Result VerificationError (Option VerificationConfig)
validate_verification_config clean stat none = ok none
validate_verification_config clean stat (some v) =
    let has_keyless = not (v.issuer == "") || not (v.identity == "") in
    let has_keyed = not (v.key == "") in
    if not (v.trusted_root == "") && has_keyed
    then err trusted_root_with_key
    else if has_keyed && has_keyless
    then err key_with_keyless
    else if not (v.issuer == "") && v.identity == ""
    then err issuer_requires_identity
    else if not (v.identity == "") && v.issuer == ""
    then err identity_requires_issuer
    else if not (v.trusted_root == "") && (v.issuer == "" || v.identity == "")
    then err trusted_root_requires_keyless
    else if v.trusted_root == ""
    then ok (some v)
    else if stat (clean v.trusted_root)
    then ok (some (record v { trusted_root = clean v.trusted_root }))
    else err (trusted_root_not_found (clean v.trusted_root))

unfoldable pub is_configured : Option VerificationConfig → Bool
is_configured none = false
is_configured (some v) = not (v.key == "") || (not (v.issuer == "") && not (v.identity == ""))

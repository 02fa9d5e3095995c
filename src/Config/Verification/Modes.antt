-- ===== src/Config/Verification/Modes.antt =====
-- Which verification blocks are accepted.
use complytime.Base.{String, Bool, true, not, ◌||◌, some, ◌==◌, ◌≡◌, ◌≢◌, ◌⊎◌, ◌↔◌, arith, eq_iff}
use complytime.Base.Result.{ok, is_ok}
use complytime.Config.{VerificationConfig}
use complytime.Config.Verification.{validate_verification_config, is_configured}

-- A block with no field, with a key alone, or with an issuer, an identity and perhaps a trusted root
-- that exists.
abbrev IsBlank : VerificationConfig → Type 0
IsBlank v = (v.issuer ≡ "") × (v.identity ≡ "") × (v.key ≡ "") × (v.trusted_root ≡ "")

abbrev IsKeyed : VerificationConfig → Type 0
IsKeyed v = (v.issuer ≡ "") × (v.identity ≡ "") × (v.key ≢ "") × (v.trusted_root ≡ "")

abbrev IsKeyless : (String → String) → (String → Bool) → VerificationConfig → Type 0
IsKeyless clean stat v =
    (v.issuer ≢ "")
    × (v.identity ≢ "")
    × (v.key ≡ "")
    × ((v.trusted_root ≡ "") ⊎ (stat (clean v.trusted_root) ≡ true))

abbrev pub IsAccepted : (String → String) → (String → Bool) → VerificationConfig → Type 0
IsAccepted clean stat v = IsBlank v ⊎ (IsKeyed v ⊎ IsKeyless clean stat v)

module _ (clean : String → String) (stat : String → Bool) where
  -- A block is accepted exactly if it is blank, keyed or keyless.
  validate_verification_config-accepts :
      (v : VerificationConfig)
      → (is_ok (validate_verification_config clean stat (some v)) ≡ true) ↔ IsAccepted clean stat v
  unfolding validate_verification_config
  validate_verification_config-accepts v =
      ground
        (arith, eq_iff v.issuer "", eq_iff v.identity "", eq_iff v.key "", eq_iff v.trusted_root "")

  -- An accepted block asks for verification as soon as one of its fields is set.
  is_configured-of_validated :
      (v w : VerificationConfig)
      → validate_verification_config clean stat (some v) ≡ ok (some w)
      → is_configured (some w) ≡ (
          not (v.issuer == "")
          || not (v.identity == "")
          || not (v.key == "")
          || not (v.trusted_root == ""))
  unfolding validate_verification_config is_configured
  is_configured-of_validated v w e = ground arith

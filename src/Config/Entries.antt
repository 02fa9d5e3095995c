-- ===== src/Config/Entries.antt =====
-- internal/complytime/config.go: ValidateOCIRef, and the validation of a list of entries.
pub mod Accepted
pub mod Found
use complytime.Base.{
  ℕ, String, Bool, true, false, not, ◌&&◌, ◌||◌, Option, none, some, List, [], ◌∷◌, ◌==◌, nat_eq,
  contains, if◌then◌else◌,
}
use complytime.Base.Result.{Result, Check, ok, err, ◌>>=◌, ◌>>◌, map_err, reject_if}
use complytime.Base.Text.{trim_prefix, contains_rune, all_runes}
use complytime.Base.Splits.{trim_space, split_first}
use complytime.Config.{VerificationConfig, PolicyEntry}
use complytime.Config.Verification.{VerificationError, validate_verification_config, is_configured}
use complytime.Config.Reference.{Parsers, effective_id}

pub data OciRefError : Type 0 where
  empty_url invalid_characters missing_repository missing_host : OciRefError

-- A character of the class in `unsafeRefChars`.
unfoldable pub is_unsafe : ℕ → Bool
is_unsafe c =
    nat_eq c b';'
    || nat_eq c b'|'
    || nat_eq c b'&'
    || nat_eq c b'$'
    || nat_eq c b'`'
    || nat_eq c b'!'
    || nat_eq c b'>'
    || nat_eq c b'<'
    || nat_eq c b'('
    || nat_eq c b')'
    || nat_eq c b'{'
    || nat_eq c b'}'
    || nat_eq c b'['
    || nat_eq c b']'
    || nat_eq c 0x5c

unfoldable pub validate_oci_ref : String → Check OciRefError
validate_oci_ref raw =
    let s = trim_space raw in
    let stripped = trim_prefix (trim_prefix s "https://") "http://" in
    if s == ""
    then err empty_url
    else if not (all_runes (λ c. not (is_unsafe c)) s)
    then err invalid_characters
    else elim (split_first b'/' stripped) [
      | none ↦ err missing_repository
      | some (host, path) ↦
          if not (contains_rune host b'.') && not (contains_rune host b':')
          then err missing_host
          else ok tt
    ]

pub data EntryError : Type 0 where
  invalid_url : OciRefError → EntryError
  duplicate_url duplicate_id : String → EntryError
  skip_with_verification : String → EntryError
  invalid_verification : VerificationError → EntryError

module _ (parsers : Parsers) (clean : String → String) (stat : String → Bool) where
  -- The checks of one entry, with the URLs and the ids seen before it.
  unfoldable pub validate_entry :
      List String → List String → PolicyEntry → Result EntryError PolicyEntry
  validate_entry urls ids entry = do
    map_err invalid_url (validate_oci_ref entry.url)
    reject_if (contains urls entry.url) (duplicate_url entry.url)
    reject_if (contains ids (effective_id parsers entry))
        (duplicate_id (effective_id parsers entry))
    reject_if (entry.skip_verify && is_configured entry.verification)
        (skip_with_verification (effective_id parsers entry))
    v ← map_err invalid_verification (validate_verification_config clean stat entry.verification)
    ok (record entry { verification = v })

  -- validateEntries: the entries as they stand afterwards, their trusted roots cleaned.
  unfoldable pub validate_entries :
      List String → List String → List PolicyEntry → Result EntryError (List PolicyEntry)
  validate_entries urls ids [] = ok []
  validate_entries urls ids (entry ∷ entries) =
      let rest = validate_entries (entry.url ∷ urls) (effective_id parsers entry ∷ ids) entries in
      elim (validate_entry urls ids entry) [
        | err e ↦ err e
        | ok checked ↦ elim rest [ err e ↦ err e | ok checked_rest ↦ ok (checked ∷ checked_rest) ]
      ]

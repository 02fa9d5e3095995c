-- ===== src/Cli/Scan/Formats.antt =====
-- cmd/complyctl/cli/scan.go: the formats that a scan is asked for.
use complytime.Base.{
  refl, inr, inl, Bool-cases, true, All, ltb, eq_iff, eq_refl, arith, false, ◌||◌, ◌&&◌, length,
  ◌==◌, leb, not, if◌then◌else◌, [], ◌≡◌, Bool, ◌∷◌, contains, List, String,
}
use complytime.Base.Result.{◌>>◌, reject_if, ok, Check}
use complytime.Base.Members.{Distinct}

abbrev pub output_format_oscal : String
output_format_oscal = "oscal"

abbrev pub output_format_pretty : String
output_format_pretty = "pretty"

abbrev pub output_format_sarif : String
output_format_sarif = "sarif"

abbrev pub output_format_all : String
output_format_all = "all"

abbrev pub all_concrete_formats : List String
all_concrete_formats = output_format_oscal ∷ output_format_pretty ∷ output_format_sarif ∷ []

abbrev pub eval_log_format_yaml : String
eval_log_format_yaml = "yaml"

abbrev pub eval_log_format_json : String
eval_log_format_json = "json"

pub data FormatError : Type 0 where
  duplicate_format invalid_format invalid_log_format : String → FormatError
  combined_with_all : FormatError

-- The loop over the set of the formats that were seen.
unfoldable pub reject_duplicates : List String → List String → Check FormatError
reject_duplicates seen [] = ok tt
reject_duplicates seen (f ∷ formats) =
    reject_if (contains seen f) (duplicate_format f) >> reject_duplicates (f ∷ seen) formats

unfoldable pub reject_unknown : List String → Check FormatError
reject_unknown [] = ok tt
reject_unknown (f ∷ formats) =
    reject_if (not (contains all_concrete_formats f)) (invalid_format f) >> reject_unknown formats

unfoldable pub validate_formats : List String → Check FormatError
validate_formats formats =
    if leb (length formats) 0
    then ok tt
    else (reject_duplicates [] formats
        >> (if contains formats output_format_all
            then reject_if (ltb 1 (length formats)) combined_with_all
            else reject_unknown formats))

unfoldable pub resolve_formats : List String → List String
resolve_formats (f ∷ []) = if f == output_format_all then all_concrete_formats else f ∷ []
resolve_formats formats = formats

unfoldable pub resolve_log_format : String → Bool → String → String
resolve_log_format flag_value flag_changed env_value =
    if not flag_changed && not (env_value == "") then env_value else flag_value

unfoldable pub validate_log_format : String → Check FormatError
validate_log_format log_format =
    reject_if (not (log_format == eval_log_format_yaml || log_format == eval_log_format_json))
      (invalid_log_format log_format)

reject_duplicates-Distinct :
    (seen formats : List String)
    → reject_duplicates seen formats ≡ ok tt
    → Distinct formats × ((k : String) → contains seen k && contains formats k ≡ false)
unfolding reject_duplicates contains
reject_duplicates-Distinct seen [] h = (tt, λ k. ground arith)
reject_duplicates-Distinct seen (f ∷ formats) h =
    let (distinct, apart) = reject_duplicates-Distinct (f ∷ seen) formats (ground arith) in
    ((ground (arith, apart f, eq_refl f), distinct), λ k. ground (arith, apart k, eq_iff f k))

reject_unknown-concrete :
    (formats : List String)
    → reject_unknown formats ≡ ok tt
    → All (λ f. contains all_concrete_formats f ≡ true) formats
unfolding reject_unknown
reject_unknown-concrete [] h = tt
reject_unknown-concrete (f ∷ formats) h =
    (ground arith, reject_unknown-concrete formats (ground arith))

-- Formats that were accepted resolve to different ones, each of which has a writer.
pub resolve_formats-concrete :
    (formats : List String)
    → validate_formats formats ≡ ok tt
    → Distinct (resolve_formats formats)
      × All (λ f. contains all_concrete_formats f ≡ true) (resolve_formats formats)
unfolding validate_formats resolve_formats contains
resolve_formats-concrete [] h = (tt, tt)
resolve_formats-concrete (f ∷ []) h = elim (Bool-cases (f == output_format_all)) [
  | inl every ↦ rw every ((refl, (refl, (refl, tt))), (refl, (refl, (refl, tt))))
  | inr one ↦ rw one ((refl, tt), reject_unknown-concrete (f ∷ []) (ground arith))
]
resolve_formats-concrete (f ∷ g ∷ formats) h = (
  (reject_duplicates-Distinct [] (f ∷ g ∷ formats) (ground arith)).0,
  reject_unknown-concrete (f ∷ g ∷ formats) (ground arith),
)

-- ===== src/Config/Entries/Accepted.antt =====
-- What holds of a list of entries that is accepted.
use complytime.Base.{
  String, Bool, true, false, ◌&&◌, List, [], ◌∷◌, map, ◌≡◌, refl, arith, eq_iff, contains, inl, inr,
  All,
}
use complytime.Base.Result.{Result-cases, ok, is_ok}
use complytime.Base.Members.{Distinct}
use complytime.Config.{PolicyEntry}
use complytime.Config.Verification.{validate_verification_config, is_configured}
use complytime.Config.Reference.{Parsers, effective_id}
use complytime.Config.Entries.{validate_oci_ref, validate_entry, validate_entries}

module _ (parsers : Parsers) (clean : String → String) (stat : String → Bool) where
  -- An entry by itself: its URL and its verification are accepted, and it does not opt out of a
  -- verification that it configures.
  pub record IsAcceptedEntry (entry : PolicyEntry) : Type 0 where
    pub url_ok : validate_oci_ref entry.url ≡ ok tt
    pub verification_ok : is_ok (validate_verification_config clean stat entry.verification) ≡ true
    pub not_both : (entry.skip_verify && is_configured entry.verification) ≡ false

  urls_of : List PolicyEntry → List String
  urls_of = map (λ entry. entry.url)

  ids_of : List PolicyEntry → List String
  ids_of = map (effective_id parsers)

  validate_entry-eq-ok :
      (urls ids : List String) (entry checked : PolicyEntry)
      → validate_entry parsers clean stat urls ids entry ≡ ok checked
      → IsAcceptedEntry entry
        × (contains urls entry.url ≡ false)
        × (contains ids (effective_id parsers entry) ≡ false)
  unfolding validate_entry
  validate_entry-eq-ok urls ids entry checked e = (
    record { url_ok = ground arith; verification_ok = ground arith; not_both = ground arith },
    ground arith,
    ground arith,
  )

  -- None of the list is in the other one.
  Fresh : List String → List String → Type 0
  Fresh seen = All (λ x. contains seen x ≡ false)

  Fresh-tail :
      (seen : List String) (x : String) (xs : List String) → Fresh (x ∷ seen) xs → Fresh seen xs
  unfolding Fresh contains
  Fresh-tail seen x [] h = tt
  Fresh-tail seen x (y ∷ ys) h = (ground arith, Fresh-tail seen x ys h.1)

  Fresh-head :
      (seen : List String) (x : String) (xs : List String)
      → Fresh (x ∷ seen) xs
      → contains xs x ≡ false
  unfolding Fresh contains
  Fresh-head seen x [] h = refl
  Fresh-head seen x (y ∷ ys) h = ground (arith, eq_iff x y, eq_iff y x, Fresh-head seen x ys h.1)

  validate_entries-tail :
      (urls ids : List String) (entry : PolicyEntry) (entries checked : List PolicyEntry)
      → validate_entries parsers clean stat urls ids (entry ∷ entries) ≡ ok checked
      → (first : PolicyEntry) × (rest : List PolicyEntry) × (validate_entry parsers clean stat urls
            ids entry
          ≡ ok first)
        × (validate_entries parsers clean stat
              (entry.url ∷ urls)
              (effective_id parsers entry ∷ ids)
              entries
            ≡ ok rest)
  unfolding validate_entries
  validate_entries-tail urls ids entry entries checked e =
      elim (Result-cases (validate_entry parsers clean stat urls ids entry)) [
        | inl (x, refused) ↦ absurd (ground arith)
        | inr (first, accepted) ↦
            elim (Result-cases (
              validate_entries parsers clean stat (entry.url ∷ urls)
                (effective_id parsers entry ∷ ids) entries)) [
                  | inl (x, refused) ↦ absurd (ground arith)
                  | inr (rest, done) ↦ (first, rest, accepted, done)
                ]
      ]

  validate_entries-Fresh :
      (urls ids : List String) (entries checked : List PolicyEntry)
      → validate_entries parsers clean stat urls ids entries ≡ ok checked
      → All IsAcceptedEntry entries
        × Distinct (urls_of entries)
        × Distinct (ids_of entries)
        × Fresh urls (urls_of entries)
        × Fresh ids (ids_of entries)
  unfolding urls_of ids_of Fresh
  validate_entries-Fresh urls ids [] checked e = (tt, tt, tt, tt, tt)
  validate_entries-Fresh urls ids (entry ∷ entries) checked e =
      let (first, rest, accepted, done) = validate_entries-tail urls ids entry entries checked e in
      let (valid, new_url, new_id) = validate_entry-eq-ok urls ids entry first accepted in
      let (all_valid, distinct_urls, distinct_ids, fresh_urls, fresh_ids) =
        validate_entries-Fresh (entry.url ∷ urls) (effective_id parsers entry ∷ ids) entries rest
          done in
      (
        (valid, all_valid),
        (Fresh-head urls entry.url (urls_of entries) fresh_urls, distinct_urls),
        (Fresh-head ids (effective_id parsers entry) (ids_of entries) fresh_ids, distinct_ids),
        (new_url, Fresh-tail urls entry.url (urls_of entries) fresh_urls),
        (new_id, Fresh-tail ids (effective_id parsers entry) (ids_of entries) fresh_ids),
      )

  -- In a list that is accepted all URLs differ and all effective ids differ, and each entry has an
  -- acceptable URL and verification block and does not opt out of a verification that it configures.
  pub validate_entries-accepted :
      (entries checked : List PolicyEntry)
      → validate_entries parsers clean stat [] [] entries ≡ ok checked
      → All IsAcceptedEntry entries
        × Distinct (map (λ entry. entry.url) entries)
        × Distinct (map (effective_id parsers) entries)
  unfolding urls_of ids_of
  validate_entries-accepted entries checked e =
      let (all_valid, distinct_urls, distinct_ids, fresh_urls, fresh_ids) =
        validate_entries-Fresh [] [] entries checked e in
      (all_valid, distinct_urls, distinct_ids)

-- ===== src/Config/Entries/Found.antt =====
-- FindPolicy on a list of entries that is accepted.
use complytime.Base.{
  String, Bool, false, some, List, [], ◌∷◌, ◌++◌, map, ◌==◌, ◌≡◌, refl, arith, eq_iff, eq_refl,
  contains,
}
use complytime.Base.Result.{ok}
use complytime.Base.Members.{Distinct}
use complytime.Base.Splits.{trim_space}
use complytime.Config.{PolicyEntry}
use complytime.Config.Reference.{Parsers, effective_id, find_policy}
use complytime.Config.Entries.{validate_entries}
use complytime.Config.Entries.Accepted.{validate_entries-accepted}

module _ (parsers : Parsers) where
  not_contained :
      (before after : List PolicyEntry) (entry : PolicyEntry) (id : String)
      → contains (map (effective_id parsers) (before ++ (entry ∷ after))) id ≡ false
      → (id == effective_id parsers entry) ≡ false
  unfolding contains
  not_contained [] after entry id h =
      ground (arith, eq_iff (effective_id parsers entry) id, eq_iff id (effective_id parsers entry))
  not_contained (e ∷ before) after entry id h = not_contained before after entry id (ground arith)

  find_policy-Distinct :
      (before after : List PolicyEntry) (entry : PolicyEntry)
      → Distinct (map (effective_id parsers) (before ++ (entry ∷ after)))
      → trim_space (effective_id parsers entry) ≡ effective_id parsers entry
      → find_policy parsers (before ++ (entry ∷ after)) (effective_id parsers entry) ≡ some entry
  unfolding find_policy
  find_policy-Distinct [] after entry h trimmed =
      rw (trimmed, find_policy, eq_refl (effective_id parsers entry)) refl
  find_policy-Distinct (e ∷ before) after entry h trimmed =
      rw (find_policy, trimmed, not_contained before after entry (effective_id parsers e) h.0)
        (find_policy-Distinct before after entry h.1 trimmed)

  -- In a list that is accepted each entry is found under its own effective id, if no spaces surround
  -- that id.
  find_policy-validated :
      (clean : String → String) (stat : String → Bool) (before after checked : List PolicyEntry)
      (entry : PolicyEntry)
      → validate_entries parsers clean stat [] [] (before ++ (entry ∷ after)) ≡ ok checked
      → trim_space (effective_id parsers entry) ≡ effective_id parsers entry
      → find_policy parsers (before ++ (entry ∷ after)) (effective_id parsers entry) ≡ some entry
  find_policy-validated clean stat before after checked entry e trimmed =
      let (valid, urls, ids) =
        validate_entries-accepted parsers clean stat (before ++ (entry ∷ after)) checked e in
      find_policy-Distinct before after entry ids trimmed

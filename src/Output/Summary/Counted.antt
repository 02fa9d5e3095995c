-- ===== src/Output/Summary/Counted.antt =====
-- The totals of a scan's summary.
use complytime.Output.Gemara.{GemaraResult, result_eq, number}
use complytime.Output.Summary.{
  SummaryEntry, Tally, count, entry_of, tally, target_of, targets_after, format_scan_summary,
  nothing_assessed, no_tally, sort_priority,
}
use complytime.Provider.Messages.{AssessmentLog}
use complytime.Base.{
  inr, inl, Bool-cases, refl, length-append, ap, ◌≤◌, ◌↔◌, true, String, List, arith, ◌||◌,
  if◌then◌else◌, length, [], ◌∷◌, ◌++◌, suc, ◌≡◌, not, ◌+◌, keep, Bool, ℕ,
}
use complytime.Base.Table.{Table}
use mathlib.Core.List.{Perm}
use complytime.Base.Members.{length-perm}

unfoldable pub counted : Tally → ℕ
counted t = t.pass_count + t.fail_count + t.not_applicable_count + t.skip_count + t.err_count

unfoldable pub is_shown : SummaryEntry → Bool
is_shown e = not (result_eq e.result GemaraResult.passed)

count_by_result :
    (t : Tally) (entry : SummaryEntry) (r : GemaraResult)
    → entry.result ≡ r
    → (counted (count t entry) ≡ suc (counted t))
      × ((count t entry).entries ≡ t.entries ++ entry ∷ [])
      × ((count t entry).pass_count + length (keep is_shown (entry ∷ [])) ≡ suc t.pass_count)
      × ((count t entry).pass_count + (count t entry).fail_count
          ≡ t.pass_count
            + t.fail_count
            + (if result_eq r GemaraResult.passed || result_eq r GemaraResult.failed then 1 else 0))
unfolding counted count keep is_shown result_eq number
count_by_result t entry GemaraResult.not_run e =
    (ground arith, ground arith, ground arith, ground arith)
count_by_result t entry GemaraResult.passed e =
    (ground arith, ground arith, ground arith, ground arith)
count_by_result t entry GemaraResult.failed e =
    (ground arith, ground arith, ground arith, ground arith)
count_by_result t entry GemaraResult.needs_review e =
    (ground arith, ground arith, ground arith, ground arith)
count_by_result t entry GemaraResult.not_applicable e =
    (ground arith, ground arith, ground arith, ground arith)
count_by_result t entry GemaraResult.unknown e =
    (ground arith, ground arith, ground arith, ground arith)

length-keep-append {ℓ} :
    {A : Type ℓ} (p : A → Bool) (xs ys : List A)
    → length (keep p (xs ++ ys)) ≡ length (keep p xs) + length (keep p ys)
unfolding keep
length-keep-append p [] ys = omega arith
length-keep-append p (x ∷ xs) ys = ground (arith, length-keep-append p xs ys)

module _ (update : GemaraResult → GemaraResult → GemaraResult) where
  -- What the loop adds to the counters and to the entries.
  tally_counted :
      (m : Table String) (t : Tally) (assessments : List AssessmentLog) (targets : List String)
      → (counted (tally update m t assessments targets) ≡ counted t + length assessments)
        × (length (tally update m t assessments targets).entries
            ≡ length t.entries + length assessments)
        × ((tally update m t assessments targets).pass_count
              + length (keep is_shown (tally update m t assessments targets).entries)
            ≡ t.pass_count + length (keep is_shown t.entries) + length assessments)
        × ((nothing_assessed update assessments ≡ true) ↔ (
            (tally update m t assessments targets).pass_count
              + (tally update m t assessments targets).fail_count
            ≡ t.pass_count + t.fail_count))
        × (t.pass_count + t.fail_count
            ≤ (tally update m t assessments targets).pass_count
              + (tally update m t assessments targets).fail_count)
  unfolding tally nothing_assessed entry_of
  tally_counted m t [] targets =
      (omega arith, omega arith, omega arith, (λ _. refl, λ _. refl), omega arith)
  tally_counted m t (a ∷ assessments) targets =
      let entry = entry_of update m a (target_of targets) in
      let (one, entries, shown, assessed) = count_by_result t entry entry.result refl in
      let (all, rows, hidden, none, grown) =
        tally_counted m (count t entry) assessments (targets_after targets) in
      (
        omega (arith, one, all),
        omega (arith, rows, ap length entries, length-append t.entries (entry ∷ [])),
        omega (
          arith,
          hidden,
          shown,
          ap (λ es. length (keep is_shown es)) entries,
          length-keep-append is_shown t.entries (entry ∷ []),
        ),
        ground (arith, none, assessed, grown),
        ground (arith, assessed, grown),
      )

  -- The five counters of a summary add up to the number of assessments, there is a row for each
  -- assessment, or for each that did not pass where passing ones are hidden, and nothing counts as
  -- assessed exactly if no assessment passed or failed; if the sorting permutes.
  pub format_scan_summary-counted :
      (sort : (SummaryEntry → ℕ) → List SummaryEntry → List SummaryEntry)
      → ((key : SummaryEntry → ℕ) (xs : List SummaryEntry) → Perm (sort key xs) xs)
      → (assessments : List AssessmentLog) (targets : List String) (m : Table String) (show : Bool)
      → let (totals, rows) = format_scan_summary update sort assessments targets m show in
        (counted totals ≡ length assessments)
        × ((if show then 0 else totals.pass_count) + length rows ≡ length assessments)
        × ((nothing_assessed update assessments ≡ true)
            ↔ (totals.pass_count + totals.fail_count ≡ 0))
  unfolding format_scan_summary no_tally counted keep is_shown
  format_scan_summary-counted sort permutes assessments targets m show =
      let (all, rows, hidden, none, grown) = tally_counted m no_tally assessments targets in
      (
        omega (arith, all),
        elim (Bool-cases show) [
          | inl shown ↦ rw shown (
              omega (
                arith,
                rows,
                length-perm _ _ (
                    permutes (λ (e : SummaryEntry). sort_priority e.result)
                      (tally update m no_tally assessments targets).entries),
              ))
          | inr not_shown ↦ rw not_shown (
              omega (
                arith,
                hidden,
                length-perm _ _ (
                    permutes (λ (e : SummaryEntry). sort_priority e.result)
                      (keep is_shown (tally update m no_tally assessments targets).entries)),
              ))
        ],
        none,
      )

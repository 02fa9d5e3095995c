-- ===== src/Output/Summary.antt =====
-- internal/output/scan_summary.go: the table and the totals that follow a scan. How the table is
-- drawn is left out; slices.SortStableFunc by a number of each entry is `sort`.
pub mod Counted
use complytime.Output.Gemara.{GemaraResult, result_eq}
use complytime.Output.Results.{aggregate_result_from_steps, matching_step_message}
use complytime.Provider.Messages.{AssessmentLog}
use complytime.Base.{
  none, false, not, ◌||◌, keep, ◌==◌, true, if◌then◌else◌, some, ◌+◌, Bool, ◌∷◌, [], List, ◌++◌, ℕ,
  String,
}
use complytime.Base.Table.{lookup, Table}

pub record SummaryEntry : Type 0 where
  pub target_id : String
  pub requirement_id : String
  pub control_id : String
  pub result : GemaraResult
  pub message : String

unfoldable pub sort_priority : GemaraResult → ℕ
sort_priority GemaraResult.failed = 1
sort_priority GemaraResult.unknown = 2
sort_priority GemaraResult.needs_review = 3
sort_priority GemaraResult.not_applicable = 4
sort_priority GemaraResult.not_run = 4
sort_priority GemaraResult.passed = 6

-- The counters and the entries, as the loop builds them.
pub record Tally : Type 0 where
  pub pass_count : ℕ
  pub fail_count : ℕ
  pub not_applicable_count : ℕ
  pub skip_count : ℕ
  pub err_count : ℕ
  pub entries : List SummaryEntry

unfoldable pub count : Tally → SummaryEntry → Tally
count t entry =
    let added = record t { entries = t.entries ++ entry ∷ [] } in
    elim entry.result [
      | GemaraResult.passed ↦ record added { pass_count = t.pass_count + 1 }
      | GemaraResult.failed ↦ record added { fail_count = t.fail_count + 1 }
      | GemaraResult.not_applicable ↦ record added {
        not_applicable_count = t.not_applicable_count + 1;
      }
      | GemaraResult.not_run ↦ record added { skip_count = t.skip_count + 1 }
      | GemaraResult.needs_review ↦ record added { err_count = t.err_count + 1 }
      | GemaraResult.unknown ↦ record added { err_count = t.err_count + 1 }
    ]

-- The head of the targets that are left, and what follows it.
unfoldable pub target_of : List String → String
target_of [] = "-"
target_of (target ∷ targets) = target

unfoldable pub targets_after : List String → List String
targets_after [] = []
targets_after (target ∷ targets) = targets

-- The control of a requirement, `-` where the map has none or the empty text.
unfoldable pub control_of : Table String → String → String
control_of req_to_control requirement = elim (lookup requirement req_to_control) [
  | some control ↦ if control == "" then "-" else control
  | none ↦ "-"
]

unfoldable pub no_tally : Tally
no_tally = record {
  pass_count = 0;
  fail_count = 0;
  not_applicable_count = 0;
  skip_count = 0;
  err_count = 0;
  entries = [];
}

module _ (update : GemaraResult → GemaraResult → GemaraResult) where
  unfoldable pub entry_of : Table String → AssessmentLog → String → SummaryEntry
  entry_of req_to_control a target = record {
    target_id = target;
    requirement_id = a.requirement_id;
    control_id = control_of req_to_control a.requirement_id;
    result = aggregate_result_from_steps update a.steps;
    message = matching_step_message a.steps (aggregate_result_from_steps update a.steps);
  }

  -- The loop, with the targets that stand parallel to the assessments.
  unfoldable pub tally : Table String → Tally → List AssessmentLog → List String → Tally
  tally req_to_control t [] targets = t
  tally req_to_control t (a ∷ assessments) targets =
      tally req_to_control (count t (entry_of req_to_control a (target_of targets))) assessments
        (targets_after targets)

  -- The totals and the rows that FormatScanSummary prints.
  unfoldable pub format_scan_summary :
      ((SummaryEntry → ℕ) → List SummaryEntry → List SummaryEntry)
      → List AssessmentLog
      → List String
      → Table String
      → Bool
      → Tally × List SummaryEntry
  unfolding no_tally
  format_scan_summary sort assessments targets req_to_control show_passing =
      let totals = tally req_to_control no_tally assessments targets in
      let shown =
        if show_passing
        then totals.entries
        else keep (λ (e : SummaryEntry). not (result_eq e.result GemaraResult.passed))
            totals.entries in
      (totals, sort (λ (e : SummaryEntry). sort_priority e.result) shown)

  unfoldable pub nothing_assessed : List AssessmentLog → Bool
  nothing_assessed [] = true
  nothing_assessed (a ∷ assessments) =
      let result = aggregate_result_from_steps update a.steps in
      let rest = nothing_assessed assessments in
      if result_eq result GemaraResult.passed || result_eq result GemaraResult.failed
      then false
      else rest

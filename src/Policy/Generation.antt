-- ===== src/Policy/Generation.antt =====
-- internal/policy/generation_state.go: InvalidateForEvaluator, over the files under the generation
-- directory in the order of filepath.WalkDir, all of whose directories can be listed. JSON is read
-- beforehand: a file has its state, if it parses.
pub mod Invalidated
use complytime.Base.{
  String, Bool, true, false, not, ◌&&◌, ◌||◌, Option, none, some, List, [], ◌∷◌, contains,
  if◌then◌else◌,
}
use complytime.Base.Table.{Table}

pub record GenerationState : Type 0 where
  pub policy_id : String
  pub policy_digest : String
  pub complypack_digests : Table String
  pub generated_at : String
  pub evaluator_ids : List String

-- `stuck` tells that the removal of the file fails, though it exists.
pub record GenerationFile : Type 0 where
  pub path : String
  pub is_json : Bool
  pub readable : Bool
  pub state : Option GenerationState
  pub stuck : Bool

-- What is to be done with a file.
pub data Verdict : Type 0 where
  ignored unreadable malformed unrelated affected : Verdict

unfoldable pub judge : String → GenerationFile → Verdict
judge evaluator_id f =
    if not f.is_json then ignored else if not f.readable then unreadable else elim f.state [
      | none ↦ malformed
      | some s ↦ if contains s.evaluator_ids evaluator_id then affected else unrelated
    ]

pub data Warning : Type 0 where
  unreadable_file malformed_json : String → Warning

pub data GenerationError : Type 0 where
  open_failed : GenerationError
  remove_failed : String → GenerationError

-- The generation directory, as os.OpenRoot meets it.
pub data GenerationDir : Type 0 where
  missing unopenable : GenerationDir
  holding : List GenerationFile → GenerationDir

-- What the walk leaves: the files, the warnings, and the error that stopped it.
pub record Walk : Type 0 where
  pub files : List GenerationFile
  pub warnings : List Warning
  pub failed : Option GenerationError

unfoldable pub keep_file : GenerationFile → Walk → Walk
keep_file f w = record w { files = f ∷ w.files }

unfoldable pub warn_file : Warning → GenerationFile → Walk → Walk
warn_file warning f w = record w { files = f ∷ w.files; warnings = warning ∷ w.warnings }

unfoldable pub invalidate_files : String → List GenerationFile → Walk
unfolding keep_file warn_file
invalidate_files evaluator_id [] = record { files = []; warnings = []; failed = none }
invalidate_files evaluator_id (f ∷ fs) =
    let rest = invalidate_files evaluator_id fs in
    elim (judge evaluator_id f) [
      | ignored ↦ keep_file f rest
      | unreadable ↦ warn_file (unreadable_file f.path) f rest
      | malformed ↦ warn_file (malformed_json f.path) f rest
      | unrelated ↦ keep_file f rest
      | affected ↦
          if f.stuck
          then record { files = f ∷ fs; warnings = []; failed = some (remove_failed f.path) }
          else rest
    ]

-- InvalidateForEvaluator.
unfoldable pub invalidate_for_evaluator : String → GenerationDir → Walk
invalidate_for_evaluator evaluator_id missing = record { files = []; warnings = []; failed = none }
invalidate_for_evaluator evaluator_id unopenable = record {
  files = [];
  warnings = [];
  failed = some open_failed;
}
invalidate_for_evaluator evaluator_id (holding fs) = invalidate_files evaluator_id fs

-- ===== src/Policy/Generation/Invalidated.antt =====
-- Which generation states an invalidation removes.
use complytime.Base.{
  String, Bool, false, not, ◌&&◌, none, some, List, [], ◌∷◌, keep, contains, ◌≡◌, refl, arith,
}
use complytime.Policy.Generation.{
  holding, GenerationFile, judge, invalidate_files, invalidate_for_evaluator,
}

-- A JSON file that can be read and parsed and names the evaluator.
pub names_evaluator : String → GenerationFile → Bool
names_evaluator evaluator_id f =
    f.is_json
    && f.readable
    && elim f.state [ none ↦ false | some s ↦ contains s.evaluator_ids evaluator_id ]

module _ (evaluator_id : String) where
  -- An invalidation that meets no failed removal leaves exactly the files that do not name the
  -- evaluator, in their order.
  pub invalidate_for_evaluator-removes :
      (fs : List GenerationFile)
      → (invalidate_for_evaluator evaluator_id (holding fs)).failed ≡ none
      → (invalidate_for_evaluator evaluator_id (holding fs)).files
        ≡ keep (λ f. not (names_evaluator evaluator_id f)) fs
  unfolding invalidate_for_evaluator invalidate_files keep judge names_evaluator
  invalidate_for_evaluator-removes [] h = refl
  invalidate_for_evaluator-removes (f ∷ fs) h = ground (arith, invalidate_for_evaluator-removes fs)

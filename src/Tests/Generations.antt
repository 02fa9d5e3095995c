-- ===== src/Tests/Generations.antt =====
-- The invalidation of generation states: the theorem at concrete data.
use complytime.Base.{String, true, false, not, none, some, List, [], ◌∷◌, keep, ◌≡◌, refl}
use complytime.Policy.Generation.{GenerationFile, holding, invalidate_for_evaluator}
use complytime.Policy.Generation.Invalidated.{names_evaluator, invalidate_for_evaluator-removes}

abbrev generated : String → List String → GenerationFile
generated path evaluators = record {
  path = path;
  is_json = true;
  readable = true;
  state = some (record {
    policy_id = path;
    policy_digest = "sha256:a";
    complypack_digests = [];
    generated_at = "";
    evaluator_ids = evaluators;
  });
  stuck = false;
}

abbrev files : List GenerationFile
files =
    generated "nist.json" ("opa" ∷ [])
    ∷ generated "cis.json" ("ampel" ∷ [])
    ∷ record (generated "broken.json" []) { state = none }
    ∷ []

walked : (invalidate_for_evaluator "opa" (holding files)).failed ≡ none
unfolding invalidate_for_evaluator complytime.Policy.Generation.invalidate_files
    complytime.Policy.Generation.judge complytime.Base.contains
walked = refl

invalidate_for_evaluator-removes_example :
    (invalidate_for_evaluator "opa" (holding files)).files
    ≡ keep (λ f. not (names_evaluator "opa" f)) files
invalidate_for_evaluator-removes_example = invalidate_for_evaluator-removes "opa" files walked

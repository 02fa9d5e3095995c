-- ===== src/Cli/Scan/Requirements/Unnamed.antt =====
-- The requirements whose steps are written without a complypack.
use complytime.Cache.State.{PolicyState}
use complytime.Cli.Scan.Requirements.{
  write_all, match_ids, add_refs, add_groups, build_req_to_complypack_ref,
}
use complytime.Output.Evaluator.{default_map, Evaluator, new_evaluator, resolve_complypack_ref}
use complytime.Output.Gemara.{GemaraReference}
use complytime.Output.Serializable.{format_step_identity}
use complytime.Output.Serializable.Identities.{identities}
use complytime.Policy.Groups.{EvaluatorGroup}
use complytime.Provider.Messages.{AssessmentLog, Step}
use complytime.Base.{
  refl, none, [], some, inr, ◌∙◌, ◌==◌, inl, arith, if◌then◌else◌, Option-cases, ◌∷◌, false, map,
  ◌≡◌, Option, All, List, String, contains,
}
use complytime.Base.Table.{lookup-insert, insert, lookup, Table}
use complytime.Provider.Requests.{match_id, AssessmentConfiguration}

write_all_other :
    (keys : List String) (value : String) (m : Table String) (k : String)
    → contains keys k ≡ false
    → lookup k (write_all keys value m) ≡ lookup k m
unfolding write_all contains
write_all_other [] value m k h = refl
write_all_other (j ∷ keys) value m k h =
    write_all_other keys value (insert j value m) k (ground arith)
    ∙ rw (lookup-insert j k value m) (ground arith)

-- No configuration of the groups is matched under the id.
abbrev IsUnmatched : String → Table EvaluatorGroup → Type 0
IsUnmatched k = All (λ g. contains (match_ids g.1.configs) k ≡ false)

add_groups_other :
    (refs : Table String) (groups : Table EvaluatorGroup) (m : Table String) (k : String)
    → IsUnmatched k groups
    → lookup k (add_groups refs groups m) ≡ lookup k m
unfolding add_groups
add_groups_other refs [] m k h = refl
add_groups_other refs (g ∷ groups) m k h = elim (Option-cases (lookup g.0 refs)) [
  | inl missing ↦ rw (add_groups, missing) (add_groups_other refs groups m k h.1)
  | inr (ref, found) ↦
      rw (add_groups, found)
        (add_groups_other refs groups (write_all (match_ids g.1.configs) ref m) k h.1
          ∙ write_all_other (match_ids g.1.configs) ref m k h.0)
]

bare_names :
    (ref : String) (steps : List Step)
    → ref ≡ ""
    → map (λ (s : Step). format_step_identity ref s.name) steps ≡ map (λ (s : Step). s.name) steps
unfolding format_step_identity
bare_names ref [] h = refl
bare_names ref (s ∷ steps) h = rw (bare_names ref steps h, h) refl

bare_identities :
    (e : Evaluator) (a : AssessmentLog)
    → lookup a.requirement_id e.req_to_complypack_ref ≡ none
    → identities e a ≡ map (λ (s : Step). s.name) a.steps
unfolding identities resolve_complypack_ref
bare_identities e a h =
    bare_names (resolve_complypack_ref e a.requirement_id) a.steps
      (rw (resolve_complypack_ref, h) refl)

-- The steps of an assessment are written under their bare names, whichever complypacks the state
-- has, where no configuration of the groups is matched under the requirement's id; a configuration
-- that has a plan is matched under the plan's.
pub identities-unmatched :
    (packs : Option (Table PolicyState)) (groups : Table EvaluatorGroup) (policy target : String)
    (control plan : Option (Table String)) (references : List GemaraReference) (a : AssessmentLog)
    → All
        (λ g.
          contains
            (map
              (λ (c : AssessmentConfiguration).
                if c.plan_id == "" then c.requirement_id else c.plan_id)
              g.1.configs)
            a.requirement_id
          ≡ false)
        groups
    → identities
        (new_evaluator policy target control plan
          (some (build_req_to_complypack_ref packs groups))
          references)
        a
      ≡ map (λ (s : Step). s.name) a.steps
unfolding match_ids build_req_to_complypack_ref match_id new_evaluator default_map lookup
identities-unmatched none groups policy target control plan references a h =
    bare_identities
      (new_evaluator policy target control plan (some (build_req_to_complypack_ref none groups))
        references)
      a refl
identities-unmatched (some packs) groups policy target control plan references a h =
    bare_identities
      (new_evaluator policy target control plan
        (some (build_req_to_complypack_ref (some packs) groups)) references)
      a (add_groups_other (add_refs packs []) groups [] a.requirement_id h)

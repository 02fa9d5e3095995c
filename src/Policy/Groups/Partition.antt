-- ===== src/Policy/Groups/Partition.antt =====
-- The groups of a policy's assessments.
use complytime.Policy.Graph.{DependencyGraph}
use complytime.Policy.Groups.{EvaluatorGroup, add_config, add_configs, group_by_evaluator}
use complytime.Provider.Requests.{AssessmentConfiguration}
use complytime.Base.Table.{lookup-insert_own, lookup, Table}
use complytime.Base.{
  refl, ap, Bool, arith, inr, inl, none, ◌∙◌, Bool-cases, [], sym, ◌∷◌, some, ◌++◌, ◌==◌, ◌≡◌,
  if◌then◌else◌, List, keep, String,
}
use mathlib.Core.List.{append_assoc, append-nil}

unfoldable pub configs_of : Table EvaluatorGroup → String → List AssessmentConfiguration
configs_of groups k = elim (lookup k groups) [ some g ↦ g.configs | none ↦ [] ]

-- The evaluator to which an assessment is routed.
unfoldable pub routed : DependencyGraph → AssessmentConfiguration → String
routed graph cfg = if graph.evaluator_id == "" then cfg.evaluator_id else graph.evaluator_id

configs_of-add_config :
    (groups : Table EvaluatorGroup) (cfg : AssessmentConfiguration) (k : String)
    → configs_of (add_config groups cfg) k
      ≡ configs_of groups k
        ++ keep (λ (c : AssessmentConfiguration). c.evaluator_id == k) (cfg ∷ [])
unfolding configs_of add_config keep
configs_of-add_config groups cfg k =
    rw
      (
        configs_of,
        lookup-insert_own
            (λ e. record {
              evaluator_id = e;
              configs = (elim (lookup e groups) [ some g ↦ g.configs | none ↦ [] ]) ++ cfg ∷ [];
            })
            cfg.evaluator_id k groups,
      )
      (ground (arith, append-nil (configs_of groups k)))

keep_nil {ℓ} : {A : Type ℓ} (p : A → Bool) → keep p [] ≡ []
unfolding keep
keep_nil p = refl

keep_cons {ℓ} :
    {A : Type ℓ} (p : A → Bool) (x : A) (xs : List A)
    → keep p (x ∷ []) ++ keep p xs ≡ keep p (x ∷ xs)
unfolding keep
keep_cons p x xs = ground arith

configs_of-add_configs :
    (groups : Table EvaluatorGroup) (configs : List AssessmentConfiguration) (k : String)
    → configs_of (add_configs groups configs) k
      ≡ configs_of groups k ++ keep (λ (c : AssessmentConfiguration). c.evaluator_id == k) configs
unfolding add_configs
configs_of-add_configs groups [] k =
    rw (keep_nil (λ (c : AssessmentConfiguration). c.evaluator_id == k))
      (sym (append-nil (configs_of groups k)))
configs_of-add_configs groups (cfg ∷ configs) k =
    configs_of-add_configs (add_config groups cfg) configs k
    ∙ rw (configs_of-add_config groups cfg k) (
        append_assoc (configs_of groups k)
          (keep (λ (c : AssessmentConfiguration). c.evaluator_id == k) (cfg ∷ []))
          (keep (λ (c : AssessmentConfiguration). c.evaluator_id == k) configs)
        ∙ ap (λ cs. configs_of groups k ++ cs)
            (keep_cons (λ (c : AssessmentConfiguration). c.evaluator_id == k) cfg configs))

all_kept :
    (k : String) (configs : List AssessmentConfiguration) (eid : String)
    → keep (λ (c : AssessmentConfiguration). eid == k) configs ≡ (if eid == k then configs else [])
unfolding keep
all_kept k [] eid = ground arith
all_kept k (cfg ∷ configs) eid = ground (arith, all_kept k configs eid)

-- The group of an evaluator has exactly the configurations that are routed to it, in their order: to
-- the evaluator of the policy, if the policy has one, and else each to its own.
pub group_by_evaluator-configs :
    (configs : List AssessmentConfiguration) (graph : DependencyGraph) (k : String)
    → configs_of (group_by_evaluator configs graph) k ≡ keep (λ c. routed graph c == k) configs
unfolding group_by_evaluator routed keep configs_of lookup
group_by_evaluator-configs configs graph k = elim (Bool-cases (graph.evaluator_id == "")) [
  | inl own ↦ rw own (configs_of-add_configs [] configs k)
  | inr shared ↦ rw shared (ground (arith, all_kept k configs graph.evaluator_id))
]

-- ===== src/Cli/Scan/Selection.antt =====
-- cmd/complyctl/cli/scan.go: which policy is scanned, and on which targets.
use complytime.Base.Result.{Result, ok, err}
use complytime.Config.{TargetConfig}
use complytime.Base.{
  refl, sym, eq_iff, subst, inr, inl, Bool-cases, arith, ◌==◌, true, [], if◌then◌else◌, ◌≡◌,
  contains, ◌∷◌, some, none, keep, Option, List, String,
}

pub data SelectionError : Type 0 where
  unknown_target no_policies several_policies : String → SelectionError
  not_referenced : String → String → SelectionError
  nothing_specified : SelectionError

-- The first target with the id.
unfoldable pub find_target : List TargetConfig → String → Option TargetConfig
find_target [] target_id = none
find_target (t ∷ targets) target_id =
    let later = find_target targets target_id in if t.id == target_id then some t else later

unfoldable pub resolve_target : List TargetConfig → String → Result SelectionError TargetConfig
resolve_target targets target_id = elim (find_target targets target_id) [
  | some t ↦ ok t
  | none ↦ err (unknown_target target_id)
]

unfoldable pub infer_policy : String → List String → Result SelectionError String
infer_policy target [] = err (no_policies target)
infer_policy target (policy ∷ []) = ok policy
infer_policy target (policy ∷ other ∷ policies) = err (several_policies target)

unfoldable pub resolve_policy : Option TargetConfig → String → Result SelectionError String
resolve_policy (some target) policy_id =
    if policy_id == ""
    then infer_policy target.id target.policies
    else if contains target.policies policy_id
    then ok policy_id
    else err (not_referenced target.id policy_id)
resolve_policy none policy_id = if policy_id == "" then err nothing_specified else ok policy_id

unfoldable pub filter_targets_for_policy : List TargetConfig → String → List TargetConfig
filter_targets_for_policy targets policy_id =
    keep (λ (t : TargetConfig). contains t.policies policy_id) targets

unfoldable pub filter_target_by_id : List TargetConfig → String → List TargetConfig
filter_target_by_id targets target_id = elim (find_target targets target_id) [
  | some t ↦ t ∷ []
  | none ↦ targets
]

find_target-keep :
    (targets : List TargetConfig) (target_id policy : String) (t : TargetConfig)
    → find_target targets target_id ≡ some t
    → contains t.policies policy ≡ true
    → (found : TargetConfig) × (find_target (filter_targets_for_policy targets policy) target_id
        ≡ some found)
      × (found.id ≡ target_id)
      × (contains found.policies policy ≡ true)
unfolding find_target filter_targets_for_policy keep
find_target-keep [] target_id policy t h p = absurd (ground arith)
find_target-keep (x ∷ targets) target_id policy t h p = elim (Bool-cases (x.id == target_id)) [
  | inl same ↦
      let first : x ≡ t = ground arith in
      let has : contains x.policies policy ≡ true =
        subst (λ (y : TargetConfig). contains y.policies policy ≡ true) (sym first) p in
      (x, rw (has, find_target, same) refl, (eq_iff x.id target_id).0 same, has)
  | inr different ↦
      let (found, stands, named, has) =
        find_target-keep targets target_id policy t (ground arith) p in
      (found, ground (arith, stands), named, has)
]

infer_policy-member :
    (target : String) (policies : List String) (policy : String)
    → infer_policy target policies ≡ ok policy
    → contains policies policy ≡ true
unfolding infer_policy contains
infer_policy-member target [] policy h = absurd (ground arith)
infer_policy-member target (only ∷ []) policy h = ground (arith, eq_iff only policy)
infer_policy-member target (one ∷ other ∷ policies) policy h = absurd (ground arith)

resolve_policy-referenced :
    (t : TargetConfig) (policy_id policy : String)
    → resolve_policy (some t) policy_id ≡ ok policy
    → contains t.policies policy ≡ true
unfolding resolve_policy
resolve_policy-referenced t policy_id policy h = elim (Bool-cases (policy_id == "")) [
  | inl inferred ↦ infer_policy-member t.id t.policies policy (rw (resolve_policy, inferred) at h)
  | inr given ↦ ground arith
]

-- Where a target and, on its own or by its only entry, a policy are settled on, the targets of that
-- policy narrow to a single one, which has the target's id and refers to the policy.
filter_target_by_id-resolved :
    (targets : List TargetConfig) (target_id policy_id policy : String) (t : TargetConfig)
    → resolve_target targets target_id ≡ ok t
    → resolve_policy (some t) policy_id ≡ ok policy
    → (found : TargetConfig) × (filter_target_by_id
          (filter_targets_for_policy targets policy)
          target_id
        ≡ found ∷ [])
      × (found.id ≡ target_id)
      × (contains found.policies policy ≡ true)
unfolding resolve_target filter_target_by_id
filter_target_by_id-resolved targets target_id policy_id policy t h p =
    let (found, stands, named, has) =
      find_target-keep targets target_id policy t (ground arith)
        (resolve_policy-referenced t policy_id policy p) in
    (found, rw (filter_target_by_id, stands) refl, named, has)

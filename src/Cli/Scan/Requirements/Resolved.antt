-- ===== src/Cli/Scan/Requirements/Resolved.antt =====
-- The plans and the complypacks that the ids of assessments lead to.
use complytime.Cli.Scan.Requirements.{
  add_plans, extract_plan_to_req_map, add_reversed, reverse_map, resolve_assessment_id,
}
use complytime.Policy.Graph.{Assessment, DependencyGraph}
use complytime.Provider.Messages.{AssessmentLog}
use complytime.Base.Table.{lookup-insert, insert, lookup, Table}
use complytime.Base.{
  true, keep, not, ◌++◌, sym, subst, map-map, eq_iff, ◌≢◌, refl, [], eq_refl, inr, inl, ◌∙◌, arith,
  ◌==◌, some, Bool-cases, ◌∷◌, All, false, ◌≡◌, map, String, contains, List,
}
use complytime.Base.Members.{All-mono, Distinct}
use complytime.Base.Keys.{contains-keys, contains-keys-insert, keys}
use mathlib.Core.List.{append_assoc, append-nil}
use complytime.Base.Covers.{other_id}

unfoldable pub values : Table String → List String
values = map (λ (e : String × String). e.1)

-- The assessments of a policy that have a requirement, and their plans.
unfoldable pub planned : List Assessment → List Assessment
planned = keep (λ (a : Assessment). not (a.requirement_id == ""))

unfoldable pub plan_ids : List Assessment → List String
plan_ids = map (λ (a : Assessment). a.id)

unfoldable pub requirement_ids : List Assessment → List String
requirement_ids = map (λ (a : Assessment). a.requirement_id)

plan_entries : List Assessment → Table String
plan_entries = map (λ (a : Assessment). (a.id, a.requirement_id))

insert_new :
    (k v : String) (m : Table String)
    → contains (keys m) k ≡ false
    → insert k v m ≡ m ++ (k, v) ∷ []
unfolding insert contains
insert_new k v [] h = refl
insert_new k v (e ∷ m) h = ground (arith, insert_new k v m)

-- Where no two of them have the same plan, the map has an entry for each, in their order.
add_plans-planned :
    (assessments : List Assessment) (m : Table String)
    → Distinct (plan_ids (planned assessments))
    → ((k : String)
        → contains (plan_ids (planned assessments)) k ≡ true
        → contains (keys m) k ≡ false)
    → add_plans assessments m ≡ m ++ plan_entries (planned assessments)
unfolding add_plans planned plan_ids plan_entries keep contains
add_plans-planned [] m distinct absent = sym (append-nil m)
add_plans-planned (a ∷ assessments) m distinct absent = elim (Bool-cases (a.requirement_id == "")) [
  | inl skipped ↦
      rw (add_plans, skipped)
        (add_plans-planned assessments m (rw skipped at distinct) (rw skipped at absent))
  | inr added ↦
      let (own, others) = rw added at distinct in
      let free = rw added at absent in
      let new : contains (keys m) a.id ≡ false = free a.id (ground (arith, eq_refl a.id)) in
      rw (add_plans, added)
        (add_plans-planned assessments (insert a.id a.requirement_id m) others (λ k member.
            contains-keys-insert a.id a.requirement_id k m
            ∙ ground (arith, free k, own, eq_iff a.id k))
          ∙ rw (insert_new a.id a.requirement_id m new)
              (append_assoc m ((a.id, a.requirement_id) ∷ []) (plan_entries (planned assessments))))
]

-- In a reversal a key that stands in the table as a value once leads back.
add_reversed_other :
    (m r : Table String) (k : String)
    → contains (values m) k ≡ false
    → lookup k (add_reversed m r) ≡ lookup k r
unfolding add_reversed values contains
add_reversed_other [] r k h = refl
add_reversed_other ((j, v) ∷ m) r k h =
    add_reversed_other m (insert v j r) k (ground arith) ∙ rw (lookup-insert v k j r) (ground arith)

add_reversed_each :
    (m r : Table String)
    → Distinct (values m)
    → All (λ e. lookup e.1 (add_reversed m r) ≡ some e.0) m
unfolding add_reversed values
add_reversed_each [] r h = tt
add_reversed_each ((j, v) ∷ m) r h = (
  add_reversed_other m (insert v j r) v h.0 ∙ rw (lookup-insert v v j r, eq_refl v) refl,
  add_reversed_each m (insert v j r) h.1,
)

lookup_each : (m : Table String) → Distinct (keys m) → All (λ e. lookup e.0 m ≡ some e.1) m
unfolding lookup
lookup_each [] h = tt
lookup_each ((k, v) ∷ m) h = (
  ground (arith, eq_refl k),
  All-mono
      (λ e (ih : lookup e.0 m ≡ some e.1).
        ground (arith, ih, other_id (keys m) k e.0 h.0 (contains-keys m e.0 ∙ ground (arith, ih))))
      m (lookup_each m h.1),
)

All-both {ℓ κ μ} :
    {A : Type ℓ} (P : A → Type κ) (Q : A → Type μ) (xs : List A)
    → All P xs
    → All Q xs
    → All (λ x. P x × Q x) xs
All-both P Q [] h j = tt
All-both P Q (x ∷ xs) h j = ((h.0, j.0), All-both P Q xs h.1 j.1)

All-map {ℓ κ μ} :
    {A : Type ℓ} {B : Type κ} (P : B → Type μ) (f : A → B) (xs : List A)
    → All P (map f xs)
    → All (λ x. P (f x)) xs
All-map P f [] h = tt
All-map P f (x ∷ xs) h = (h.0, All-map P f xs h.1)

resolve_assessment_id-plan :
    (m : Table String) (a : AssessmentLog) (plan requirement : String)
    → lookup plan m ≡ some requirement
    → a.plan_id ≡ plan
    → plan ≢ ""
    → (resolve_assessment_id m a).requirement_id ≡ requirement
unfolding resolve_assessment_id
resolve_assessment_id-plan m a plan requirement found same named =
    let other : a.plan_id == "" ≡ false = ground (arith, same, named, eq_iff a.plan_id "") in
    rw (resolve_assessment_id, other, same, found) refl

-- An assessment that is returned under the plan gets its requirement.
abbrev IsResolved : Table String → Assessment → Type 0
IsResolved m plan =
    (a : AssessmentLog)
    → (resolve_assessment_id m (record a { plan_id = plan.id })).requirement_id
      ≡ plan.requirement_id

values-plan_entries :
    (plans : List Assessment) → values (plan_entries plans) ≡ requirement_ids plans
unfolding values plan_entries requirement_ids
values-plan_entries plans = map-map _ _ _ (λ a. refl) plans

keys-plan_entries : (plans : List Assessment) → keys (plan_entries plans) ≡ plan_ids plans
unfolding plan_entries plan_ids
keys-plan_entries plans = map-map _ _ _ (λ a. refl) plans

All-contains_not :
    (plans : List Assessment)
    → contains (plan_ids plans) "" ≡ false
    → All (λ (plan : Assessment). plan.id ≢ "") plans
unfolding plan_ids contains
All-contains_not [] h = tt
All-contains_not (plan ∷ plans) h =
    (ground (arith, h, eq_iff plan.id ""), All-contains_not plans (ground arith))

-- An assessment that a plugin returned under the plan of one of the graph's assessments gets that
-- one's requirement, and the requirement leads back to the plan in the map from which the log's plans
-- are taken; where, of the graph's assessments that have a requirement, all have a plan's id, and no
-- two have the same plan or the same requirement.
pub reverse_map-resolved :
    (graph : DependencyGraph)
    → Distinct (plan_ids (planned graph.assessments))
    → contains (plan_ids (planned graph.assessments)) "" ≡ false
    → Distinct (requirement_ids (planned graph.assessments))
    → let m = extract_plan_to_req_map (some graph) in
      All
        (λ (plan : Assessment).
          ((a : AssessmentLog)
            → (resolve_assessment_id m (record a { plan_id = plan.id })).requirement_id
              ≡ plan.requirement_id)
          × (lookup plan.requirement_id (reverse_map m) ≡ some plan.id))
        (planned graph.assessments)
unfolding extract_plan_to_req_map reverse_map contains plan_entries
reverse_map-resolved graph plans_distinct plans_named requirements_distinct =
    let plans = planned graph.assessments in
    let m = plan_entries plans in
    let same : add_plans graph.assessments [] ≡ m =
      add_plans-planned graph.assessments [] plans_distinct (λ k member. refl) in
    let known : Distinct (keys m) = subst Distinct (sym (keys-plan_entries plans)) plans_distinct in
    let needed : Distinct (values m) =
      subst Distinct (sym (values-plan_entries plans)) requirements_distinct in
    let found : All (λ plan. lookup plan.id m ≡ some plan.requirement_id) plans =
      All-map (λ e. lookup e.0 m ≡ some e.1) pair plans (lookup_each m known) in
    let back : All (λ plan. lookup plan.requirement_id (add_reversed m []) ≡ some plan.id) plans =
      All-map (λ e. lookup e.1 (add_reversed m []) ≡ some e.0) pair plans
        (add_reversed_each m [] needed) in
    let step : (plan : Assessment)
        → (lookup plan.id m ≡ some plan.requirement_id) × (plan.id ≢ "")
        → IsResolved m plan =
      λ plan h a.
        resolve_assessment_id-plan m (record a { plan_id = plan.id }) plan.id plan.requirement_id
          h.0 refl h.1 in
    rw same (
      All-both (IsResolved m) _ plans
        (All-mono step plans (All-both _ _ plans found (All-contains_not plans plans_named))) back)
  where
    pair : Assessment → String × String
    pair a = (a.id, a.requirement_id)

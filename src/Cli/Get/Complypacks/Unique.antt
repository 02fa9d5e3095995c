-- ===== src/Cli/Get/Complypacks/Unique.antt =====
-- That the check of evaluators accepts just the configurations without a shared one.
use complytime.Base.{
  String, Bool, true, false, ◌||◌, none, some, List, [], ◌∷◌, ◌++◌, ◌==◌, ◌≡◌, ◌↔◌, refl, ◌∙◌, inl,
  inr, arith, is_some, any, keep, contains, eq_iff, Bool-cases, Option-cases,
}
use complytime.Base.Table.{
  Table, lookup, insert, lookup-insert, AllValues, AllValues-insert, AllValues-lookup,
}
use complytime.Base.Members.{Distinct}
use complytime.Config.{PolicyEntry}
use complytime.Cache.State.{State}
use complytime.Cli.Get.Complypacks.{
  Session, resolved_entry, repos_at, add_repo, eval_to_repos, is_conflict,
  validate_unique_evaluator_ids,
}

abbrev Group : Type 0
Group = String × List String

shared : Table (List String) → Bool
shared = any (λ (e : Group). is_conflict e.1)

is_cons : List String → Bool
is_cons [] = false
is_cons (x ∷ xs) = true

keep-any : (p : Group → Bool) (xs : List Group) → (keep p xs ≡ []) ↔ (any p xs ≡ false)
unfolding keep any
keep-any p [] = ground arith
keep-any p (x ∷ xs) = ground (arith, keep-any p xs)

-- Some text stands in the list twice.
repeats : List String → Bool
repeats [] = false
repeats (x ∷ xs) = contains xs x || repeats xs

repeats-Distinct : (xs : List String) → (repeats xs ≡ false) ↔ Distinct xs
unfolding repeats
repeats-Distinct [] = ground arith
repeats-Distinct (x ∷ xs) = ground (arith, repeats-Distinct xs)

-- A group that replaces one without a conflict, or that has one itself.
shared-insert :
    (k : String) (v : List String) (m : Table (List String))
    → (is_conflict (repos_at k m) || is_conflict v) ≡ is_conflict v
    → shared (insert k v m) ≡ (is_conflict v || shared m)
unfolding shared insert any repos_at lookup is_conflict
shared-insert k v [] h = ground arith
shared-insert k v (e ∷ m) h = elim (Bool-cases (e.0 == k)) [
  | inl same ↦ ground arith
  | inr other ↦ ground (arith, shared-insert k v m (ground arith))
]

is_conflict-append : (xs : List String) (x : String) → is_conflict (xs ++ x ∷ []) ≡ is_cons xs
unfolding is_conflict is_cons
is_conflict-append [] x = refl
is_conflict-append (y ∷ []) x = refl
is_conflict-append (y ∷ z ∷ ys) x = refl

is_conflict-cons : (xs : List String) → (is_conflict xs || is_cons xs) ≡ is_cons xs
unfolding is_conflict is_cons
is_conflict-cons [] = refl
is_conflict-cons (y ∷ []) = refl
is_conflict-cons (y ∷ z ∷ ys) = refl

is_cons-append : (xs : List String) (x : String) → is_cons (xs ++ x ∷ []) ≡ true
unfolding is_cons
is_cons-append [] x = refl
is_cons-append (y ∷ ys) x = refl

-- Every group has a repository.
HasRepos : Table (List String) → Type 0
HasRepos = AllValues (λ repos. is_cons repos ≡ true)

is_cons-repos_at :
    (k : String) (m : Table (List String))
    → HasRepos m
    → is_cons (repos_at k m) ≡ is_some (lookup k m)
unfolding repos_at HasRepos is_cons
is_cons-repos_at k m h = elim (Option-cases (lookup k m)) [
  | inl absent ↦ rw (absent, repos_at) refl
  | inr (v, present) ↦
      rw (present, repos_at) (AllValues-lookup (λ repos. is_cons repos ≡ true) k m v h present)
]

shared-add_repo :
    (k r : String) (m : Table (List String))
    → HasRepos m
    → shared (add_repo (some (k, r)) m) ≡ (is_some (lookup k m) || shared m)
unfolding add_repo
shared-add_repo k r m h =
    shared-insert k (repos_at k m ++ r ∷ []) m
      (rw (is_conflict-append (repos_at k m) r) (is_conflict-cons (repos_at k m)))
    ∙ rw (is_conflict-append (repos_at k m) r, is_cons-repos_at k m h) refl

HasRepos-add_repo :
    (k r : String) (m : Table (List String)) → HasRepos m → HasRepos (add_repo (some (k, r)) m)
unfolding add_repo HasRepos
HasRepos-add_repo k r m h =
    AllValues-insert (λ repos. is_cons repos ≡ true) k (repos_at k m ++ r ∷ []) m
      (is_cons-append (repos_at k m) r) h

-- The evaluators of the entries that have one in the state, in the order of the entries.
unfoldable pub evaluators_of : Session → State → List PolicyEntry → List String
evaluators_of session state [] = []
evaluators_of session state (entry ∷ entries) = elim (resolved_entry session state entry) [
  | none ↦ evaluators_of session state entries
  | some (k, r) ↦ k ∷ evaluators_of session state entries
]

any-known_insert :
    (k r : String) (m : Table (List String)) (ks : List String)
    → any (λ j. is_some (lookup j (add_repo (some (k, r)) m))) ks
      ≡ (contains ks k || any (λ j. is_some (lookup j m)) ks)
unfolding any contains add_repo
any-known_insert k r m [] = refl
any-known_insert k r m (j ∷ ks) = ground (
  arith,
  any-known_insert k r m ks,
  lookup-insert k j (repos_at k m ++ r ∷ []) m,
  eq_iff k j,
  eq_iff j k,
)

shared-eval_to_repos :
    (session : Session) (state : State) (entries : List PolicyEntry) (m : Table (List String))
    → HasRepos m
    → shared (eval_to_repos session state entries m) ≡ (
        shared m
        || any (λ k. is_some (lookup k m)) (evaluators_of session state entries)
        || repeats (evaluators_of session state entries))
unfolding eval_to_repos evaluators_of repeats any add_repo
shared-eval_to_repos session state [] m h = ground arith
shared-eval_to_repos session state (entry ∷ entries) m h =
    elim (Option-cases (resolved_entry session state entry)) [
      | inl unresolved ↦
          rw (unresolved, evaluators_of, eval_to_repos)
            (shared-eval_to_repos session state entries m h)
      | inr ((k, r), resolved) ↦
          rw (resolved, evaluators_of, eval_to_repos)
            (ground (
              arith,
              shared-eval_to_repos session state entries (add_repo (some (k, r)) m)
                  (HasRepos-add_repo k r m h),
              shared-add_repo k r m h,
              any-known_insert k r m (evaluators_of session state entries),
            ))
    ]

any_unknown : (ks : List String) → any (λ k. is_some (lookup {V = List String} k [])) ks ≡ false
unfolding any lookup
any_unknown [] = refl
any_unknown (k ∷ ks) = any_unknown ks

validate_unique_evaluator_ids-keep :
    (session : Session) (state : State) (entries : List PolicyEntry)
    → (validate_unique_evaluator_ids session state entries ≡ [])
      ↔ (keep (λ (e : Group). is_conflict e.1) (eval_to_repos session state entries []) ≡ [])
unfolding validate_unique_evaluator_ids
validate_unique_evaluator_ids-keep session state entries = ground arith

-- The check after a sync finds no conflict exactly if the configured entries that the state has with
-- an evaluator have different evaluators.
pub validate_unique_evaluator_ids-Distinct :
    (session : Session) (state : State) (entries : List PolicyEntry)
    → (validate_unique_evaluator_ids session state entries ≡ [])
      ↔ Distinct (evaluators_of session state entries)
unfolding shared HasRepos any
validate_unique_evaluator_ids-Distinct session state entries = ground (
  arith,
  validate_unique_evaluator_ids-keep session state entries,
  keep-any (λ (e : Group). is_conflict e.1) (eval_to_repos session state entries []),
  shared-eval_to_repos session state entries [] tt,
  any_unknown (evaluators_of session state entries),
  repeats-Distinct (evaluators_of session state entries),
)

-- ===== src/Cache/Eviction/Victims.antt =====
-- Which directories an eviction removes, and which it leaves.
use complytime.Base.{
  ℕ, ◌-◌, String, Bool, true, false, not, ◌&&◌, none, some, List, [], ◌∷◌, ◌++◌, length, keep,
  contains, contains-append, leb, if◌then◌else◌, ◌≡◌, refl, ◌∙◌, sym, arith,
}
use complytime.Base.Table.{Table}
use complytime.Base.Members.{All-mono, keep-cong, keep-keep, contains-keep, contains-members}
use complytime.Cache.State.{State}
use complytime.Cache.Eviction.{
  Entry, Sorter, take, candidates, tracked, orphaned, build_tracked_version_set,
  sort_by_last_updated, victims, remove_all, evict_old_versions,
}

module _ (target : String) where
  -- The candidates that stay when some names are removed and no removal fails.
  pub candidates-remove_all :
      (names : List String) (dir : Table Entry)
      → candidates target (remove_all (λ v. none) names dir)
        ≡ keep (λ v. not (contains names v)) (candidates target dir)
  unfolding candidates remove_all keep contains
  candidates-remove_all names [] = refl
  candidates-remove_all names (e ∷ dir) = ground (arith, candidates-remove_all names dir)

-- The tracked directories that are removed for want of a slot.
unfoldable pub oldest : Sorter → String → ℕ → State → List String → List String
oldest sorter evaluator_id retention s old =
    let slots = retention - 1 in
    if leb (length old) slots
    then []
    else take (length old - slots) (sort_by_last_updated sorter old s evaluator_id)

module _ (sorter : Sorter) (evaluator_id target : String) (retention : ℕ) where
  -- Of the visible directories there remain the tracked ones that are not among the oldest.
  pub candidates-evict :
      (s : State) (dir : Table Entry)
      → candidates target
          (evict_old_versions sorter (λ v. none) false evaluator_id target retention (some s) dir)
        ≡ keep
            (λ v. not (
              contains
                (oldest sorter evaluator_id retention s
                  (tracked s evaluator_id (candidates target dir)))
                v))
            (tracked s evaluator_id (candidates target dir))
  unfolding evict_old_versions victims oldest tracked orphaned
  candidates-evict s dir =
      candidates-remove_all target (victims sorter evaluator_id target retention (some s) dir) dir
      ∙ keep-cong (λ v. not (contains (orphaned s evaluator_id names ++ removed) v))
          (λ v. in_state v && not (contains removed v)) names
          (All-mono step names (contains-members names))
      ∙ sym (keep-keep in_state (λ v. not (contains removed v)) names)
    where
      names : List String
      names = candidates target dir

      removed : List String
      removed = oldest sorter evaluator_id retention s (tracked s evaluator_id names)

      in_state : String → Bool
      in_state = contains (build_tracked_version_set s evaluator_id)

      step :
          (v : String)
          → contains names v ≡ true
          → not (contains (orphaned s evaluator_id names ++ removed) v)
            ≡ (in_state v && not (contains removed v))
      step v h = ground (
        arith,
        contains-append (orphaned s evaluator_id names) removed v,
        contains-keep (λ u. not (in_state u)) names v,
      )

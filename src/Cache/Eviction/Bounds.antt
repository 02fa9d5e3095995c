-- ===== src/Cache/Eviction/Bounds.antt =====
-- How many versions, and which, an eviction leaves.
use complytime.Base.{
  map, ℕ, zero, suc, ◌-◌, ◌≤◌, String, true, false, not, none, some, List, [], ◌∷◌, length, leb→le,
  length-keep, keep, All, contains, leb, ◌≡◌, refl, ap, arith, Bool-cases, inl, inr,
}
use complytime.Base.Table.{Table}
use complytime.Base.Members.{
  length-perm, length-keep-contains, Distinct, contains-members, length-keep-perm,
}
use complytime.Cache.State.{entries, State}
use complytime.Cache.Eviction.{
  recorded, build_tracked_version_set, Entry, Sorter, take, candidates, tracked,
  sort_by_last_updated, last_updated, evict_old_versions,
}
use complytime.Cache.Eviction.Victims.{oldest, candidates-evict}
use native.Mathlib.Nat.{le_of_eq, le_trans}

length-map : {A : Type 0} (f : A → String) (xs : List A) → length (map f xs) ≡ length xs
length-map f [] = refl
length-map f (x ∷ xs) = ap suc (length-map f xs)

-- Without the members of its first `n` elements a list is shorter by `n` at least.
length-keep-take :
    (gone : List String) (n : ℕ) (xs : List String)
    → All (λ v. contains gone v ≡ true) (take n xs)
    → length (keep (λ v. not (contains gone v)) xs) ≤ length xs - n
unfolding take keep
length-keep-take gone zero xs h = omega (arith, length-keep (λ v. not (contains gone v)) xs)
length-keep-take gone (suc n) [] h = omega arith
length-keep-take gone (suc n) (x ∷ xs) h = rw h.0 (omega (arith, length-keep-take gone n xs h.1))

module _ (sorter : Sorter) (evaluator_id : String) (retention : ℕ) (s : State) where
  -- No more tracked directories stay than there are slots.
  length-keep-oldest :
      (old : List String)
      → length (keep (λ v. not (contains (oldest sorter evaluator_id retention s old) v)) old)
        ≤ retention - 1
  unfolding oldest sort_by_last_updated
  length-keep-oldest old = elim (Bool-cases (leb (length old) (retention - 1))) [
    | inl fits ↦ rw fits (
        omega (
          arith,
          length-keep (λ v. not (contains [] v)) old,
          leb→le (length old) (retention - 1) fits,
        ))
    | inr over ↦
        let sorted = sorter.sort (last_updated s evaluator_id) old in
        let n = length old - (retention - 1) in
        let perm = sorter.permutes (last_updated s evaluator_id) old in
        rw (over, ← length-keep-perm (λ v. not (contains (take n sorted) v)) sorted old perm)
          (omega (
            arith,
            length-keep-take (take n sorted) n sorted (contains-members (take n sorted)),
            length-perm sorted old perm,
          ))
  ]

  module _ (target : String) (dir : Table Entry) where
    -- The visible version directories other than the target that remain, if no removal fails
    -- and the directory can be read.
    unfoldable pub remaining : List String
    remaining =
        candidates target
          (evict_old_versions sorter (λ v. none) false evaluator_id target retention (some s) dir)

    -- Beside the target no more visible version directories remain than the retention count allows,
    -- if no removal fails and the directory can be read.
    pub evict_old_versions-retention : length remaining ≤ retention - 1
    unfolding remaining
    evict_old_versions-retention =
        rw (candidates-evict sorter evaluator_id target retention s dir)
          (length-keep-oldest (tracked s evaluator_id (candidates target dir)))

    -- At most as many of them remain as the state has entries for the evaluator, whatever the
    -- retention count is, since a directory that no entry names is an orphan; if the directory
    -- can be read, has each of the names once, and no removal fails.
    pub evict_old_versions-recorded :
        Distinct (candidates target dir)
        → length remaining ≤ length (recorded evaluator_id (entries s.complypacks))
    unfolding remaining tracked build_tracked_version_set
    evict_old_versions-recorded distinct =
        rw (candidates-evict sorter evaluator_id target retention s dir) (
          le_trans
            (length-keep
              (λ v. not (
                contains
                  (oldest sorter evaluator_id retention s
                    (tracked s evaluator_id (candidates target dir)))
                  v))
              (tracked s evaluator_id (candidates target dir)))
            (le_trans
              (length-keep-contains (build_tracked_version_set s evaluator_id)
                (candidates target dir) distinct)
              (le_of_eq
                (length-map (λ e. e.1.version) (recorded evaluator_id (entries s.complypacks))))))

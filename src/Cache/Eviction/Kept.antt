-- ===== src/Cache/Eviction/Kept.antt =====
-- What no eviction removes, and in which order the others go.
use complytime.Base.{
  eq_refl, ap, refl, Option-cases, none, contains-append, ◌&&◌, some, not, Option, ℕ, zero, suc,
  ◌-◌, ◌≤◌, String, Bool, true, false, ◌||◌, List, [], ◌∷◌, ◌==◌, length, keep, contains, leb, ◌≡◌,
  ◌∙◌, subst, arith, Bool-cases, inl, inr, sym, eq_iff,
}
use complytime.Base.Text.{has_prefix}
use complytime.Base.Table.{lookup, Table}
use complytime.Base.Members.{contains-keep, contains-perm, All-contains}
use complytime.Cache.State.{State}
use complytime.Cache.Eviction.{
  Remains, build_tracked_version_set, remove_all, orphaned, tracked, evict_old_versions, victims,
  Entry, Sorter, take, IsAscending, is_candidate, candidates, sort_by_last_updated, last_updated,
}
use complytime.Cache.Eviction.Victims.{candidates-evict, oldest}
use complytime.Cache.Eviction.Bounds.{remaining}

-- The target, and names that begin with a dot.
unfoldable pub is_protected : String → String → Bool
is_protected target v = has_prefix v "." || v == target

pub is_protected_self : (target : String) → is_protected target target ≡ true
unfolding is_protected
is_protected_self target = rw (eq_refl target) (ground arith)

not_true : ¬ (false ≡ true)
not_true e = cc

contains-take :
    (v : String) (n : ℕ) (xs : List String) → contains (take n xs) v ≡ true → contains xs v ≡ true
unfolding take contains
contains-take v zero xs h = cc
contains-take v (suc n) [] h = cc
contains-take v (suc n) (x ∷ xs) h = ground (arith, contains-take v n xs)

is_candidate-is_protected :
    (target : String) (e : String × Entry)
    → is_candidate target e ≡ true
    → is_protected target e.0 ≡ false
unfolding is_candidate is_protected
is_candidate-is_protected target e h = ground arith

contains-candidates :
    (target v : String) (dir : Table Entry)
    → contains (candidates target dir) v ≡ true
    → is_protected target v ≡ false
unfolding candidates keep contains
contains-candidates target v [] h = absurd (not_true h)
contains-candidates target v (e ∷ dir) h = elim (Bool-cases (is_candidate target e)) [
  | inr other ↦ contains-candidates target v dir (rw (other, contains) at h)
  | inl visible ↦ elim (Bool-cases (e.0 == v)) [
    | inl same ↦
        subst (λ n. is_protected target n ≡ false) ((eq_iff e.0 v).0 same)
          (is_candidate-is_protected target e visible)
    | inr different ↦ contains-candidates target v dir (rw (visible, different) at h)
  ]
]

-- Before a take an ascending list has its least keys.
take_ascending :
    (key : String → ℕ) (u v : String) (n : ℕ) (xs : List String)
    → IsAscending key xs
    → contains (take n xs) u ≡ true
    → contains xs v ≡ true
    → contains (take n xs) v ≡ false
    → key u ≤ key v
unfolding take contains
take_ascending key u v zero xs h a b c = absurd (cc)
take_ascending key u v (suc n) [] h a b c = absurd (cc)
take_ascending key u v (suc n) (x ∷ xs) h a b c = elim (Bool-cases (x == v)) [
  | inl same ↦ absurd (ground arith)
  | inr different ↦ elim (Bool-cases (x == u)) [
    | inl here ↦
        subst (λ k. key k ≤ key v) ((eq_iff x u).0 here)
          (All-contains (λ y. key x ≤ key y) xs v h.0 (rw different at b))
    | inr later ↦
        take_ascending key u v n xs h.1 (rw later at a) (rw different at b) (rw different at c)
  ]
]

module _ (sorter : Sorter) (evaluator_id target : String) (retention : ℕ) where
  contains-oldest :
      (s : State) (old : List String) (v : String)
      → contains (oldest sorter evaluator_id retention s old) v ≡ true
      → contains old v ≡ true
  unfolding oldest sort_by_last_updated contains
  contains-oldest s old v h = elim (Bool-cases (leb (length old) (retention - 1))) [
    | inl fits ↦ absurd (not_true (rw (fits, oldest) at h))
    | inr over ↦
        sym (
          contains-perm v (sorter.sort (last_updated s evaluator_id) old) old
            (sorter.permutes (last_updated s evaluator_id) old))
        ∙ contains-take v (length old - (retention - 1))
            (sorter.sort (last_updated s evaluator_id) old) (rw (over, oldest) at h)
  ]

  oldest_ascending :
      (s : State) (old : List String) (u v : String)
      → contains (oldest sorter evaluator_id retention s old) u ≡ true
      → contains old v ≡ true
      → contains (oldest sorter evaluator_id retention s old) v ≡ false
      → last_updated s evaluator_id u ≤ last_updated s evaluator_id v
  unfolding oldest sort_by_last_updated contains
  oldest_ascending s old u v u_gone v_known v_stays =
      elim (Bool-cases (leb (length old) (retention - 1))) [
        | inl fits ↦ absurd (not_true (rw (fits, oldest) at u_gone))
        | inr over ↦
            take_ascending key u v (length old - (retention - 1)) (sorter.sort key old)
              (sorter.ascends key old) (rw (over, oldest) at u_gone)
              (contains-perm v (sorter.sort key old) old (sorter.permutes key old) ∙ v_known)
              (rw (over, oldest) at v_stays)
      ]
    where
      key : String → ℕ
      key = last_updated s evaluator_id

  none_gone :
      (s : State) (dir : Table Entry) (v : String)
      → contains (candidates target dir) v ≡ false
      → contains (victims sorter evaluator_id target retention (some s) dir) v ≡ false
  unfolding victims orphaned tracked oldest
  none_gone s dir v hidden =
      contains-append (orphaned s evaluator_id names) (oldest sorter evaluator_id retention s old) v
      ∙ ground (
        arith,
        contains-keep (λ u. not (contains (build_tracked_version_set s evaluator_id) u)) names v,
        contains-keep (contains (build_tracked_version_set s evaluator_id)) names v,
        contains-oldest s old v,
      )
    where
      names : List String
      names = candidates target dir

      old : List String
      old = tracked s evaluator_id names

  victims-is_protected :
      (s : Option State) (dir : Table Entry) (v : String)
      → contains (victims sorter evaluator_id target retention s dir) v ≡ true
      → is_protected target v ≡ false
  unfolding victims orphaned tracked
  victims-is_protected none dir v h = contains-candidates target v dir h
  victims-is_protected (some s) dir v h = elim (Bool-cases (contains (candidates target dir) v)) [
    | inl visible ↦ contains-candidates target v dir visible
    | inr hidden ↦ absurd (not_true (sym (none_gone s dir v hidden) ∙ h))
  ]

  keep-remove_all :
      (stuck : String → Option Remains) (gone : List String) (dir : Table Entry)
      → ((v : String) → contains gone v ≡ true → is_protected target v ≡ false)
      → keep (λ e. is_protected target e.0) (remove_all stuck gone dir)
        ≡ keep (λ e. is_protected target e.0) dir
  unfolding remove_all keep
  keep-remove_all stuck gone [] safe = refl
  keep-remove_all stuck gone (e ∷ dir) safe = elim (Option-cases (stuck e.0)) [
    | inl removed ↦ ground (arith, keep-remove_all stuck gone dir safe, safe e.0)
    | inr (r, left) ↦ ground (arith, keep-remove_all stuck gone dir safe, safe e.0)
  ]

  lookup-remove_all :
      (stuck : String → Option Remains) (gone : List String) (dir : Table Entry) (v : String)
      → contains gone v ≡ false
      → lookup v (remove_all stuck gone dir) ≡ lookup v dir
  unfolding remove_all lookup
  lookup-remove_all stuck gone [] v stays = refl
  lookup-remove_all stuck gone (e ∷ dir) v stays = elim (Bool-cases (e.0 == v)) [
    | inl same ↦
        let own : contains gone e.0 ≡ false =
          subst (λ n. contains gone n ≡ false) (sym ((eq_iff e.0 v).0 same)) stays in
        ground arith
    | inr other ↦ elim (Option-cases (stuck e.0)) [
      | inl removed ↦ ground (arith, lookup-remove_all stuck gone dir v stays)
      | inr (r, left) ↦ ground (arith, lookup-remove_all stuck gone dir v stays)
    ]
  ]

  -- An eviction removes neither the target nor an entry whose name begins with a dot, whatever the
  -- state and the retention count are and whichever removals fail.
  pub evict_old_versions-protected :
      (stuck : String → Option Remains) (unreadable : Bool) (s : Option State) (dir : Table Entry)
      → keep
          (λ e. is_protected target e.0)
          (evict_old_versions sorter stuck unreadable evaluator_id target retention s dir)
        ≡ keep (λ e. is_protected target e.0) dir
  unfolding evict_old_versions
  evict_old_versions-protected stuck true s dir = refl
  evict_old_versions-protected stuck false s dir =
      keep-remove_all stuck (victims sorter evaluator_id target retention s dir) dir
        (victims-is_protected s dir)

  -- In particular the target's own entry is found again.
  pub lookup-evict_old_versions :
      (stuck : String → Option Remains) (unreadable : Bool) (s : Option State) (dir : Table Entry)
      (v : String)
      → is_protected target v ≡ true
      → lookup v (evict_old_versions sorter stuck unreadable evaluator_id target retention s dir)
        ≡ lookup v dir
  unfolding evict_old_versions
  lookup-evict_old_versions stuck true s dir v safe = refl
  lookup-evict_old_versions stuck false s dir v safe =
      lookup-remove_all stuck (victims sorter evaluator_id target retention s dir) dir v
        (ground (arith, victims-is_protected s dir v))

  contains-remaining :
      (s : State) (dir : Table Entry) (v : String)
      → let old = tracked s evaluator_id (candidates target dir) in
        contains (remaining sorter evaluator_id retention s target dir) v
        ≡ (contains old v && not (contains (oldest sorter evaluator_id retention s old) v))
  unfolding remaining
  contains-remaining s dir v =
      ap (λ names. contains names v) (candidates-evict sorter evaluator_id target retention s dir)
      ∙ contains-keep
          (λ w. not (
            contains
              (oldest sorter evaluator_id retention s
                (tracked s evaluator_id (candidates target dir)))
              w))
          (tracked s evaluator_id (candidates target dir)) v

  -- If no removal fails and the directory can be read, a tracked version is removed only for a
  -- version that was updated no earlier: where of two tracked directories the first goes and the
  -- second stays, the first is not the younger.
  pub evict_old_versions-oldest :
      (s : State) (dir : Table Entry) (u v : String)
      → contains (tracked s evaluator_id (candidates target dir)) u ≡ true
      → contains (remaining sorter evaluator_id retention s target dir) u ≡ false
      → contains (remaining sorter evaluator_id retention s target dir) v ≡ true
      → last_updated s evaluator_id u ≤ last_updated s evaluator_id v
  evict_old_versions-oldest s dir u v known gone stays =
      let u_gone : contains (oldest sorter evaluator_id retention s old) u ≡ true =
        ground (arith, contains-remaining s dir u) in
      let v_known : contains old v ≡ true = ground (arith, contains-remaining s dir v) in
      let v_stays : contains (oldest sorter evaluator_id retention s old) v ≡ false =
        ground (arith, contains-remaining s dir v) in
      oldest_ascending s old u v u_gone v_known v_stays
    where
      old : List String
      old = tracked s evaluator_id (candidates target dir)

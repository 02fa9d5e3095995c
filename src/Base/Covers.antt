-- ===== src/Base/Covers.antt =====
-- Lists without duplicates that cover one another.
use mathlib.Core.Bool.{Bool, true, false, ◌&&◌}
use mathlib.Core.Logic.{inl, inr}
use mathlib.Core.Path.{sym, ◌≡◌, ap, subst}
use mathlib.Core.List.{List, [], ◌∷◌}
use Prim.Native.Nat.{◌≤◌}
use Prim.Native.String.{String}
use native.Mathlib.Omega.{arith}
use text.Mathlib.Text.{◌==◌}
use text.Mathlib.TextEquality.{eq_iff}
use text.Mathlib.TextPositions.{eq_refl}
use complytime.Base.Tests.{Bool-cases, nat_eq}
use complytime.Base.Lists.{length, keep, all, contains, All}
use complytime.Base.Members.{
  All-mono, All-contains, Distinct, contains-members, keep-cong, length-keep-contains,
  length-keep-true,
}

pub members_le :
    (xs ys : List String)
    → Distinct xs
    → ((k : String) → contains xs k ≡ true → contains ys k ≡ true)
    → length xs ≤ length ys
members_le xs ys distinct within =
    let kept : keep (contains ys) xs ≡ keep (λ _. true) xs =
      keep-cong (contains ys) (λ _. true) xs
        (All-mono (λ x (h : contains xs x ≡ true). within x h) xs (contains-members xs)) in
    omega (arith, length-keep-contains ys xs distinct, ap length kept, length-keep-true xs)

pub all-false :
    (p : String → Bool) (xs : List String)
    → all p xs ≡ false
    → (x : String) × (contains xs x ≡ true) × (p x ≡ false)
unfolding all contains
all-false p [] h = absurd (ground arith)
all-false p (x ∷ xs) h = elim (Bool-cases (p x)) [
  | inl passes ↦
      let (y, member, failing) = all-false p xs (ground (arith, passes)) in
      (y, ground (arith, member), failing)
  | inr failing ↦ (x, ground (arith, eq_refl x), failing)
]

pub all-All : (p : String → Bool) (xs : List String) → all p xs ≡ true → All (λ x. p x ≡ true) xs
unfolding all
all-All p [] h = tt
all-All p (x ∷ xs) h = (ground arith, all-All p xs (ground arith))

pub within-cons :
    (y : String) (xs ys : List String)
    → contains ys y ≡ true
    → ((k : String) → contains xs k ≡ true → contains ys k ≡ true)
    → (k : String) → contains (y ∷ xs) k ≡ true
    → contains ys k ≡ true
unfolding contains
within-cons y xs ys member within k h = elim (Bool-cases (y == k)) [
  | inl same ↦ subst (λ j. contains ys j ≡ true) ((eq_iff y k).0 same) member
  | inr other ↦ within k (ground (arith, other))
]

-- Two duplicate-free lists, one of which has the members of the other that pass a test, are equally
-- long exactly if all pass it.
pub length-covers :
    (p : String → Bool) (xs ys : List String)
    → Distinct xs
    → Distinct ys
    → ((k : String) → contains xs k ≡ (p k && contains ys k))
    → nat_eq (length xs) (length ys) ≡ all p ys
unfolding contains
length-covers p xs ys dx dy same = elim (Bool-cases (all p ys)) [
  | inl every ↦
      let le = members_le xs ys dx (λ k h. ground (arith, same k)) in
      let ge = members_le ys xs dy (λ k h.
        ground (arith, same k, All-contains (λ y. p y ≡ true) ys k (all-All p ys every) h)) in
      rw every (ground (arith, le, ge))
  | inr missing ↦
      let (y, member, failing) = all-false p ys missing in
      let lt =
        members_le (y ∷ xs) ys (ground (arith, same y), dx)
          (within-cons y xs ys member (λ k h. ground (arith, same k))) in
      rw missing (ground (arith, lt))
]

-- A member differs from what is absent.
pub other_id :
    (xs : List String) (k j : String)
    → contains xs k ≡ false
    → contains xs j ≡ true
    → k == j ≡ false
other_id xs k j absent member = elim (Bool-cases (k == j)) [
  | inl same ↦
      let here = subst (λ i. contains xs i ≡ true) (sym ((eq_iff k j).0 same)) member in
      absurd (ground (arith, here, absent))
  | inr other ↦ other
]

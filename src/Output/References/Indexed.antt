-- ===== src/Output/References/Indexed.antt =====
-- The map of a merge leads to the reference that has an id.

use complytime.Output.Gemara.{GemaraReference}
use complytime.Output.References.{at, change_at}
use complytime.Base.{
  length-map, ◌∙◌, contains-append, inr, inl, ◌==◌, Bool-cases, refl, none, ap, false, eq_iff, [],
  suc, Option, true, ◌∷◌, arith, ◌++◌, String, map, length, some, contains, ◌≡◌, List, ℕ,
}
use complytime.Base.Table.{lookup-insert, insert, lookup, Table}
use mathlib.Core.List.{map-append}

module _ {ℓ} {A : Type ℓ} where
  at-append : (i : ℕ) (xs ys : List A) (a : A) → at i xs ≡ some a → at i (xs ++ ys) ≡ some a
  unfolding at
  at-append i [] ys a h = absurd (ground arith)
  at-append ℕ.zero (x ∷ xs) ys a h = h
  at-append (suc i) (x ∷ xs) ys a h = at-append i xs ys a h

  at_last : (xs : List A) (a : A) → at (length xs) (xs ++ a ∷ []) ≡ some a
  unfolding at
  at_last [] a = refl
  at_last (x ∷ xs) a = at_last xs a

  pub at-map {κ} :
      {B : Type κ} (f : A → B) (i : ℕ) (xs : List A) (b : B)
      → at i (map f xs) ≡ some b
      → (a : A) × (at i xs ≡ some a)
  unfolding at
  at-map f i [] b h = absurd (ground arith)
  at-map f ℕ.zero (x ∷ xs) b h = (x, refl)
  at-map f (suc i) (x ∷ xs) b h = at-map f i xs b h

  pub map-change_at {κ} :
      {B : Type κ} (f : A → B) (g : A → A)
      → ((a : A) → f (g a) ≡ f a)
      → (i : ℕ) (xs : List A) → map f (change_at i g xs) ≡ map f xs
  unfolding change_at
  map-change_at f g same i [] = refl
  map-change_at f g same ℕ.zero (x ∷ xs) = rw (same x) refl
  map-change_at f g same (suc i) (x ∷ xs) = ap (λ ys. f x ∷ ys) (map-change_at f g same i xs)

pub contains-at : (i : ℕ) (xs : List String) (k : String) → at i xs ≡ some k → contains xs k ≡ true
unfolding at contains
contains-at i [] k h = absurd (ground arith)
contains-at ℕ.zero (x ∷ xs) k h = ground (arith, eq_iff x k)
contains-at (suc i) (x ∷ xs) k h = ground (arith, contains-at i xs k h)

-- The table has the index of an id exactly if the id was met.
unfoldable pub Indexes : List String → Option ℕ → String → Type 0
Indexes ids none k = contains ids k ≡ false
Indexes ids (some i) k = at i ids ≡ some k

unfoldable pub IsIndexed : List String → Table ℕ → Type 0
IsIndexed ids seen = (k : String) → Indexes ids (lookup k seen) k

Indexes-other :
    (ids : List String) (found : Option ℕ) (k j : String)
    → k == j ≡ false
    → Indexes ids found j
    → Indexes (ids ++ k ∷ []) found j
unfolding Indexes contains
Indexes-other ids none k j different h = ground (arith, contains-append ids (k ∷ []) j)
Indexes-other ids (some i) k j different h = at-append i ids (k ∷ []) j h

insert-IsIndexed :
    (ids : List String) (seen : Table ℕ) (k : String)
    → IsIndexed ids seen
    → IsIndexed (ids ++ k ∷ []) (insert k (length ids) seen)
unfolding IsIndexed Indexes
insert-IsIndexed ids seen k h j =
    rw (lookup-insert k j (length ids) seen) (elim (Bool-cases (k == j)) [
      | inl same ↦ rw same (at_last ids k ∙ ap some ((eq_iff k j).0 same))
      | inr different ↦ rw different (Indexes-other ids (lookup j seen) k j different (h j))
    ])

unfoldable pub ids : List GemaraReference → List String
ids = map (λ (r : GemaraReference). r.id)

pub append-IsIndexed :
    (rs : List GemaraReference) (r : GemaraReference) (seen : Table ℕ)
    → IsIndexed (ids rs) seen
    → IsIndexed (ids (rs ++ r ∷ [])) (insert r.id (length rs) seen)
unfolding ids
append-IsIndexed rs r seen h =
    rw
      (
        map-append (λ (x : GemaraReference). x.id) rs (r ∷ []),
        ← length-map (λ (x : GemaraReference). x.id) rs,
      )
      (insert-IsIndexed (ids rs) seen r.id h)

pub length-change_at {ℓ} :
    {A : Type ℓ} (i : ℕ) (f : A → A) (xs : List A) → length (change_at i f xs) ≡ length xs
unfolding change_at
length-change_at i f [] = refl
length-change_at ℕ.zero f (x ∷ xs) = refl
length-change_at (suc i) f (x ∷ xs) = ap suc (length-change_at i f xs)

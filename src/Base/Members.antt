-- ===== src/Base/Members.antt =====
-- Membership in filtered, permuted and duplicate-free lists of texts.
use mathlib.Core.Logic.{∥∥₁_elim, inl, inr}
use mathlib.Core.Path.{◌≡◌, refl, ◌∙◌, ap, subst, sym}
use mathlib.Core.Bool.{Bool, true, false, ◌&&◌}
use mathlib.Core.List.{List, [], ◌∷◌, Perm, Permᴰ}
use Prim.Native.Nat.{suc, ◌≤◌}
use Prim.Native.String.{String}
use native.Mathlib.Omega.{arith}
use native.Mathlib.Nat.{ℕ_set}
use text.Mathlib.Text.{◌==◌}
use text.Mathlib.TextEquality.{eq_iff}
use text.Mathlib.TextPositions.{eq_refl}
use complytime.Base.Tests.{Bool-cases}
use complytime.Base.Lists.{length, keep, All, contains}

not_true : ¬ (false ≡ true)
not_true e = cc

pub All-intro {ℓ κ} : {A : Type ℓ} {P : A → Type κ} → ((a : A) → P a) → (xs : List A) → All P xs
All-intro h [] = tt
All-intro h (x ∷ xs) = (h x, All-intro h xs)

module _ {ℓ κ μ} {A : Type ℓ} {P : A → Type κ} {Q : A → Type μ} (step : (a : A) → P a → Q a) where
  pub All-mono : (xs : List A) → All P xs → All Q xs
  All-mono [] h = tt
  All-mono (x ∷ xs) h = (step x h.0, All-mono xs h.1)

module _ {ℓ} {A : Type ℓ} where
  pub keep-cong : (p q : A → Bool) (xs : List A) → All (λ x. p x ≡ q x) xs → keep p xs ≡ keep q xs
  unfolding keep
  keep-cong p q [] h = refl
  keep-cong p q (x ∷ xs) h = rw (h.0, keep-cong p q xs h.1)

  pub keep-keep : (p q : A → Bool) (xs : List A) → keep q (keep p xs) ≡ keep (λ x. p x && q x) xs
  unfolding keep
  keep-keep p q [] = refl
  keep-keep p q (x ∷ xs) = ground (arith, keep-keep p q xs)

  length-keep-Permᴰ :
      (p : A → Bool) {xs ys : List A} → Permᴰ xs ys → length (keep p xs) ≡ length (keep p ys)
  unfolding keep
  length-keep-Permᴰ p Permᴰ.nil = refl
  length-keep-Permᴰ p (Permᴰ.cons {a = a} {b = b} e h) =
      rw e (ground (arith, length-keep-Permᴰ p h))
  length-keep-Permᴰ p (Permᴰ.swap {a = a} {b = b} e f) = rw (e, f) (ground arith)
  length-keep-Permᴰ p (Permᴰ.trans h k) = length-keep-Permᴰ p h ∙ length-keep-Permᴰ p k

  pub length-keep-perm :
      (p : A → Bool) (xs ys : List A) → Perm xs ys → length (keep p xs) ≡ length (keep p ys)
  length-keep-perm p xs ys h = ∥∥₁_elim h (ℕ_set _ _) (length-keep-Permᴰ p)

module _ {ℓ} {A : Type ℓ} where
  pub length-keep-true : (xs : List A) → length (keep (λ v. true) xs) ≡ length xs
  unfolding keep
  length-keep-true [] = refl
  length-keep-true (x ∷ xs) = ap suc (length-keep-true xs)

  pub length-perm : (xs ys : List A) → Perm xs ys → length xs ≡ length ys
  length-perm xs ys p =
      sym (length-keep-true xs) ∙ length-keep-perm (λ v. true) xs ys p ∙ length-keep-true ys

pub contains-keep :
    (p : String → Bool) (xs : List String) (k : String)
    → contains (keep p xs) k ≡ (contains xs k && p k)
unfolding contains keep
contains-keep p [] k = refl
contains-keep p (x ∷ xs) k = elim (Bool-cases (x == k)) [
  | inl same ↦ ground (arith, contains-keep p xs k, ap p ((eq_iff x k).0 same))
  | inr different ↦ ground (arith, contains-keep p xs k)
]

pub contains-members : (xs : List String) → All (λ x. contains xs x ≡ true) xs
unfolding contains
contains-members [] = tt
contains-members (x ∷ xs) = (
  rw (eq_refl x),
  All-mono (λ y (h : contains xs y ≡ true). ground arith) xs (contains-members xs),
)

contains-Permᴰ : (k : String) {xs ys : List String} → Permᴰ xs ys → contains xs k ≡ contains ys k
unfolding contains
contains-Permᴰ k Permᴰ.nil = refl
contains-Permᴰ k (Permᴰ.cons {a = a} {b = b} e h) = rw e (ground (arith, contains-Permᴰ k h))
contains-Permᴰ k (Permᴰ.swap {a = a} {b = b} e f) = rw (e, f) (ground arith)
contains-Permᴰ k (Permᴰ.trans h j) = contains-Permᴰ k h ∙ contains-Permᴰ k j

Bool-set : IsSet Bool
Bool-set = hlevel

pub contains-perm : (k : String) (xs ys : List String) → Perm xs ys → contains xs k ≡ contains ys k
contains-perm k xs ys h = ∥∥₁_elim h (Bool-set _ _) (contains-Permᴰ k)

-- A predicate of all members holds of a text that is one.
pub All-contains {κ} :
    (P : String → Type κ) (xs : List String) (k : String) → All P xs → contains xs k ≡ true → P k
unfolding contains
All-contains P [] k h m = absurd (not_true m)
All-contains P (x ∷ xs) k h m = elim (Bool-cases (x == k)) [
  | inl same ↦ subst P ((eq_iff x k).0 same) h.0
  | inr different ↦ All-contains P xs k h.1 (rw different at m)
]

-- No text stands in the list twice.
abbrev pub Distinct : List String → Type 0
Distinct [] = Unit
Distinct (x ∷ xs) = (contains xs x ≡ false) × Distinct xs

keep-contains_of_absent :
    (v : String) (vs xs : List String)
    → contains xs v ≡ false
    → keep (contains (v ∷ vs)) xs ≡ keep (contains vs) xs
unfolding contains keep
keep-contains_of_absent v vs [] h = refl
keep-contains_of_absent v vs (x ∷ xs) h =
    ground (arith, eq_iff v x, eq_iff x v, keep-contains_of_absent v vs xs)

length-keep-contains_cons :
    (v : String) (vs xs : List String)
    → Distinct xs
    → length (keep (contains (v ∷ vs)) xs) ≤ suc (length (keep (contains vs) xs))
unfolding contains keep
length-keep-contains_cons v vs [] h = omega arith
length-keep-contains_cons v vs (x ∷ xs) h =
    ground
      (arith, eq_iff v x, keep-contains_of_absent v vs xs, length-keep-contains_cons v vs xs h.1)

length-keep-none : (xs : List String) → length (keep (contains []) xs) ≡ 0
unfolding contains keep
length-keep-none [] = refl
length-keep-none (x ∷ xs) = length-keep-none xs

-- Of a list without duplicates at most as many members lie in a set as the set has.
pub length-keep-contains :
    (vs xs : List String) → Distinct xs → length (keep (contains vs) xs) ≤ length vs
length-keep-contains [] xs h = omega (arith, length-keep-none xs)
length-keep-contains (v ∷ vs) xs h =
    omega (arith, length-keep-contains_cons v vs xs h, length-keep-contains vs xs h)

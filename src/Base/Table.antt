-- ===== src/Base/Table.antt =====
-- Go's `map[string]V` that is not nil: its entries, in the order in which one iteration meets them.
use Prim.Native.String.{String}
use mathlib.Core.Path.{◌≡◌, refl, ap, ◌∙◌}
use mathlib.Core.Option.{Option, none, some}
use mathlib.Core.List.{List, [], ◌∷◌}
use native.Mathlib.Omega.{arith}
use text.Mathlib.Text.{◌==◌}
use text.Mathlib.TextEquality.{eq_iff}
use mathlib.Core.Bool.{Bool, true}
use mathlib.Core.Logic.{inl, inr}
use complytime.Base.Tests.{Bool-cases, if◌then◌else◌}
use complytime.Base.Lists.{keep, All}

abbrev pub Table {ℓ} : Type ℓ → Type ℓ
Table V = List (String × V)

-- Reading and writing one key. A write replaces the entry of its key in place.
unfoldable pub lookup {ℓ} : {V : Type ℓ} → String → Table V → Option V
lookup key [] = none
lookup key (first ∷ table) =
    let later = lookup key table in if first.0 == key then some first.1 else later

unfoldable pub insert {ℓ} : {V : Type ℓ} → String → V → Table V → Table V
insert key value [] = (key, value) ∷ []
insert key value (first ∷ table) =
    let later = insert key value table in
    if first.0 == key then (key, value) ∷ table else first ∷ later

-- What is found after a write.
pub lookup-insert {ℓ} :
    {V : Type ℓ} (key asked : String) (value : V) (table : Table V)
    → lookup asked (insert key value table)
      ≡ (if key == asked then some value else lookup asked table)
unfolding lookup insert
lookup-insert key asked value [] = refl
lookup-insert key asked value (first ∷ table) = ground (
  arith,
  lookup-insert key asked value table,
  eq_iff first.0 asked,
  eq_iff first.0 key,
  eq_iff key asked,
)

-- Each entry's value satisfies `P`.
abbrev pub AllValues {ℓ κ} : {V : Type ℓ} → (V → Type κ) → Table V → Type κ
AllValues P = All (λ e. P e.1)

module _ {ℓ κ} {V : Type ℓ} (P : V → Type κ) where
  pub AllValues-insert :
      (k : String) (v : V) (m : Table V) → P v → AllValues P m → AllValues P (insert k v m)
  unfolding insert
  AllValues-insert k v [] p h = (p, tt)
  AllValues-insert k v ((j, w) ∷ m) p h = ground (arith, AllValues-insert k v m p h.1)

  pub AllValues-lookup :
      (k : String) (m : Table V) (v : V) → AllValues P m → lookup k m ≡ some v → P v
  unfolding lookup
  AllValues-lookup k [] v h e = absurd (ground arith)
  AllValues-lookup k ((j, w) ∷ m) v h e = ground (arith, AllValues-lookup k m v h.1)

-- A filter by the key keeps what is found under a key that passes it.
pub lookup-keep {ℓ} :
    {V : Type ℓ} (k : String) (p : String → Bool)
    → p k ≡ true
    → (m : Table V) → lookup k (keep (λ e. p e.0) m) ≡ lookup k m
unfolding lookup keep
lookup-keep k p pass [] = refl
lookup-keep k p pass ((j, v) ∷ m) = elim (Bool-cases (j == k)) [
  | inl same ↦ rw (ap p ((eq_iff j k).0 same) ∙ pass) (ground (arith, lookup-keep k p pass m))
  | inr different ↦ ground (arith, lookup-keep k p pass m)
]

-- A write whose value depends on its key.
pub lookup-insert_own {ℓ} :
    {V : Type ℓ} (value : String → V) (key asked : String) (table : Table V)
    → lookup asked (insert key (value key) table)
      ≡ (if key == asked then some (value asked) else lookup asked table)
lookup-insert_own value key asked table = elim (Bool-cases (key == asked)) [
  | inl same ↦
      rw (lookup-insert key asked (value key) table, same)
        (ap (λ k. some (value k)) ((eq_iff key asked).0 same))
  | inr different ↦ rw (lookup-insert key asked (value key) table, different) refl
]

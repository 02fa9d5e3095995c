-- ===== src/Base/Keys.antt =====
-- The keys of a table, which stand in it once.
use mathlib.Core.Bool.{true, false, ◌||◌}
use mathlib.Core.Logic.{inl, inr}
use mathlib.Core.Path.{◌≡◌, refl, ◌∙◌, subst}
use mathlib.Core.List.{List, [], ◌∷◌, map}
use Prim.Native.String.{String}
use native.Mathlib.Omega.{arith}
use text.Mathlib.Text.{◌==◌}
use text.Mathlib.TextEquality.{eq_iff}
use complytime.Base.Tests.{Bool-cases, is_some}
use complytime.Base.Lists.{contains}
use complytime.Base.Table.{Table, lookup, insert, lookup-insert}
use complytime.Base.Members.{Distinct}

abbrev pub keys : Table String → List String
keys = map (λ (e : String × String). e.0)

pub contains-keys : (m : Table String) (k : String) → contains (keys m) k ≡ is_some (lookup k m)
unfolding contains lookup
contains-keys [] k = refl
contains-keys (e ∷ m) k = ground (arith, contains-keys m k)

pub contains-keys-insert :
    (k v j : String) (m : Table String)
    → contains (keys (insert k v m)) j ≡ (k == j || contains (keys m) j)
contains-keys-insert k v j m =
    contains-keys (insert k v m) j ∙ rw (lookup-insert k j v m) (ground (arith, contains-keys m j))

pub insert-Distinct :
    (k v : String) (m : Table String) → Distinct (keys m) → Distinct (keys (insert k v m))
unfolding insert contains
insert-Distinct k v [] h = (refl, tt)
insert-Distinct k v (e ∷ m) h = elim (Bool-cases (e.0 == k)) [
  | inl same ↦ rw same (subst (λ j. contains (keys m) j ≡ false) ((eq_iff e.0 k).0 same) h.0, h.1)
  | inr other ↦ rw other (
    contains-keys-insert k v e.0 m ∙ ground (arith, h.0, eq_iff k e.0, eq_iff e.0 k),
    insert-Distinct k v m h.1,
  )
]

pub contains-keys_at :
    (m : Table String) (k j : String) → k == j ≡ true → contains (keys m) j ≡ is_some (lookup k m)
contains-keys_at m k j same =
    subst (λ i. contains (keys m) i ≡ is_some (lookup k m)) ((eq_iff k j).0 same)
      (contains-keys m k)

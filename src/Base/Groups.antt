-- ===== src/Base/Groups.antt =====
-- The parts of a list by a key.
use mathlib.Core.Bool.{Bool, true, false, ◌&&◌, ◌||◌}
use mathlib.Core.Path.{◌≡◌, refl, ◌∙◌}
use mathlib.Core.List.{List, [], ◌∷◌, map}
use Prim.Native.String.{String}
use native.Mathlib.Omega.{arith}
use text.Mathlib.Text.{◌==◌}
use text.Mathlib.TextEquality.{eq_iff}
use text.Mathlib.TextPositions.{eq_refl}
use complytime.Base.Lists.{All, any, keep, contains}
use complytime.Base.Members.{All-mono}

pub contains-map :
    {A : Type 0} (key : A → String) (xs : List A)
    → All (λ x. contains (map key xs) (key x) ≡ true) xs
unfolding contains
contains-map key [] = tt
contains-map key (x ∷ xs) = (
  rw (eq_refl (key x)),
  All-mono (λ y (h : contains (map key xs) (key y) ≡ true). ground arith) xs (contains-map key xs),
)

any_none : {A : Type 0} (xs : List A) → any (λ _. false) xs ≡ false
unfolding any
any_none [] = refl
any_none (x ∷ xs) = any_none xs

-- Parts of a list by a key, over keys that cover it.
module _ {A : Type 0} (key : A → String) (p : A → Bool) where
  any-keep_cons :
      (cs : List String) (a : A) (xs : List A)
      → any (λ c. any p (keep (λ x. key x == c) (a ∷ xs))) cs
        ≡ (contains cs (key a) && p a || any (λ c. any p (keep (λ x. key x == c) xs)) cs)
  unfolding any keep contains
  any-keep_cons [] a xs = refl
  any-keep_cons (c ∷ cs) a xs =
      ground (arith, any-keep_cons cs a xs, eq_iff c (key a), eq_iff (key a) c)

  pub any-keep :
      (cs : List String) (xs : List A)
      → All (λ x. contains cs (key x) ≡ true) xs
      → any (λ c. any p (keep (λ x. key x == c) xs)) cs ≡ any p xs
  unfolding any keep
  any-keep cs [] h = any_none cs
  any-keep cs (a ∷ xs) h = any-keep_cons cs a xs ∙ ground (arith, h.0, any-keep cs xs h.1)

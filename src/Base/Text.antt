-- ===== src/Base/Text.antt =====
-- The operations of Go's `strings` package that the program calls, on texts as lists of characters.
use Prim.Native.Nat.{ℕ}
use Prim.Native.Char.{Char, code}
use Prim.Native.String.{String, ◌++◌}
use mathlib.Core.Path.{◌≡◌, refl, ap, sym, ◌∙◌}
use mathlib.Core.Logic.{inl, inr}
use text.Mathlib.TextLemmas.{nil-append, cons-append}
use native.Mathlib.Omega.{arith}
use mathlib.Core.Bool.{Bool, true, false, ◌&&◌, ◌||◌}
use mathlib.Core.Option.{Option, none, some}
use complytime.Base.Tests.{Bool-cases, nat_eq_iff, nat_eq, is_some, if◌then◌else◌}

-- What follows a prefix, if the text begins with it.
unfoldable pub strip_prefix : String → String → Option String
strip_prefix String.[] s = some s
strip_prefix (String.◌∷◌ c p) String.[] = none
strip_prefix (String.◌∷◌ c p) (String.◌∷◌ d s) =
    let rest = strip_prefix p s in if nat_eq (code c) (code d) then rest else none

-- `strings.HasPrefix(s, p)`.
unfoldable pub has_prefix : String → String → Bool
unfolding strip_prefix
has_prefix s p = is_some (strip_prefix p s)

-- `strings.TrimPrefix(s, p)`.
unfoldable pub trim_prefix : String → String → String
unfolding strip_prefix
trim_prefix s p = elim (strip_prefix p s) [ none ↦ s | some rest ↦ rest ]

-- `strings.Contains(s, p)` for a text that is not empty.
unfoldable pub contains_text : String → String → Bool
unfolding has_prefix
contains_text String.[] p = has_prefix String.[] p
contains_text (String.◌∷◌ c s) p = has_prefix (String.◌∷◌ c s) p || contains_text s p

-- `strings.ContainsRune(s, r)`, and its negation over a class of characters.
unfoldable pub contains_rune : String → ℕ → Bool
contains_rune String.[] r = false
contains_rune (String.◌∷◌ c s) r = nat_eq (code c) r || contains_rune s r

unfoldable pub all_runes : (ℕ → Bool) → String → Bool
all_runes p String.[] = true
all_runes p (String.◌∷◌ c s) = p (code c) && all_runes p s

-- `strings.TrimSuffix(s, r)` and `strings.TrimRight(s, r)` for a text of one character.
unfoldable pub trim_suffix_rune : ℕ → String → String
trim_suffix_rune r String.[] = String.[]
trim_suffix_rune r (String.◌∷◌ c String.[]) =
    if nat_eq (code c) r then String.[] else String.◌∷◌ c String.[]
trim_suffix_rune r (String.◌∷◌ c (String.◌∷◌ d s)) =
    String.◌∷◌ c (trim_suffix_rune r (String.◌∷◌ d s))

-- A character in front of what trimming has left.
abbrev cons_trimmed : ℕ → Char → String → String
cons_trimmed r c String.[] = if nat_eq (code c) r then String.[] else String.◌∷◌ c String.[]
cons_trimmed r c (String.◌∷◌ d t) = String.◌∷◌ c (String.◌∷◌ d t)

unfoldable pub trim_right_rune : ℕ → String → String
trim_right_rune r String.[] = String.[]
trim_right_rune r (String.◌∷◌ c s) = cons_trimmed r c (trim_right_rune r s)

nat_eq_refl : (n : ℕ) → nat_eq n n ≡ true
nat_eq_refl n = ground arith

pub strip_prefix-append : (p s : String) → strip_prefix p (p ++ s) ≡ some s
unfolding strip_prefix
strip_prefix-append String.[] s = rw nil-append
strip_prefix-append (String.◌∷◌ c p) s =
    rw (cons-append c p s, nat_eq_refl (code c)) (strip_prefix-append p s)

pub trim_prefix-append : (p s : String) → trim_prefix (p ++ s) p ≡ s
unfolding trim_prefix
trim_prefix-append p s = rw (strip_prefix-append p s, trim_prefix)

-- Trimming one slash undoes appending one.
pub trim_suffix_rune-append :
    (c : Char) (s : String) → trim_suffix_rune (code c) (s ++ String.◌∷◌ c String.[]) ≡ s
unfolding trim_suffix_rune
trim_suffix_rune-append c String.[] = rw (nil-append, nat_eq_refl (code c))
trim_suffix_rune-append c (String.◌∷◌ d String.[]) =
    rw (cons-append d String.[] (String.◌∷◌ c String.[]), nil-append, nat_eq_refl (code c))
trim_suffix_rune-append c (String.◌∷◌ d (String.◌∷◌ e s)) =
    rw (cons-append d (String.◌∷◌ e s) slash, cons-append e s slash)
      (ap (String.◌∷◌ d)
        (rw (cons-append e s slash) at (trim_suffix_rune-append c (String.◌∷◌ e s))))
  where
    slash : String
    slash = String.◌∷◌ c String.[]

pub has_prefix-append : (p s : String) → has_prefix (p ++ s) p ≡ true
unfolding has_prefix
has_prefix-append p s = rw (strip_prefix-append p s, has_prefix)

pub trim_prefix_of_not_prefix : (s p : String) → has_prefix s p ≡ false → trim_prefix s p ≡ s
unfolding has_prefix trim_prefix
trim_prefix_of_not_prefix s p h = ground arith

-- Two texts differ before either ends.
unfoldable pub differ : String → String → Bool
differ String.[] q = false
differ (String.◌∷◌ c p) String.[] = false
differ (String.◌∷◌ c p) (String.◌∷◌ d q) =
    let rest = differ p q in if nat_eq (code c) (code d) then rest else true

strip_prefix-append_of_differ :
    (p q s : String) → differ p q ≡ true → strip_prefix p (q ++ s) ≡ none
unfolding strip_prefix differ
strip_prefix-append_of_differ String.[] q s h = cc
strip_prefix-append_of_differ (String.◌∷◌ c p) String.[] s h = cc
strip_prefix-append_of_differ (String.◌∷◌ c p) (String.◌∷◌ d q) s h =
    rw (cons-append d q s) (ground (arith, strip_prefix-append_of_differ p q s))

-- A text that differs from the front of another is no prefix of what continues that one.
pub has_prefix-append_of_differ :
    (p q s : String) → differ p q ≡ true → has_prefix (q ++ s) p ≡ false
unfolding has_prefix
has_prefix-append_of_differ p q s h = rw (strip_prefix-append_of_differ p q s h, has_prefix)

not_both : ¬ (true ≡ false)
not_both e = cc

rune_outside : (p : ℕ → Bool) (r c : ℕ) → p r ≡ false → p c ≡ true → nat_eq c r ≡ false
rune_outside p r c outside inside = elim (Bool-cases (nat_eq c r)) [
  | inr different ↦ different
  | inl same ↦ absurd (not_both (sym inside ∙ ap p ((nat_eq_iff c r).0 same) ∙ outside))
]

-- A text made of runes of a class has none outside it.
pub all_runes-not_contains :
    (p : ℕ → Bool) (r : ℕ)
    → p r ≡ false
    → (s : String) → all_runes p s ≡ true
    → contains_rune s r ≡ false
unfolding all_runes contains_rune
all_runes-not_contains p r outside String.[] h = refl
all_runes-not_contains p r outside (String.◌∷◌ c s) h =
    ground (arith, all_runes-not_contains p r outside s, rune_outside p r (code c) outside)

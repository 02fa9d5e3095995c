-- ===== src/Base/Splits.antt =====
-- More of Go's `strings` package: trimming spaces, and the parts before and after a separator.
use Prim.Native.Nat.{ℕ}
use Prim.Native.Char.{Char, code}
use Prim.Native.String.{String, ◌++◌}
use mathlib.Core.Path.{◌≡◌, refl, ap}
use mathlib.Core.Bool.{Bool, true, false, not, ◌&&◌, ◌||◌}
use mathlib.Core.Option.{Option, none, some}
use native.Mathlib.Omega.{arith}
use text.Mathlib.TextLemmas.{nil-append, cons-append}
use complytime.Base.Tests.{nat_eq, leb, if◌then◌else◌}
use complytime.Base.Text.{contains_rune, all_runes, strip_prefix, has_prefix}

-- unicode.IsSpace.
unfoldable pub is_space : ℕ → Bool
is_space c =
    (leb 9 c && leb c 13)
    || nat_eq c 32
    || nat_eq c 0x85
    || nat_eq c 0xa0
    || nat_eq c 0x1680
    || (leb 0x2000 c && leb c 0x200a)
    || nat_eq c 0x2028
    || nat_eq c 0x2029
    || nat_eq c 0x202f
    || nat_eq c 0x205f
    || nat_eq c 0x3000

unfoldable pub trim_left : (ℕ → Bool) → String → String
trim_left p String.[] = String.[]
trim_left p (String.◌∷◌ c s) =
    let rest = trim_left p s in if p (code c) then rest else String.◌∷◌ c s

abbrev before_trimmed : (ℕ → Bool) → Char → String → String
before_trimmed p c String.[] = if p (code c) then String.[] else String.◌∷◌ c String.[]
before_trimmed p c (String.◌∷◌ d t) = String.◌∷◌ c (String.◌∷◌ d t)

unfoldable pub trim_right : (ℕ → Bool) → String → String
trim_right p String.[] = String.[]
trim_right p (String.◌∷◌ c s) = before_trimmed p c (trim_right p s)

-- `strings.TrimSpace(s)`.
unfoldable pub trim_space : String → String
trim_space s = trim_right is_space (trim_left is_space s)

-- What stands before and after the last occurrence of a character, by `strings.LastIndex`.
unfoldable pub split_last : ℕ → String → Option (String × String)
split_last r String.[] = none
split_last r (String.◌∷◌ c s) = elim (split_last r s) [
  | some (before, after) ↦ some (String.◌∷◌ c before, after)
  | none ↦ if nat_eq (code c) r then some (String.[], s) else none
]

-- What stands before and after the first occurrence.
unfoldable pub split_first : ℕ → String → Option (String × String)
split_first r String.[] = none
split_first r (String.◌∷◌ c s) =
    let rest = split_first r s in
    if nat_eq (code c) r
    then some (String.[], s)
    else elim rest [ some (before, after) ↦ some (String.◌∷◌ c before, after) | none ↦ none ]

-- The last of the segments into which `strings.Split` divides a text at a character.
unfoldable pub last_segment : ℕ → String → String
last_segment r s = elim (split_last r s) [ none ↦ s | some (before, after) ↦ after ]

pub split_last_of_not_contains :
    (r : ℕ) (s : String) → contains_rune s r ≡ false → split_last r s ≡ none
unfolding split_last contains_rune
split_last_of_not_contains r String.[] h = refl
split_last_of_not_contains r (String.◌∷◌ c s) h = ground (arith, split_last_of_not_contains r s)

nat_eq_self : (n : ℕ) → nat_eq n n ≡ true
nat_eq_self n = ground arith

-- A separator is found again behind which no other one stands.
pub split_last-append :
    (c : Char) (a b : String)
    → contains_rune b (code c) ≡ false
    → split_last (code c) (a ++ String.◌∷◌ c b) ≡ some (a, b)
unfolding split_last
split_last-append c String.[] b h =
    rw (nil-append, split_last_of_not_contains (code c) b h, split_last, nat_eq_self (code c)) refl
split_last-append c (String.◌∷◌ d a) b h =
    rw (cons-append d a (String.◌∷◌ c b), split_last, split_last-append c a b h) refl

pub contains_rune-append :
    (a b : String) (r : ℕ) → contains_rune (a ++ b) r ≡ (contains_rune a r || contains_rune b r)
unfolding contains_rune
contains_rune-append String.[] b r = rw nil-append
contains_rune-append (String.◌∷◌ c a) b r =
    rw (cons-append c a b) (ground (arith, contains_rune-append a b r))

pub all_runes-append :
    (p : ℕ → Bool) (a b : String) → all_runes p (a ++ b) ≡ (all_runes p a && all_runes p b)
unfolding all_runes
all_runes-append p String.[] b = rw nil-append
all_runes-append p (String.◌∷◌ c a) b =
    rw (cons-append c a b) (ground (arith, all_runes-append p a b))

trim_left_of_none :
    (s : String) → all_runes (λ c. not (is_space c)) s ≡ true → trim_left is_space s ≡ s
unfolding trim_left all_runes
trim_left_of_none String.[] h = refl
trim_left_of_none (String.◌∷◌ c s) h = ground arith

and_right : (a b : Bool) → (a && b) ≡ true → b ≡ true
and_right a b h = ground arith

trim_right_of_none :
    (s : String) → all_runes (λ c. not (is_space c)) s ≡ true → trim_right is_space s ≡ s
unfolding trim_right all_runes
trim_right_of_none String.[] h = refl
trim_right_of_none (String.◌∷◌ c String.[]) h = ground arith
trim_right_of_none (String.◌∷◌ c (String.◌∷◌ d s)) h = ap (before_trimmed is_space c) (
    trim_right_of_none (String.◌∷◌ d s)
      (and_right (not (is_space (code c))) (all_runes (λ c. not (is_space c)) (String.◌∷◌ d s)) h))

-- A text without spaces is left as it is.
pub trim_space_of_none :
    (s : String) → all_runes (λ c. not (is_space c)) s ≡ true → trim_space s ≡ s
unfolding trim_space
trim_space_of_none s h = rw (trim_left_of_none s h, trim_right_of_none s h) refl

-- A prefix's characters are characters of the text.
pub contains_rune_of_prefix :
    (r : ℕ) (p s : String)
    → contains_rune p r ≡ true
    → contains_rune s r ≡ false
    → has_prefix s p ≡ false
unfolding contains_rune has_prefix strip_prefix
contains_rune_of_prefix r String.[] s h k = cc
contains_rune_of_prefix r (String.◌∷◌ c p) String.[] h k = refl
contains_rune_of_prefix r (String.◌∷◌ c p) (String.◌∷◌ d s) h k =
    ground (arith, contains_rune_of_prefix r p s)

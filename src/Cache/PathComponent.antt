-- ===== src/Cache/PathComponent.antt =====
-- internal/cache/complypack.go: ValidatePathComponent, which guards the directory names made from
-- an evaluator-id or a version.
use complytime.Base.{
  ℕ, String, Bool, true, false, not, ◌&&◌, ◌||◌, ◌==◌, ◌≡◌, ◌≢◌, ◌↔◌, refl, arith, eq_iff, leb,
  nat_eq, if◌then◌else◌,
}
use complytime.Base.Result.{Check, ok, err, is_ok}
use complytime.Base.Text.{contains_rune, contains_text, all_runes, all_runes-not_contains}

pub data PathError : Type 0 where
  empty null_byte separator parent_reference invalid_characters : PathError

-- `[a-zA-Z0-9._-]`.
unfoldable pub is_path_rune : ℕ → Bool
is_path_rune c =
    (leb b'a' c && leb c b'z')
    || (leb b'A' c && leb c b'Z')
    || (leb b'0' c && leb c b'9')
    || nat_eq c b'.'
    || nat_eq c b'_'
    || nat_eq c b'-'

-- The expression `^[a-zA-Z0-9._-]+$`, at a text that is not empty.
unfoldable pub validate_path_component : String → Check PathError
validate_path_component value =
    if value == ""
    then err empty
    else if contains_rune value 0
    then err null_byte
    else if contains_rune value b'/' || contains_rune value 0x5c
    then err separator
    else if contains_text value ".."
    then err parent_reference
    else if not (all_runes is_path_rune value)
    then err invalid_characters
    else ok tt

-- An accepted value is exactly one that is not empty, has no `..` in it and consists of letters,
-- digits, dots, underscores and hyphens. The checks for null bytes and separators that stand
-- before the last test refuse nothing more.
pub validate_path_component-accepts :
    (value : String)
    → (is_ok (validate_path_component value) ≡ true)
      ↔ ((value ≢ "") × (contains_text value ".." ≡ false) × (all_runes is_path_rune value ≡ true))
unfolding validate_path_component
validate_path_component-accepts value = ground (
  arith,
  eq_iff value "",
  all_runes-not_contains is_path_rune 0 (unfold is_path_rune in refl) value,
  all_runes-not_contains is_path_rune b'/' (unfold is_path_rune in refl) value,
  all_runes-not_contains is_path_rune 0x5c (unfold is_path_rune in refl) value,
)

-- No accepted value has a separator in it, so joined to a directory it names one entry there.
pub validate_path_component-no_separator :
    (value : String)
    → validate_path_component value ≡ ok tt
    → (contains_rune value b'/' ≡ false) × (contains_rune value 0x5c ≡ false)
unfolding validate_path_component
validate_path_component-no_separator value h = ground arith

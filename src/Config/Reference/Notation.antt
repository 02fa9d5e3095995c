-- ===== src/Config/Reference/Notation.antt =====
-- The notations for a version that ParsePolicyRef accepts.
use Prim.Native.Char.{Char}
use text.Mathlib.TextLemmas.{nil-append, cons-append}
use complytime.Base.{
  inl, inr, Bool-cases, ℕ, String, ◌<>◌, Bool, true, false, not, ◌||◌, some, ◌==◌, ◌≡◌, ◌≢◌, refl,
  ◌∙◌, ap, sym, arith, eq_iff, if◌then◌else◌,
}
use complytime.Base.Result.{ok}
use complytime.Base.Text.{has_prefix, contains_rune, all_runes, differ, has_prefix-append_of_differ}
use complytime.Base.Splits.{
  is_space, split_last-append, split_last_of_not_contains, contains_rune-append, all_runes-append,
  trim_space, trim_space_of_none, contains_rune_of_prefix,
}
use complytime.Config.Reference.{
  Parsers, split_scheme, split_version, bare_ref, convert_version, qualified_ref, parse_policy_ref,
}

-- No character is a space, and none is an `@`.
pub record IsWord (s : String) : Type 0 where
  pub unspaced : all_runes (λ c. not (is_space c)) s ≡ true
  pub one_part : contains_rune s b'@' ≡ false

cons-literal : (c : Char) (s : String) → String.◌∷◌ c String.[] <> s ≡ String.◌∷◌ c s
cons-literal c s = cons-append c String.[] s ∙ ap (String.◌∷◌ c) (nil-append s)

split_version-at :
    (a b : String)
    → a ≢ ""
    → b ≢ ""
    → contains_rune b b'@' ≡ false
    → split_version (a <> ("@" <> b)) ≡ some (a, b)
unfolding split_version
split_version-at a b a_given b_given one =
    rw (cons-literal "@" b, split_version, split_last-append "@" a b one)
      (ground (arith, eq_iff a "", eq_iff b ""))

-- Two words around a separator.
abbrev around : Char → String → String → String
around separator a b = a <> (String.◌∷◌ separator String.[] <> b)

trim_space-around :
    (separator : Char) (a b : String)
    → IsWord a
    → IsWord b
    → all_runes (λ c. not (is_space c)) (String.◌∷◌ separator String.[]) ≡ true
    → trim_space (around separator a b) ≡ around separator a b
trim_space-around separator a b u v h = trim_space_of_none (around separator a b) (
    all_runes-append (λ c. not (is_space c)) a (String.◌∷◌ separator String.[] <> b)
    ∙ rw
        (u.unspaced, all_runes-append (λ c. not (is_space c)) (String.◌∷◌ separator String.[]) b, h)
        v.unspaced)

contains_rune-around :
    (separator : Char) (a b : String) (r : ℕ)
    → contains_rune (around separator a b) r ≡ (
        contains_rune a r
        || (contains_rune (String.◌∷◌ separator String.[]) r || contains_rune b r))
contains_rune-around separator a b r =
    contains_rune-append a (String.◌∷◌ separator String.[] <> b) r
    ∙ rw (contains_rune-append (String.◌∷◌ separator String.[]) b r) refl

is_given : String → Bool
is_given String.[] = false
is_given (String.◌∷◌ c s) = true

cons-not_empty : (c : Char) (s : String) → (String.◌∷◌ c s == "") ≡ false
unfolding is_given
cons-not_empty c s = elim (Bool-cases (String.◌∷◌ c s == "")) [
  | inr different ↦ different
  | inl same ↦ absurd (given_not_empty (ap is_given ((eq_iff (String.◌∷◌ c s) "").0 same)))
]
  where
    given_not_empty : ¬ (true ≡ false)
    given_not_empty e = cc

not_empty-append : (a b : String) → a ≢ "" → ((a <> b) == "") ≡ false
not_empty-append String.[] b h = absurd (h refl)
not_empty-append (String.◌∷◌ c a) b h = rw (cons-append c a b) (cons-not_empty c (a <> b))

false_not_true : ¬ (false ≡ true)
false_not_true e = cc

contains_rune-not_empty : (a : String) (r : ℕ) → contains_rune a r ≡ true → a ≢ ""
unfolding contains_rune
contains_rune-not_empty String.[] r h e = cc
contains_rune-not_empty (String.◌∷◌ c a) r h e =
    false_not_true (sym (cons-not_empty c a) ∙ (eq_iff (String.◌∷◌ c a) "").1 e)

at_unspaced : all_runes (λ c. not (is_space c)) "@" ≡ true
unfolding all_runes is_space
at_unspaced = refl

colon_unspaced : all_runes (λ c. not (is_space c)) ":" ≡ true
unfolding all_runes is_space
colon_unspaced = refl

-- A text without a slash has no scheme.
split_scheme-bare : (s : String) → contains_rune s b'/' ≡ false → split_scheme s ≡ ("", s)
unfolding split_scheme contains_rune
split_scheme-bare s bare =
    rw
      (
        contains_rune_of_prefix b'/' "http://" s refl bare,
        contains_rune_of_prefix b'/' "https://" s refl bare,
        split_scheme,
      )
      refl

split_scheme-differ :
    (a b : String)
    → differ "http://" a ≡ true
    → differ "https://" a ≡ true
    → split_scheme (a <> b) ≡ ("", a <> b)
unfolding split_scheme
split_scheme-differ a b http https =
    rw
      (
        has_prefix-append_of_differ "http://" a b http,
        has_prefix-append_of_differ "https://" a b https,
        split_scheme,
      )
      refl

module _ (parsers : Parsers) where
  -- A bare identifier with a version behind an `@` is a repository with a digest, if go-digest
  -- accepts the version, and with a tag otherwise.
  parse_policy_ref-pinned :
      (repository version : String)
      → IsWord repository
      → IsWord version
      → repository ≢ ""
      → version ≢ ""
      → contains_rune repository b'/' ≡ false
      → contains_rune version b'/' ≡ false
      → parse_policy_ref parsers (repository <> ("@" <> version))
        ≡ ok (record {
          raw = repository <> ("@" <> version);
          registry = "";
          repository = repository;
          tag = if parsers.digest_ok version then "" else version;
          digest = if parsers.digest_ok version then version else "";
        })
  unfolding parse_policy_ref bare_ref contains_rune
  parse_policy_ref-pinned repository version u v given pinned plain bare =
      let s = repository <> ("@" <> version) in
      let slashes : contains_rune s b'/' ≡ false =
        contains_rune-around "@" repository version b'/' ∙ rw (plain, bare, contains_rune) refl in
      rw
        (
          trim_space-around "@" repository version u v at_unspaced,
          parse_policy_ref,
          split_scheme-bare s slashes,
          not_empty-append repository ("@" <> version) given,
          slashes,
          bare_ref,
          split_version-at repository version given pinned v.one_part,
        )
        (ground arith)

  parse_policy_ref-around :
      (separator : Char) (a b : String)
      → IsWord a
      → IsWord b
      → all_runes (λ c. not (is_space c)) (String.◌∷◌ separator String.[]) ≡ true
      → contains_rune a b'/' ≡ true
      → differ "http://" a ≡ true
      → differ "https://" a ≡ true
      → parse_policy_ref parsers (around separator a b)
        ≡ qualified_ref parsers (around separator a b) "" (convert_version (around separator a b))
  unfolding parse_policy_ref
  parse_policy_ref-around separator a b u v h qualified http https =
      rw
        (
          trim_space-around separator a b u v h,
          parse_policy_ref,
          split_scheme-differ a (String.◌∷◌ separator String.[] <> b) http https,
          not_empty-append a (String.◌∷◌ separator String.[] <> b)
              (contains_rune-not_empty a b'/' qualified),
          contains_rune-around separator a b b'/',
          qualified,
        )
        refl

  convert_version-at :
      (a b : String)
      → a ≢ ""
      → b ≢ ""
      → contains_rune b b'@' ≡ false
      → has_prefix b "sha256:" ≡ false
      → has_prefix b "sha512:" ≡ false
      → convert_version (around "@" a b) ≡ around ":" a b
  unfolding convert_version
  convert_version-at a b a_given b_given one short long =
      rw (convert_version, split_version-at a b a_given b_given one, short, long) refl

  convert_version-colon :
      (a b : String) → IsWord a → IsWord b → convert_version (around ":" a b) ≡ around ":" a b
  unfolding convert_version split_version contains_rune
  convert_version-colon a b u v =
      rw
        (
          convert_version,
          split_version,
          split_last_of_not_contains b'@' (around ":" a b)
              (contains_rune-around ":" a b b'@' ∙ rw (u.one_part, v.one_part) refl),
        )
        refl

  -- Where a reference with a `/` in it has a version behind an `@` that begins with neither `sha256:`
  -- nor `sha512:`, it is read as one with a tag: both are what oras-go makes of `a:b`.
  pub parse_policy_ref-at_version :
      (a b : String)
      → IsWord a
      → IsWord b
      → b ≢ ""
      → contains_rune a b'/' ≡ true
      → differ "http://" a ≡ true
      → differ "https://" a ≡ true
      → has_prefix b "sha256:" ≡ false
      → has_prefix b "sha512:" ≡ false
      → (parse_policy_ref parsers (a <> ("@" <> b))
          ≡ qualified_ref parsers (a <> ("@" <> b)) "" (a <> (":" <> b)))
        × (parse_policy_ref parsers (a <> (":" <> b))
            ≡ qualified_ref parsers (a <> (":" <> b)) "" (a <> (":" <> b)))
  parse_policy_ref-at_version a b u v given qualified http https short long = (
    parse_policy_ref-around "@" a b u v at_unspaced qualified http https
        ∙ ap (qualified_ref parsers (around "@" a b) "") (
            convert_version-at a b (contains_rune-not_empty a b'/' qualified) given v.one_part short
              long),
    parse_policy_ref-around ":" a b u v colon_unspaced qualified http https
        ∙ ap (qualified_ref parsers (around ":" a b) "") (convert_version-colon a b u v),
  )

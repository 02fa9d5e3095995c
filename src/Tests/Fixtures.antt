-- ===== src/Tests/Fixtures.antt =====
-- Data that several tests share: a state, two codecs, an installed verifier.
use complytime.Base.{
  refl, ap, suc, not, eq_iff, nat_eq, arith, ◌&&◌, ◌≡◌, if◌then◌else◌, ◌==◌, ℕ, String, Bool, true,
  false, Option, none, some, [], ◌∷◌,
}
use complytime.Base.Text.{has_prefix}
use complytime.Cache.State.{PolicyState, State, StateMap, VerificationResult}
use complytime.Cache.StateFile.{Codec}
use complytime.Cache.StateFile.Atomic.{omit_empty}
use complytime.Cache.Complypack.{ConfigCodec, Config}

-- go-digest's Parse for the tests: a digest has an algorithm before a colon.
abbrev pub digest_ok : String → Bool
digest_ok s = has_prefix s "sha256:"

abbrev pub entry : String → String → String → ℕ → PolicyState
entry version digest evaluator_id now = record {
  version = version;
  digest = digest;
  evaluator_id = evaluator_id;
  last_updated = now;
  verified = false;
  signer_identity = "";
  issuer = "";
  verified_at = 0;
  policy_title = "";
  policy_evaluator = "";
  control_count = 0;
  assessment_count = 0;
}

abbrev pub vr : VerificationResult
vr = record {
  verified = true;
  signer_identity = "ci@example.org";
  issuer = "fulcio";
  verified_at = 7;
}

-- Two policies, one with a digest that does not parse, and three repositories with complypacks.
abbrev pub state : State
state = record {
  last_sync = 5;
  policies =
      some (("p/nist", entry "v1" "sha256:a" "" 3) ∷ ("p/bad", entry "v1" "broken" "" 4) ∷ []);
  complypacks = some (
      ("c/opa", entry "1.0" "sha256:b" "opa" 1)
      ∷ ("c/opa-next", entry "2.0" "sha256:c" "opa" 2)
      ∷ ("c/ampel", entry "0.9" "sha256:d" "ampel" 3)
      ∷ []);
}

-- A state with one policy and no complypacks, as the codec below writes it.
abbrev pub one_policy : String → State
one_policy digest = record {
  last_sync = 0;
  policies = some (("p/nist", entry "v1" digest "" 0) ∷ []);
  complypacks = none;
}

-- A codec for the states of one policy that differ in its digest only.
abbrev is_plain : PolicyState → Bool
is_plain ps =
    ps.version == "v1"
    && ps.evaluator_id == ""
    && nat_eq ps.last_updated 0
    && not ps.verified
    && ps.signer_identity == ""
    && ps.issuer == ""
    && nat_eq ps.verified_at 0
    && ps.policy_title == ""
    && ps.policy_evaluator == ""
    && nat_eq ps.control_count 0
    && nat_eq ps.assessment_count 0

abbrev plain_digest : String × PolicyState → Option String
plain_digest e = if e.0 == "p/nist" && is_plain e.1 then some e.1.digest else none

unfoldable pub encode : ℕ → StateMap → StateMap → Option String
encode (suc n) _ _ = none
encode ℕ.zero (some (e ∷ [])) none = plain_digest e
encode ℕ.zero (some (e ∷ [])) (some []) = plain_digest e
encode ℕ.zero _ _ = none

is_plain-entry : (ps : PolicyState) → is_plain ps ≡ true → ps ≡ entry "v1" ps.digest "" 0
is_plain-entry ps h = ground (
  arith,
  eq_iff ps.version "v1",
  eq_iff ps.evaluator_id "",
  eq_iff ps.signer_identity "",
  eq_iff ps.issuer "",
  eq_iff ps.policy_title "",
  eq_iff ps.policy_evaluator "",
)

abbrev pub codec : Codec
codec = record {
  encode = λ s. encode s.last_sync s.policies s.complypacks;
  decode = λ text. some (one_policy text);
}

plain_digest-some :
    (e : String × PolicyState) (text : String)
    → plain_digest e ≡ some text
    → e ≡ ("p/nist", entry "v1" text "" 0)
plain_digest-some e text h = ground (arith, eq_iff e.0 "p/nist", is_plain-entry e.1)

decoded :
    (n : ℕ) (p c : StateMap) (text : String)
    → encode n p c ≡ some text
    → one_policy text ≡ omit_empty (record { last_sync = n; policies = p; complypacks = c })
unfolding encode omit_empty
decoded (suc n) p c text h = absurd (cc)
decoded ℕ.zero (some (e ∷ [])) none text h = rw (plain_digest-some e text h) refl
decoded ℕ.zero (some (e ∷ [])) (some []) text h = rw (plain_digest-some e text h) refl
decoded ℕ.zero none c text h = absurd (cc)
decoded ℕ.zero (some []) c text h = absurd (cc)
decoded ℕ.zero (some (e ∷ f ∷ m)) c text h = absurd (cc)
decoded ℕ.zero (some (e ∷ [])) (some (f ∷ m)) text h = absurd (cc)

pub codec_round_trip :
    (s : State) (text : String)
    → codec.encode s ≡ some text
    → codec.decode text ≡ some (omit_empty s)
codec_round_trip s text e = ap some (decoded s.last_sync s.policies s.complypacks text e)

-- A codec for the configurations of one evaluator that differ in their version only.
abbrev pub config : String → Config
config version = record { evaluator_id = "opa"; version = version; rest = "" }

abbrev pub config_codec : ConfigCodec
config_codec = record {
  encode = λ c. if c.evaluator_id == "opa" && c.rest == "" then some c.version else none;
  decode = λ text. some (config text);
}

pub config_codec_round_trip :
    (c : Config) (text : String)
    → config_codec.encode c ≡ some text
    → config_codec.decode text ≡ some c
config_codec_round_trip c text e = ground (arith, eq_iff c.evaluator_id "opa", eq_iff c.rest "")

-- ===== src/Cache/State.antt =====
-- internal/cache/state.go: the metadata of all cached policies and complypacks, and its operations.
-- A `time.Time` is a number (0 is the zero time), and what `time.Now` answers is an argument.
-- `digest_ok` stands for `digest.Parse` of go-digest: whether it accepts the text.
pub mod Invariant
pub mod Evaluators
use complytime.Base.{
  ℕ, String, Bool, false, true, Option, none, some, List, [], ◌∷◌, ◌&&◌, ◌||◌, ◌==◌, keep,
  if◌then◌else◌,
}
use complytime.Base.Result.{Result, Check, ok, err, ◌>>◌, map_err, is_ok}
use mathlib.Core.Option
use complytime.Base.Table.{Table, lookup, insert}

pub record VerificationResult : Type 0 where
  pub verified : Bool
  pub signer_identity : String
  pub issuer : String
  pub verified_at : ℕ

pub record PolicyState : Type 0 where
  pub version : String
  pub digest : String
  pub evaluator_id : String
  pub last_updated : ℕ
  pub verified : Bool
  pub signer_identity : String
  pub issuer : String
  pub verified_at : ℕ
  pub policy_title : String
  pub policy_evaluator : String
  pub control_count : ℕ
  pub assessment_count : ℕ

-- A map field of the state, which is nil until it is made.
abbrev pub StateMap : Type 0
StateMap = Option (Table PolicyState)

pub record State : Type 0 where
  pub last_sync : ℕ
  pub policies : StateMap
  pub complypacks : StateMap

-- Reading and writing a map that may be nil: a write is made after `if m == nil { m = make(...) }`.
abbrev pub entries : StateMap → Table PolicyState
entries none = []
entries (some m) = m

unfoldable pub get : StateMap → String → Option PolicyState
get m k = lookup k (entries m)

unfoldable pub put : String → PolicyState → StateMap → StateMap
put k ps m = some (insert k ps (entries m))

pub data StateError : Type 0 where
  invalid_digest : String → StateError
  at_key : String → StateError → StateError
  duplicate_evaluator : String → StateError

unfoldable pub init_state_maps : State → State
init_state_maps s = record s {
  policies = some (entries s.policies);
  complypacks = some (entries s.complypacks);
}

-- The entry that an update writes: the metadata fields start at their zero values, and with no
-- verification result so do the fields of the verification.
unfoldable pub new_entry : String → String → String → ℕ → Option VerificationResult → PolicyState
new_entry version digest evaluator_id now none = record {
  version = version;
  digest = digest;
  evaluator_id = evaluator_id;
  last_updated = now;
  verified = false;
  signer_identity = "";
  issuer = "";
  verified_at = 0;
  policy_title = "";
  policy_evaluator = "";
  control_count = 0;
  assessment_count = 0;
}
new_entry version digest evaluator_id now (some vr) = record {
  version = version;
  digest = digest;
  evaluator_id = evaluator_id;
  last_updated = now;
  verified = vr.verified;
  signer_identity = vr.signer_identity;
  issuer = vr.issuer;
  verified_at = vr.verified_at;
  policy_title = "";
  policy_evaluator = "";
  control_count = 0;
  assessment_count = 0;
}

-- The rest of the operations that need no digest check.
unfoldable pub get_policy_state : State → String → Option PolicyState
unfolding get
get_policy_state s policy_id = get s.policies policy_id

unfoldable pub get_complypack_state : State → String → Option PolicyState
unfolding get
get_complypack_state s repository = get s.complypacks repository

unfoldable pub set_policy_metadata : String → String → String → ℕ → ℕ → State → State
set_policy_metadata repository title evaluator controls assessments s =
    elim (get s.policies repository) [
      | none ↦ s
      | some ps ↦ record s {
        policies =
            put repository
              (record ps {
                policy_title = title;
                policy_evaluator = evaluator;
                control_count = controls;
                assessment_count = assessments;
              })
              s.policies;
      }
    ]

module _ (digest_ok : String → Bool) where
  unfoldable pub validate_digest : String → Check StateError
  validate_digest s =
      if s == "" then ok tt else if digest_ok s then ok tt else err (invalid_digest s)

  -- The loop that deletes the entries whose digest does not validate, over one map.
  unfoldable pub exclude_malformed : Table PolicyState → Table PolicyState
  unfolding validate_digest
  exclude_malformed = keep (λ e. is_ok (validate_digest e.1.digest))

  unfoldable pub exclude_malformed_digests : State → State
  unfolding exclude_malformed
  exclude_malformed_digests s = record s {
    policies = Option.map exclude_malformed s.policies;
    complypacks = Option.map exclude_malformed s.complypacks;
  }

  -- UpdatePolicyStateWithVerification. On an error the state is left as it is.
  unfoldable pub update_policy_state :
      String → String → String → Option VerificationResult → ℕ → State → Result StateError State
  update_policy_state policy_id version digest vr now s = do
    map_err (at_key policy_id) (validate_digest digest)
    ok (record s {
      policies = put policy_id (new_entry version digest "" now vr) s.policies;
      last_sync = now;
    })

  -- UpdateComplypackStateWithVerification.
  unfoldable pub update_complypack_state :
      String
      → String
      → String
      → String
      → Option VerificationResult
      → ℕ
      → State
      → Result StateError State
  update_complypack_state repository version digest evaluator_id vr now s = do
    map_err (at_key repository) (validate_digest digest)
    ok (record s {
      complypacks = put repository (new_entry version digest evaluator_id now vr) s.complypacks;
      last_sync = now;
    })

-- The loop of EvaluatorIDToVersion, with what it has found so far.
unfoldable pub find_evaluator :
    String → Bool → String → Table PolicyState → Result StateError (String × Bool)
find_evaluator id found version [] = ok (version, found)
find_evaluator id found version ((k, ps) ∷ m) =
    let matches = ps.evaluator_id == id in
    let rest = find_evaluator id (found || matches) (if matches then ps.version else version) m in
    if matches && found then err (duplicate_evaluator id) else rest

unfoldable pub evaluator_id_to_version : String → Option State → Result StateError (String × Bool)
unfolding find_evaluator
evaluator_id_to_version id none = ok ("", false)
evaluator_id_to_version id (some s) = find_evaluator id false "" (entries s.complypacks)

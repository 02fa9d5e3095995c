-- ===== src/Cache/State/Evaluators.antt =====
-- EvaluatorIDToVersion: what the loop over the map computes, in whatever order it meets the entries.
use mathlib.Core.Path.{ap₂}
use mathlib.Core.Logic.{∥∥₁_elim}
use mathlib.Core.List.{Perm, Permᴰ}
use text.Mathlib.TextEquality.{IsScalar-prop}
use complytime.Base.{
  String, Bool, true, false, some, List, [], ◌∷◌, ◌≡◌, refl, ap, ◌∙◌, arith, ◌==◌, if◌then◌else◌,
}
use complytime.Base.Result.{Result, ok, err}
use complytime.Base.Table.{Table}
use complytime.Cache.State.{
  PolicyState, State, entries, StateError, duplicate_evaluator, find_evaluator,
  evaluator_id_to_version,
}

data Tally : Type 0 where
  absent several : Tally
  unique : String → Tally

Answer-set : IsSet (Result StateError (String × Bool))
Answer-set = hlevel IsScalar-prop

module _ (id : String) where
  -- The versions recorded for the evaluator, one for each repository that names it.
  pub versions_of : Table PolicyState → List String
  versions_of [] = []
  versions_of ((k, ps) ∷ m) =
      let rest = versions_of m in if ps.evaluator_id == id then ps.version ∷ rest else rest

  -- None, the only one, or an error where there are several.
  pub the_only : List String → Result StateError (String × Bool)
  the_only [] = ok ("", false)
  the_only (v ∷ []) = ok (v, true)
  the_only (v ∷ w ∷ vs) = err (duplicate_evaluator id)

  after_one : String → List String → Result StateError (String × Bool)
  after_one v [] = ok (v, true)
  after_one v (w ∷ ws) = err (duplicate_evaluator id)

  find_evaluator_found :
      (v : String) (m : Table PolicyState)
      → find_evaluator id true v m ≡ after_one v (versions_of m)
  unfolding find_evaluator versions_of after_one
  find_evaluator_found v [] = refl
  find_evaluator_found v ((k, ps) ∷ m) = ground (arith, find_evaluator_found v m)

  find_evaluator_lem :
      (m : Table PolicyState) → find_evaluator id false "" m ≡ the_only (versions_of m)
  unfolding find_evaluator versions_of the_only after_one
  find_evaluator_lem [] = refl
  find_evaluator_lem ((k, ps) ∷ m) =
      ground (arith, find_evaluator_lem m, find_evaluator_found ps.version m)

  -- The lookup answers the version of the only repository that names the evaluator, nothing if none
  -- does, and an error if several do.
  pub evaluator_id_to_version_lem :
      (s : State)
      → evaluator_id_to_version id (some s) ≡ the_only (versions_of (entries s.complypacks))
  unfolding evaluator_id_to_version
  evaluator_id_to_version_lem s = find_evaluator_lem (entries s.complypacks)

  -- The same answer as a fold whose steps commute.
  join : PolicyState → Tally → Tally
  join ps t =
      if ps.evaluator_id == id
      then elim t [ absent ↦ unique ps.version | unique v ↦ several | several ↦ several ]
      else t

  tally : Table PolicyState → Tally
  tally [] = absent
  tally ((k, ps) ∷ m) = join ps (tally m)

  answer : Tally → Result StateError (String × Bool)
  answer absent = ok ("", false)
  answer (unique v) = ok (v, true)
  answer several = err (duplicate_evaluator id)

  shape : List String → Tally
  shape [] = absent
  shape (v ∷ []) = unique v
  shape (v ∷ w ∷ vs) = several

  join-shape :
      (ps : PolicyState) (vs : List String)
      → join ps (shape vs) ≡ shape (if ps.evaluator_id == id then ps.version ∷ vs else vs)
  unfolding join shape
  join-shape ps [] = ground arith
  join-shape ps (v ∷ []) = ground arith
  join-shape ps (v ∷ w ∷ vs) = ground arith

  tally-shape : (m : Table PolicyState) → tally m ≡ shape (versions_of m)
  unfolding tally shape versions_of
  tally-shape [] = refl
  tally-shape ((k, ps) ∷ m) = rw (tally-shape m) (join-shape ps (versions_of m))

  answer-shape : (vs : List String) → answer (shape vs) ≡ the_only vs
  unfolding answer shape the_only
  answer-shape [] = refl
  answer-shape (v ∷ []) = refl
  answer-shape (v ∷ w ∷ vs) = refl

  join_comm : (a b : PolicyState) (t : Tally) → join a (join b t) ≡ join b (join a t)
  unfolding join
  join_comm a b t = ground arith

  tally-Permᴰ : {m n : Table PolicyState} → Permᴰ m n → tally m ≡ tally n
  unfolding tally
  tally-Permᴰ Permᴰ.nil = refl
  tally-Permᴰ (Permᴰ.cons {a = a} {b = b} {l₂ = n} e p) =
      ap₂ (λ (x : String × PolicyState) t. join x.1 t) e (tally-Permᴰ p)
  tally-Permᴰ (Permᴰ.swap {a = a} {b = b} {l = l} e f) =
      join_comm a.1 b.1 (tally l)
      ∙ ap₂ (λ (x y : String × PolicyState). join x.1 (join y.1 (tally l))) f e
  tally-Permᴰ (Permᴰ.trans p q) = tally-Permᴰ p ∙ tally-Permᴰ q

  evaluator_id_to_version-tally :
      (s : State) → evaluator_id_to_version id (some s) ≡ answer (tally (entries s.complypacks))
  evaluator_id_to_version-tally s = rw (tally-shape, answer-shape) (evaluator_id_to_version_lem s)

  -- The answer does not depend on the order in which the iteration over the map meets its entries.
  evaluator_id_to_version-perm :
      (s t : State)
      → Perm (entries s.complypacks) (entries t.complypacks)
      → evaluator_id_to_version id (some s) ≡ evaluator_id_to_version id (some t)
  evaluator_id_to_version-perm s t p =
      rw (evaluator_id_to_version-tally s, evaluator_id_to_version-tally t)
        (∥∥₁_elim p (Answer-set _ _) (λ q. ap answer (tally-Permᴰ q)))

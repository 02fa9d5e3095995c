-- ===== src/Policy/Freshness.antt =====
-- internal/policy/generation_state.go: whether what was generated is still fresh. A nil map of
-- digests is an empty table; the clock's text is an argument.
use complytime.Policy.Generation.{GenerationState}
use complytime.Base.Table.{lookup, Table}
use complytime.Base.{
  none, [], false, some, ◌&&◌, length, ◌∷◌, ◌==◌, nat_eq, true, List, Bool, String,
}

-- maps.Equal, entry by entry.
unfoldable pub entries_equal : Table String → Table String → Bool
entries_equal [] m = true
entries_equal (e ∷ es) m =
    let rest = entries_equal es m in
    (elim (lookup e.0 m) [ some v ↦ e.1 == v | none ↦ false ]) && rest

unfoldable pub maps_equal : Table String → Table String → Bool
maps_equal m n = nat_eq (length m) (length n) && entries_equal m n

unfoldable pub is_fresh : GenerationState → String → Table String → Bool
is_fresh s current_digest current_complypack_digests =
    s.policy_digest == current_digest && maps_equal s.complypack_digests current_complypack_digests

unfoldable pub new_generation_state :
    String → String → String → List String → Table String → GenerationState
new_generation_state now policy_id digest evaluator_ids complypack_digests = record {
  policy_id = policy_id;
  policy_digest = digest;
  complypack_digests = complypack_digests;
  generated_at = now;
  evaluator_ids = evaluator_ids;
}

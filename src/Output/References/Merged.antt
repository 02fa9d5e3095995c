-- ===== src/Output/References/Merged.antt =====
-- What a merge of mapping references keeps.

use complytime.Output.Gemara.{GemaraReference}
use complytime.Output.References.Indexed.{
  at-map, map-change_at, contains-at, Indexes, IsIndexed, ids, append-IsIndexed, length-change_at,
}
use complytime.Output.References.{
  MappingCollision, add_policy_ref, append_ref, discard_ref, at, Merge, provider_ref_to_gemara,
  add_policy_refs, collide, add_provider_ref, add_provider_refs, empty_merge,
  merge_mapping_references,
}
use complytime.Provider.Messages.{MappingReference}
use complytime.Base.{
  keep, subst, length-append, sym, ◌||◌, Option-cases, ◌+◌, if◌then◌else◌, ◌∙◌, inr, inl, ◌==◌,
  Bool-cases, refl, ap, false, [], suc, true, ◌∷◌, arith, ◌++◌, String, map, length, some, contains,
  ◌≡◌, List, ℕ,
}
use complytime.Base.Table.{lookup}
use mathlib.Core.List.{append_assoc, map-append, append-nil}

-- A reference apart from its description.
unfoldable pub strip : GemaraReference → GemaraReference
strip r = record r { description = "" }

-- The references whose id is not empty and was not met.
unfoldable pub fresh : List String → List MappingReference → List MappingReference
fresh met [] = []
fresh met (pr ∷ refs) =
    let rest = fresh met refs in
    let more = fresh (met ++ pr.id ∷ []) refs in
    if pr.id == "" || contains met pr.id then rest else pr ∷ more

-- The references whose id is not empty and was met: by the policy's or by an earlier one.
unfoldable pub repeated : List String → List MappingReference → List MappingReference
repeated met [] = []
repeated met (pr ∷ refs) =
    let rest = repeated met refs in
    let more = repeated (met ++ pr.id ∷ []) refs in
    if pr.id == "" then rest else if contains met pr.id then pr ∷ rest else more

-- The id and the title of a reference that a collision reports, and of the one that it is about.
unfoldable pub reported : MappingCollision → String × String
reported c = (c.id, c.discarded_title)

unfoldable pub named : MappingReference → String × String
named r = (r.id, r.title)

-- The titles of the references without an id.
unfoldable pub unnamed : List MappingReference → List String
unnamed refs =
    map (λ (r : MappingReference). r.title) (keep (λ (r : MappingReference). r.id == "") refs)

unfoldable pub total : Merge → ℕ
total m = length m.result + length m.collisions + length m.discarded_empty_ids

-- What one round adds.
record Adds (m : Merge) (pr : MappingReference) (next : Merge) : Type 0 where
  indexed : IsIndexed (ids next.result) next.seen
  kept :
      map strip next.result
      ≡ map strip m.result
        ++ map (λ r. strip (provider_ref_to_gemara r)) (fresh (ids m.result) (pr ∷ []))
  met :
      ids next.result
      ≡ ids m.result ++ map (λ (r : MappingReference). r.id) (fresh (ids m.result) (pr ∷ []))
  collided :
      map reported next.collisions
      ≡ map reported m.collisions ++ map named (repeated (ids m.result) (pr ∷ []))
  discarded : next.discarded_empty_ids ≡ m.discarded_empty_ids ++ unnamed (pr ∷ [])
  counted : total next ≡ suc (total m)

discard_ref-Adds :
    (m : Merge) (pr : MappingReference)
    → IsIndexed (ids m.result) m.seen
    → pr.id == "" ≡ true
    → Adds m pr (discard_ref m pr)
unfolding discard_ref fresh total repeated unnamed keep
discard_ref-Adds m pr h empty = record {
  indexed = h;
  kept = rw empty (sym (append-nil (map strip m.result)));
  met = rw empty (sym (append-nil (ids m.result)));
  collided = rw empty (sym (append-nil (map reported m.collisions)));
  discarded = rw empty refl;
  counted = omega (arith, length-append m.discarded_empty_ids (pr.title ∷ []));
}

append_ref-Adds :
    (m : Merge) (pr : MappingReference)
    → IsIndexed (ids m.result) m.seen
    → pr.id == "" ≡ false
    → contains (ids m.result) pr.id ≡ false
    → Adds m pr (append_ref m pr)
unfolding append_ref fresh total ids strip provider_ref_to_gemara repeated unnamed keep
append_ref-Adds m pr h spelled new = record {
  indexed = append-IsIndexed m.result (provider_ref_to_gemara pr) m.seen h;
  kept = rw (spelled, new) (map-append _ m.result (provider_ref_to_gemara pr ∷ []));
  met = rw (spelled, new) (map-append _ m.result (provider_ref_to_gemara pr ∷ []));
  collided = rw (spelled, new) (sym (append-nil (map reported m.collisions)));
  discarded = rw spelled (sym (append-nil m.discarded_empty_ids));
  counted = omega (arith, length-append m.result (provider_ref_to_gemara pr ∷ []));
}

collide-Adds :
    (m : Merge) (pr : MappingReference) (idx : ℕ) (retained : GemaraReference)
    → IsIndexed (ids m.result) m.seen
    → pr.id == "" ≡ false
    → contains (ids m.result) pr.id ≡ true
    → Adds m pr (collide m pr idx retained)
unfolding collide fresh total ids strip repeated unnamed keep reported named
collide-Adds m pr idx retained h spelled old = record {
  indexed =
      subst (λ xs. IsIndexed xs m.seen)
        (sym (map-change_at (λ (r : GemaraReference). r.id) _ (λ r. refl) idx m.result)) h;
  kept =
      rw (spelled, old)
        (map-change_at _ _ (λ r. refl) idx m.result ∙ sym (append-nil (map strip m.result)));
  met =
      rw (spelled, old)
        (map-change_at _ _ (λ r. refl) idx m.result ∙ sym (append-nil (ids m.result)));
  collided = rw (spelled, old) (map-append reported m.collisions _);
  discarded = rw spelled (sym (append-nil m.discarded_empty_ids));
  counted = rw (length-change_at _ _ m.result, length-append m.collisions _) (omega arith);
}

add_provider_ref-Adds :
    (m : Merge) (pr : MappingReference)
    → IsIndexed (ids m.result) m.seen
    → (next : Merge) × (add_provider_ref m pr ≡ some next) × Adds m pr next
unfolding add_provider_ref IsIndexed ids Indexes
add_provider_ref-Adds m pr h = elim (Bool-cases (pr.id == "")) [
  | inl empty ↦ (discard_ref m pr, rw empty refl, discard_ref-Adds m pr h empty)
  | inr spelled ↦ elim (Option-cases (lookup pr.id m.seen)) [
    | inl new ↦ (
      append_ref m pr,
      rw (spelled, new) refl,
      append_ref-Adds m pr h spelled (rw new at (h pr.id)),
    )
    | inr (idx, found) ↦
        let here : at idx (ids m.result) ≡ some pr.id = rw found at (h pr.id) in
        let (retained, stands) = at-map (λ (r : GemaraReference). r.id) idx m.result pr.id here in
        (
          collide m pr idx retained,
          rw (spelled, found, stands) refl,
          collide-Adds m pr idx retained h spelled (contains-at idx (ids m.result) pr.id here),
        )
  ]
]

add_policy_refs_lem :
    (m : Merge) (refs : List GemaraReference)
    → IsIndexed (ids m.result) m.seen
    → (IsIndexed (ids (add_policy_refs m refs).result) (add_policy_refs m refs).seen)
      × ((add_policy_refs m refs).result ≡ m.result ++ refs)
      × ((add_policy_refs m refs).collisions ≡ m.collisions)
      × ((add_policy_refs m refs).discarded_empty_ids ≡ m.discarded_empty_ids)
unfolding add_policy_refs add_policy_ref
add_policy_refs_lem m [] h = (h, sym (append-nil m.result), refl, refl)
add_policy_refs_lem m (r ∷ refs) h =
    let rest =
      add_policy_refs_lem (add_policy_ref m r) refs (append-IsIndexed m.result r m.seen h) in
    (rest.0, rest.1 ∙ append_assoc m.result (r ∷ []) refs, rest.2, rest.3)

fresh_cons :
    (met : List String) (pr : MappingReference) (refs : List MappingReference)
    → fresh met (pr ∷ refs)
      ≡ fresh met (pr ∷ [])
        ++ fresh (met ++ map (λ (r : MappingReference). r.id) (fresh met (pr ∷ []))) refs
unfolding fresh
fresh_cons met pr refs = ground (arith, append-nil met)

repeated_cons :
    (met : List String) (pr : MappingReference) (refs : List MappingReference)
    → repeated met (pr ∷ refs)
      ≡ repeated met (pr ∷ [])
        ++ repeated (met ++ map (λ (r : MappingReference). r.id) (fresh met (pr ∷ []))) refs
unfolding fresh repeated
repeated_cons met pr refs = ground (arith, append-nil met)

unnamed_cons :
    (pr : MappingReference) (refs : List MappingReference)
    → unnamed (pr ∷ refs) ≡ unnamed (pr ∷ []) ++ unnamed refs
unfolding unnamed keep
unnamed_cons pr refs = elim (Bool-cases (pr.id == "")) [
  | inl empty ↦ rw empty refl
  | inr spelled ↦ rw spelled refl
]

add_provider_refs_lem :
    (m : Merge) (refs : List MappingReference)
    → IsIndexed (ids m.result) m.seen
    → (last : Merge) × (add_provider_refs m refs ≡ some last)
      × (map strip last.result
          ≡ map strip m.result
            ++ map (λ r. strip (provider_ref_to_gemara r)) (fresh (ids m.result) refs))
      × (map reported last.collisions
          ≡ map reported m.collisions ++ map named (repeated (ids m.result) refs))
      × (last.discarded_empty_ids ≡ m.discarded_empty_ids ++ unnamed refs)
      × (total last ≡ total m + length refs)
unfolding add_provider_refs fresh repeated unnamed keep
add_provider_refs_lem m [] h = (
  m,
  refl,
  sym (append-nil (map strip m.result)),
  sym (append-nil (map reported m.collisions)),
  sym (append-nil m.discarded_empty_ids),
  omega arith,
)
add_provider_refs_lem m (pr ∷ refs) h =
    let (next, added, adds) = add_provider_ref-Adds m pr h in
    let (last, rest, kept, collided, discarded, counted) =
      add_provider_refs_lem next refs adds.indexed in
    (
      last,
      rw (add_provider_refs, added, rest) refl,
      kept
          ∙ rw
              (
                adds.kept,
                adds.met,
                fresh_cons (ids m.result) pr refs,
                map-append (λ r. strip (provider_ref_to_gemara r)) _ _,
              )
              (append_assoc (map strip m.result)
                (map (λ r. strip (provider_ref_to_gemara r)) (fresh (ids m.result) (pr ∷ [])))
                (map (λ r. strip (provider_ref_to_gemara r))
                  (fresh
                    (ids m.result
                      ++ map (λ (r : MappingReference). r.id) (fresh (ids m.result) (pr ∷ [])))
                    refs))),
      collided
          ∙ rw (adds.collided, adds.met, repeated_cons (ids m.result) pr refs, map-append named _ _)
              (append_assoc (map reported m.collisions)
                (map named (repeated (ids m.result) (pr ∷ [])))
                (map named (
                  repeated
                    (ids m.result
                      ++ map (λ (r : MappingReference). r.id) (fresh (ids m.result) (pr ∷ [])))
                    refs))),
      discarded
          ∙ rw (adds.discarded, unnamed_cons pr refs)
              (append_assoc m.discarded_empty_ids (unnamed (pr ∷ [])) (unnamed refs)),
      omega (arith, counted, adds.counted),
    )

-- A merge meets no bad index. But for the notes in descriptions its result is the policy's references
-- as they are, and then, of the provider's references that have an id, the first with each id that
-- neither the policy nor an earlier one has. The collisions report, in their order, the id and the
-- title of each of the others that have an id, and the discarded titles are those of the references
-- without one; so each of the provider's references is in just one of the three.
pub merge_mapping_references_lem :
    (policy_refs : List GemaraReference) (provider_refs : List MappingReference)
    → (merged : Merge) × (merge_mapping_references policy_refs provider_refs ≡ some merged)
      × (map strip merged.result
          ≡ map strip policy_refs
            ++ map
                (λ r. strip (provider_ref_to_gemara r))
                (fresh (map (λ (r : GemaraReference). r.id) policy_refs) provider_refs))
      × (map reported merged.collisions
          ≡ map named (repeated (map (λ (r : GemaraReference). r.id) policy_refs) provider_refs))
      × (merged.discarded_empty_ids ≡ unnamed provider_refs)
      × (length merged.result + length merged.collisions + length merged.discarded_empty_ids
          ≡ length policy_refs + length provider_refs)
unfolding merge_mapping_references empty_merge ids IsIndexed Indexes lookup contains total
merge_mapping_references_lem policy_refs provider_refs =
    let (indexed, same, none_collided, none_discarded) =
      add_policy_refs_lem empty_merge policy_refs (λ k. refl) in
    let (last, found, kept, collided, discarded, counted) =
      add_provider_refs_lem (add_policy_refs empty_merge policy_refs) provider_refs indexed in
    (
      last,
      found,
      rw same at kept,
      collided ∙ rw (same, none_collided) refl,
      discarded ∙ rw none_discarded refl,
      omega (arith, counted, ap length same, ap length none_collided, ap length none_discarded),
    )

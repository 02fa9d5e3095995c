-- ===== src/Output/References.antt =====
-- internal/output/scan_summary.go: MergeMappingReferences. A map to indices is a table, an index
-- beyond the end of the slice is `none`.
pub mod Indexed
pub mod Merged
use complytime.Output.Gemara.{GemaraReference}
use complytime.Provider.Messages.{MappingReference}
use complytime.Base.{
  false, true, ◌++◌, length, ◌<>◌, ◌==◌, suc, some, is_some, if◌then◌else◌, Bool, ◌∷◌, none, [],
  Option, List, String, ℕ,
}
use complytime.Base.Table.{lookup, insert, Table}

unfoldable pub at {ℓ} : {A : Type ℓ} → ℕ → List A → Option A
at i [] = none
at ℕ.zero (x ∷ xs) = some x
at (suc i) (x ∷ xs) = at i xs

unfoldable pub change_at {ℓ} : {A : Type ℓ} → ℕ → (A → A) → List A → List A
change_at i f [] = []
change_at ℕ.zero f (x ∷ xs) = f x ∷ xs
change_at (suc i) f (x ∷ xs) = x ∷ change_at i f xs

pub record MappingCollision : Type 0 where
  pub id : String
  pub retained_title : String
  pub discarded_title : String
  pub policy_wins : Bool

-- The variables of the function.
pub record Merge : Type 0 where
  pub seen : Table ℕ
  pub is_policy_origin : Table Bool
  pub result : List GemaraReference
  pub collisions : List MappingCollision
  pub discarded_empty_ids : List String

unfoldable pub provider_ref_to_gemara : MappingReference → GemaraReference
provider_ref_to_gemara pr = record {
  id = pr.id;
  title = pr.title;
  version = pr.version;
  description = pr.description;
  url = pr.url;
}

unfoldable pub build_collision_note : String → String → String → String
build_collision_note id title retained_by =
    if title == ""
    then "collision: provider ref (id: '" <> id <> "') discarded in favor of " <> retained_by
      <> "; "
    else "collision: provider ref '" <> title <> "' (id: '" <> id <> "') discarded in favor of "
      <> retained_by <> "; "

-- The first loop.
unfoldable pub add_policy_ref : Merge → GemaraReference → Merge
add_policy_ref m pr = record m {
  seen = insert pr.id (length m.result) m.seen;
  is_policy_origin = insert pr.id true m.is_policy_origin;
  result = m.result ++ pr ∷ [];
}

unfoldable pub add_policy_refs : Merge → List GemaraReference → Merge
add_policy_refs m [] = m
add_policy_refs m (pr ∷ refs) = add_policy_refs (add_policy_ref m pr) refs

-- The case of an id that was met, at an index where `retained` stands.
unfoldable pub collide : Merge → MappingReference → ℕ → GemaraReference → Merge
collide m pr idx retained =
    let policy_wins : Bool = elim (lookup pr.id m.is_policy_origin) [
      | some origin ↦ origin
      | none ↦ false
    ] in
    let note =
      build_collision_note pr.id pr.title
        (if policy_wins then "policy ref" else "earlier provider ref") in
    record m {
      collisions =
          m.collisions
          ++ record {
            id = pr.id;
            retained_title = retained.title;
            discarded_title = pr.title;
            policy_wins = policy_wins;
          }
            ∷ [];
      result =
          change_at idx (λ (r : GemaraReference). record r { description = note <> r.description })
            m.result;
    }

unfoldable pub discard_ref : Merge → MappingReference → Merge
discard_ref m pr = record m { discarded_empty_ids = m.discarded_empty_ids ++ pr.title ∷ [] }

unfoldable pub append_ref : Merge → MappingReference → Merge
append_ref m pr = record m {
  seen = insert pr.id (length m.result) m.seen;
  result = m.result ++ provider_ref_to_gemara pr ∷ [];
}

-- One round of the second loop.
unfoldable pub add_provider_ref : Merge → MappingReference → Option Merge
add_provider_ref m pr =
    if pr.id == "" then some (discard_ref m pr) else elim (lookup pr.id m.seen) [
      | some idx ↦ elim (at idx m.result) [
        | some retained ↦ some (collide m pr idx retained)
        | none ↦ none
      ]
      | none ↦ some (append_ref m pr)
    ]

unfoldable pub add_provider_refs : Merge → List MappingReference → Option Merge
add_provider_refs m [] = some m
add_provider_refs m (pr ∷ refs) = elim (add_provider_ref m pr) [
  | some next ↦ add_provider_refs next refs
  | none ↦ none
]

unfoldable pub empty_merge : Merge
empty_merge = record {
  seen = [];
  is_policy_origin = [];
  result = [];
  collisions = [];
  discarded_empty_ids = [];
}

unfoldable pub merge_mapping_references :
    List GemaraReference → List MappingReference → Option Merge
unfolding empty_merge
merge_mapping_references policy_refs provider_refs =
    add_provider_refs (add_policy_refs empty_merge policy_refs) provider_refs

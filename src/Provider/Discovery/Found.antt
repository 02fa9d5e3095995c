-- ===== src/Provider/Discovery/Found.antt =====
-- Which plugins a discovery finds.
use complytime.Provider.Discovery.{
  ProviderInfo, Listing, scan_dir, expand_path, evaluator_ids, discover_providers,
}
use complytime.Base.{
  subst, not, refl, inr, eq_iff, eq_refl, ap, contains-append, inl, [], ◌++◌, ◌==◌, ◌||◌, false,
  arith, Bool-cases, ◌∷◌, ◌&&◌, ◌≡◌, Option, List, Bool, String, keep, contains,
}
use complytime.Base.Members.{Distinct}
use complytime.Base.Result.{ok}
use mathlib.Core.List.{map-append}

contains-keep_ids :
    (p : String → Bool) (infos : List ProviderInfo) (k : String)
    → contains (evaluator_ids (keep (λ (i : ProviderInfo). p i.evaluator_id) infos)) k
      ≡ (contains (evaluator_ids infos) k && p k)
unfolding contains keep
contains-keep_ids p [] k = refl
contains-keep_ids p (i ∷ infos) k = elim (Bool-cases (i.evaluator_id == k)) [
  | inl same ↦ ground (arith, contains-keep_ids p infos k, ap p ((eq_iff i.evaluator_id k).0 same))
  | inr different ↦ ground (arith, contains-keep_ids p infos k)
]

Distinct-keep_ids :
    (p : String → Bool) (infos : List ProviderInfo)
    → Distinct (evaluator_ids infos)
    → Distinct (evaluator_ids (keep (λ (i : ProviderInfo). p i.evaluator_id) infos))
unfolding keep
Distinct-keep_ids p [] h = tt
Distinct-keep_ids p (i ∷ infos) h =
    ground (arith, contains-keep_ids p infos i.evaluator_id, Distinct-keep_ids p infos h.1)

Distinct-append :
    (xs ys : List String)
    → Distinct xs
    → Distinct ys
    → ((k : String) → contains xs k && contains ys k ≡ false)
    → Distinct (xs ++ ys)
unfolding contains
Distinct-append [] ys h j apart = j
Distinct-append (x ∷ xs) ys h j apart = (
  rw (contains-append xs ys x) (ground (arith, h.0, apart x, eq_refl x)),
  Distinct-append xs ys h.1 j (λ k. ground (arith, apart k)),
)

-- The user's plugins and those of the system's that they do not replace.
union : List ProviderInfo → List ProviderInfo → List ProviderInfo
union user system =
    user ++ keep (λ (i : ProviderInfo). not (contains (evaluator_ids user) i.evaluator_id)) system

union-Distinct :
    (user system : List ProviderInfo)
    → Distinct (evaluator_ids user)
    → Distinct (evaluator_ids system)
    → Distinct (evaluator_ids (union user system))
      × ((k : String)
          → contains (evaluator_ids (union user system)) k
            ≡ (contains (evaluator_ids user) k || contains (evaluator_ids system) k))
unfolding union
union-Distinct user system du ds =
    let added =
      λ (k : String). contains-keep_ids (λ k. not (contains (evaluator_ids user) k)) system k in
    rw
      (map-append (λ (i : ProviderInfo). i.evaluator_id) user
        (keep (λ (i : ProviderInfo). not (contains (evaluator_ids user) i.evaluator_id)) system))
      (
        Distinct-append (evaluator_ids user) _ du
            (Distinct-keep_ids (λ k. not (contains (evaluator_ids user) k)) system ds)
            (λ k. ground (arith, added k)),
        λ k.
            rw
              (contains-append (evaluator_ids user)
                (evaluator_ids (
                  keep (λ (i : ProviderInfo). not (contains (evaluator_ids user) i.evaluator_id))
                    system))
                k)
              (ground (arith, added k)),
      )

-- Where each directory has an evaluator's plugin once, a discovery finds the plugin of each evaluator
-- that one of the directories has, once: all of the user's, and the system's that the user's do not
-- replace.
pub discover_providers-Distinct :
    (join : String → String → String) (read_dir : String → Listing) (home : Option String)
    (provider_dir system_dir : String) (user system infos : List ProviderInfo)
    → scan_dir join read_dir (expand_path join home provider_dir) ≡ ok user
    → scan_dir join read_dir system_dir ≡ ok system
    → discover_providers join read_dir home provider_dir system_dir ≡ ok infos
    → Distinct (evaluator_ids user)
    → Distinct (evaluator_ids system)
    → Distinct (evaluator_ids infos)
      × ((k : String)
          → contains (evaluator_ids infos) k
            ≡ (contains (evaluator_ids user) k || contains (evaluator_ids system) k))
unfolding discover_providers union
discover_providers-Distinct join read_dir home provider_dir system_dir user system infos u s d du
      ds =
    let found : ok (union user system) ≡ ok infos = rw (u, s) at d in
    let same : union user system ≡ infos = ground arith in
    subst
      (λ is.
        Distinct (evaluator_ids is)
        × ((k : String)
            → contains (evaluator_ids is) k
              ≡ (contains (evaluator_ids user) k || contains (evaluator_ids system) k)))
      same (union-Distinct user system du ds)

-- ===== src/Provider/Manager/Routed.antt =====
-- Which plugins a manager has registered, and what it reports of those that fail.
use complytime.Base.Result.{err, is_ok, Result-cases, Result, ok}
use complytime.Provider.Discovery.{
  discover_providers, expand_path, scan_dir, Listing, ProviderInfo, evaluator_ids,
}
use complytime.Provider.Manager.{
  RpcFailure, list_providers, no_result, route_scan_result, ScanResult, scan_with, append_result,
  scan_each, register, Provider, LoadedProvider, is_usable, load_providers,
}
use complytime.Base.{
  map, length-append, ◌≤◌, refl, length, ◌||◌, keep, ◌++◌, not, Option, Bool, eq_iff, eq_refl, All,
  true, [], ◌∙◌, inr, arith, inl, none, ◌∷◌, some, sym, if◌then◌else◌, ap, false, ◌≡◌, List,
  contains, String,
}
use complytime.Base.Table.{lookup-insert, lookup, Table}
use complytime.Base.Members.{Distinct}
use complytime.Provider.Requests.{Target}
use complytime.Provider.Messages.{AssessmentLog, MappingReference}
use complytime.Provider.Discovery.Found.{discover_providers-Distinct}
use mathlib.Core.List.{append_assoc, append-nil, map-append}

module _ (new_client : String → Result String Provider) where
  load_providers_other :
      (plugins : Table LoadedProvider) (infos : List ProviderInfo) (loaded : Table LoadedProvider)
      (k : String)
      → load_providers new_client plugins infos ≡ ok loaded
      → contains (evaluator_ids infos) k ≡ false
      → lookup k loaded ≡ lookup k plugins
  unfolding load_providers contains register
  load_providers_other plugins [] loaded k h absent =
      let same : plugins ≡ loaded = ground arith in ap (lookup k) (sym same)
  load_providers_other plugins (i ∷ infos) loaded k h absent =
      elim (Result-cases (new_client i.executable_path)) [
        | inl (e, failed) ↦ absurd (ground arith)
        | inr (client, started) ↦
            load_providers_other (register plugins i client) infos loaded k
              (rw (load_providers, started) at h) (ground arith)
            ∙ ground (
              arith,
              lookup-insert i.evaluator_id k (record { info = i; client = client }) plugins,
            )
      ]

  -- What a table has for one plugin that was found.
  Registered : Table LoadedProvider → ProviderInfo → Type 0
  Registered loaded info =
      (client : Provider) × (new_client info.executable_path ≡ ok client)
      × (lookup info.evaluator_id loaded
          ≡ (if is_usable client then some (record { info = info; client = client }) else none))

  load_providers_each :
      (plugins : Table LoadedProvider) (infos : List ProviderInfo) (loaded : Table LoadedProvider)
      → load_providers new_client plugins infos ≡ ok loaded
      → Distinct (evaluator_ids infos)
      → ((k : String) → contains (evaluator_ids infos) k ≡ true → lookup k plugins ≡ none)
      → All (Registered loaded) infos
  unfolding load_providers contains register Registered
  load_providers_each plugins [] loaded h distinct absent = tt
  load_providers_each plugins (i ∷ infos) loaded h distinct absent =
      elim (Result-cases (new_client i.executable_path)) [
        | inl (e, failed) ↦ absurd (ground arith)
        | inr (client, started) ↦
            let rest = rw (load_providers, started) at h in
            let free = absent i.evaluator_id (ground (arith, eq_refl i.evaluator_id)) in
            let written = λ (k : String).
              lookup-insert i.evaluator_id k (record { info = i; client = client }) plugins in
            (
              (
                client,
                started,
                load_providers_other (register plugins i client) infos loaded i.evaluator_id rest
                      distinct.0
                    ∙ ground (arith, free, written i.evaluator_id, eq_refl i.evaluator_id),
              ),
              load_providers_each (register plugins i client) infos loaded rest distinct.1
                  (λ k member.
                    ground (arith, written k, absent k, eq_iff i.evaluator_id k, distinct.0)),
            )
      ]

  -- After a load of what a discovery found, in directories that have an evaluator's plugin once, a
  -- plugin that was found is registered under its evaluator id if it described itself as healthy,
  -- with its own client, and is not registered if not; no other id is registered.
  pub load_providers-discovered :
      (join : String → String → String) (read_dir : String → Listing) (home : Option String)
      (provider_dir system_dir : String) (user system infos : List ProviderInfo)
      (loaded : Table LoadedProvider)
      → scan_dir join read_dir (expand_path join home provider_dir) ≡ ok user
      → scan_dir join read_dir system_dir ≡ ok system
      → Distinct (evaluator_ids user)
      → Distinct (evaluator_ids system)
      → discover_providers join read_dir home provider_dir system_dir ≡ ok infos
      → load_providers new_client [] infos ≡ ok loaded
      → All
          (λ (info : ProviderInfo).
            (client : Provider) × (new_client info.executable_path ≡ ok client)
            × (lookup info.evaluator_id loaded ≡ (
                if is_usable client then some (record { info = info; client = client }) else none)))
          infos
        × ((k : String)
            → contains (evaluator_ids user) k || contains (evaluator_ids system) k ≡ false
            → lookup k loaded ≡ none)
  unfolding Registered lookup
  load_providers-discovered join read_dir home provider_dir system_dir user system infos loaded u s
        du ds d l =
      let (distinct, found) =
        discover_providers-Distinct join read_dir home provider_dir system_dir user system infos u s
          d du ds in
      (
        load_providers_each [] infos loaded l distinct (λ k h. refl),
        λ k h. load_providers_other [] infos loaded k l (found k ∙ h),
      )

-- A plugin's scan fails.
unfoldable pub fails : List Target → LoadedProvider → Bool
fails targets lp = not (is_ok (lp.client.scan targets))

-- What the plugins whose scan succeeds return.
unfoldable pub returned : List Target → List LoadedProvider → List AssessmentLog
returned targets [] = []
returned targets (lp ∷ lps) = elim (lp.client.scan targets) [
  | ok response ↦ response.assessments ++ returned targets lps
  | err e ↦ returned targets lps
]

unfoldable pub returned_references : List Target → List LoadedProvider → List MappingReference
returned_references targets [] = []
returned_references targets (lp ∷ lps) = elim (lp.client.scan targets) [
  | ok response ↦ response.mapping_references ++ returned_references targets lps
  | err e ↦ returned_references targets lps
]

abbrev pub id_of : LoadedProvider → String
id_of lp = lp.info.evaluator_id

abbrev pub failed_ids : ScanResult → List String
failed_ids r = map (λ (f : RpcFailure). f.evaluator_id) r.rpc_failures

module _ (log_file : String) (exceeded : String → Bool) (targets : List Target) where
  -- A result extended by what some plugins contribute.
  record Extends (before : ScanResult) (lps : List LoadedProvider) (after : ScanResult)
      : Type 0 where
    logs : after.assessments ≡ before.assessments ++ returned targets lps
    references :
        after.mapping_references ≡ before.mapping_references ++ returned_references targets lps
    failures : failed_ids after ≡ failed_ids before ++ map id_of (keep (fails targets) lps)
    reported :
        length before.rpc_failures ≤ length before.errors
        → length after.rpc_failures ≤ length after.errors

  scan_with-Extends :
      (result : ScanResult) (lp : LoadedProvider)
      → Extends result
          (lp ∷ [])
          (append_result result (scan_with log_file exceeded targets lp.info.evaluator_id lp))
  unfolding append_result scan_with returned returned_references keep fails
  scan_with-Extends result lp = elim (Result-cases (lp.client.scan targets)) [
    | inl (e, failed) ↦ record {
      logs = rw (failed, scan_with, returned) refl;
      references = rw (failed, scan_with, returned_references) refl;
      failures = rw (failed, scan_with) (map-append _ result.rpc_failures _);
      reported = λ h.
          rw (failed, scan_with)
            (omega (arith, h, length-append result.rpc_failures _, length-append result.errors _));
    }
    | inr (response, answered) ↦ record {
      logs =
          rw (answered, scan_with, returned)
            (ap (λ l. result.assessments ++ l) (sym (append-nil response.assessments)));
      references =
          rw (answered, scan_with, returned_references)
            (ap (λ l. result.mapping_references ++ l)
              (sym (append-nil response.mapping_references)));
      failures = rw (answered, scan_with) (map-append _ result.rpc_failures []);
      reported = λ h.
          rw (answered, scan_with)
            (omega (
              arith,
              h,
              length-append result.rpc_failures [],
              length-append result.errors response.errors,
            ));
    }
  ]

  returned_cons :
      (lp : LoadedProvider) (lps : List LoadedProvider)
      → (returned targets (lp ∷ lps) ≡ returned targets (lp ∷ []) ++ returned targets lps)
        × (returned_references targets (lp ∷ lps)
            ≡ returned_references targets (lp ∷ []) ++ returned_references targets lps)
        × (map id_of (keep (fails targets) (lp ∷ lps))
            ≡ map id_of (keep (fails targets) (lp ∷ [])) ++ map id_of (keep (fails targets) lps))
  unfolding returned returned_references keep fails
  returned_cons lp lps = elim (Result-cases (lp.client.scan targets)) [
    | inl (e, failed) ↦ rw (failed, returned, returned_references) (refl, refl, refl)
    | inr (response, answered) ↦
        rw (answered, returned, returned_references)
          (
            ground (arith, append-nil response.assessments),
            ground (arith, append-nil response.mapping_references),
            refl,
          )
  ]

  scan_each-Extends :
      (result : ScanResult) (lps : List LoadedProvider)
      → Extends result lps (scan_each log_file exceeded targets result lps)
  unfolding scan_each returned returned_references keep
  scan_each-Extends result [] = record {
    logs = sym (append-nil result.assessments);
    references = sym (append-nil result.mapping_references);
    failures = sym (append-nil (failed_ids result));
    reported = λ h. h;
  }
  scan_each-Extends result (lp ∷ lps) =
      let next =
        append_result result (scan_with log_file exceeded targets lp.info.evaluator_id lp) in
      let first = scan_with-Extends result lp in
      let rest = scan_each-Extends next lps in
      let (logs, references, ids) = returned_cons lp lps in
      record {
        logs =
            rest.logs
            ∙ rw (first.logs, logs)
                (append_assoc result.assessments (returned targets (lp ∷ []))
                  (returned targets lps));
        references =
            rest.references
            ∙ rw (first.references, references)
                (append_assoc result.mapping_references (returned_references targets (lp ∷ []))
                  (returned_references targets lps));
        failures =
            rest.failures
            ∙ rw (first.failures, ids)
                (append_assoc (failed_ids result) (map id_of (keep (fails targets) (lp ∷ [])))
                  (map id_of (keep (fails targets) lps)));
        reported = λ h. rest.reported (first.reported h);
      }

  -- A broadcast scan returns the assessments and the mapping references of each plugin whose scan
  -- succeeds, in the plugins' order, whichever others fail; it records a failure under the id of each
  -- that fails, in that order too, and at least as many errors.
  pub route_scan_result-broadcast :
      (plugins : Table LoadedProvider)
      → (result : ScanResult) × (route_scan_result log_file exceeded plugins "" targets ≡ ok result)
        × (result.assessments ≡ returned targets (list_providers plugins))
        × (result.mapping_references ≡ returned_references targets (list_providers plugins))
        × (failed_ids result ≡ map id_of (keep (fails targets) (list_providers plugins)))
        × (length result.rpc_failures ≤ length result.errors)
  unfolding route_scan_result no_result
  route_scan_result-broadcast plugins =
      let extended = scan_each-Extends no_result (list_providers plugins) in
      (
        scan_each log_file exceeded targets no_result (list_providers plugins),
        refl,
        extended.logs,
        extended.references,
        extended.failures,
        extended.reported (omega arith),
      )

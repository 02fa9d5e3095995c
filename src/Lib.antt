-- ===== src/Lib.antt =====
-- complyctl, the command line of ComplyTime: the parts that keep, fetch and guard compliance
-- content, and the scan that turns the providers' answers into evaluation logs.
--
-- The program fetches policies and complypacks (the content of an evaluator plugin) from OCI
-- registries into local caches, records in a state file what it has fetched, and hands them to
-- provider plugins. A sync (`internal/cache/sync.go`, `internal/cache/complypack_sync.go`) asks
-- the registry client (`internal/registry/client.go`) for a version's digest, compares it with
-- the state (`internal/cache/state.go`), has the signature verified, transfers the content,
-- updates the state and saves it. The workspace configuration (`internal/complytime/config.go`)
-- names the policies, complypacks and targets, and the get command (`cmd/complyctl/cli/get.go`)
-- chooses a verifier for each entry and syncs them all. Complypacks are kept by version under a
-- directory for each evaluator (`internal/cache/complypack.go`), where a Store evicts old
-- versions. The scan command (`cmd/complyctl/cli/scan.go`) selects a policy and output formats,
-- asks for a new generation when the stored one is stale (`internal/policy/generation_state.go`),
-- sends each evaluator's configurations through the provider manager (`pkg/provider/manager.go`)
-- to the executables that discovery found (`pkg/provider/discovery.go`), checks what they answer,
-- and gathers it by target in an evaluator (`internal/output/evaluator.go`) that makes a Gemara
-- evaluation log of it.
--
-- The files and the code they model:
--   Base          shared types and lemmas: results, texts, tables (Go's maps), lists
--   Cache/State, Cache/StateFile        internal/cache/state.go
--   Cache/Reference, Cache/Sync         internal/cache/sync.go
--   Cache/PathComponent, Cache/Eviction, Cache/Complypack   internal/cache/complypack.go
--   Cache/Retention                     internal/cache/retention.go
--   Cache/ComplypackSync                internal/cache/complypack_sync.go
--   Registry                            internal/registry/client.go
--   Config                              internal/complytime/config.go
--   Cli/Verifiers, Cli/Get              cmd/complyctl/cli/get.go: the verifiers of a run, the syncs of its entries
--   Provider/Messages, Provider/Protocol   pkg/provider/client.go, pkg/provider/server.go
--   Provider/Requests, Provider/Manager pkg/provider/manager.go, its routing of requests
--   Provider/Discovery                  pkg/provider/discovery.go
--   Policy/Generation, Policy/Freshness internal/policy/generation_state.go, invalidation and staleness
--   Policy/Graph, Policy/Groups         internal/policy/resolver.go, the graph's types; internal/policy/assessment.go
--   Output/Gemara, Output/Results       the types of the log; internal/output/sarif.go, oscal.go, the mapping of results
--   Output/Evaluator                    internal/output/evaluator.go, the gathering of results by target
--   Output/Serializable                 internal/output/evaluator.go, the log a target is written as
--   Output/References, Output/Summary   internal/output/scan_summary.go
--   Cli/Scan                            cmd/complyctl/cli/scan.go: formats, selection, staleness, requirements, the run
--   Tests                               runs at concrete data
--
-- How the code corresponds. A function of the source is a function of the same name in snake
-- case; one that changes state takes the state and answers the new one with its result. A Go map
-- is a list of pairs that `insert` and `lookup` read as a map, a nil map is `none`. Errors are
-- the constructors of a type for each component. A time is a number, and the two clock readings
-- of one update are taken as one. What is only logged or printed is left out.
--
-- What the source only calls is a parameter: JSON (`Codec`, `ConfigCodec`), the file system's
-- answers (`Faults`, `StoreFaults`, and `Remains` for what a removal that fails leaves),
-- go-digest (`digest_ok`), the registry, the signature verification, the OCI stores with
-- oras.Copy (`Env`), the parsing of references (`Parsers`), and sort.Slice (`Sorter`: it
-- permutes, and orders ascending). For the scan they are: the severity order of Gemara's results
-- (`MostSevere`), the clock, UTF-8 validity and base64 (`OutputEnv`), sorting, paths and
-- directory listings (`ScanEnv`), and the plugin clients, each as the answers it gives; for the
-- get command (`Session`), the surroundings of each entry's sync and the extraction of a policy's
-- metadata.
--
-- Bounds. No function needs fuel: all recursion is over lists and texts. Numbers are natural
-- numbers; the Go ints modelled here count directory entries and versions and do not overflow.
--
-- The transport of gRPC is taken to deliver each message as it was sent.
--
-- Not modelled: the documents of the report formats (YAML, OSCAL, SARIF, Markdown), the
-- resolution and loading of policy graphs, the commands generate, list, init, providers and
-- doctor, the start of plugin processes, and the parsing of flags; in the complypack cache the
-- evaluator-id ".", which filepath.Join drops from a path; and concurrent processes.
pub mod Base
pub mod Cache
pub mod Cli
pub mod Config
pub mod Output
pub mod Policy
pub mod Provider
pub mod Registry
pub mod Tests

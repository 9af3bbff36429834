-- ===== src/Lib.antt =====
-- Verification of the Cautreo inference engine, a C library for running language models with a
-- reasoning core beside them. The engine proposes and verifies draft tokens (speculative), keeps
-- attention keys and values in a cache (kv_cache), reads weights that do not fit in memory through a
-- cache of disk regions (streaming), and logs what the reasoning core (core) does in an event store
-- that can be replayed; the core keeps a population of hypotheses (hypothesis), ranks tests of its
-- hypotheses under a budget (planner), chooses an executor for them (router), calls it (gateway),
-- passes the evidence that comes back through six layers (verification), and remembers what was
-- learnt in an associative memory (memory). A model's weights come from GGUF files (gguf); a
-- scoreboard rates them by how often they are used (wvs), and a manager decides which of them are in
-- RAM, and how compressed (awm). An HTTP server (server) answers requests for completions by the
-- engine.
--
-- A path here and in the files' comments begins in the directory src of the repository, so that
-- core/router/router.c is src/core/router/router.c there.
--
-- Base            shared names; little-endian words (Bytes), blocks of a flat array (Blocks), the
--                 interface of C's floating-point types (Float) and an instance of it for
--                 evaluation (Fixed)
-- Core.Provenance core/provenance/provenance.c: event_store_create, _append, _flush, _replay, _count.
--                 The file is a list of bytes, with what stdio has buffered apart. A replay stops without a result
--                 at a string length of 2^32 - 1, for which the code writes behind a block of no bytes
-- KvCache         kv_cache/kv_cache.c: ct_kv_create, _append, _get, _reset, _compress, _save, _load
-- Core.Planner    core/planner/planner.c: planner_test_utility, _rank_tests, _choose_next, _should_stop,
--                 budget_init, budget_consume
-- Core.Router     core/router/router.c: router_create, _register, _score, _select, _rank, _fallback
--                 and the marks of availability; Core.Select is the loop it chooses by, as the
--                 planner does, and Core.Sort the one by which both rank
-- Core.Contracts  core/contracts/contracts.c: the records of the core and their _valid tests
-- Core.Gateway    core/gateway/gateway.c: gateway_create, _set_endpoint, _health_check, the calls of the
--                 executors, and gateway_execute
-- Core.Memory     core/memory/memory.c: layer_create, layer_add and memory_create, _write, _recall,
--                 _store_episode, _store_pattern, _store_rule, _store_counterexample,
--                 _retrieve_verified, _count, _clear
-- Core.Hypothesis core/hypothesis/hypothesis.c: string_similarity, population_create, _add, _normalize,
--                 _merge, _prune, _score, _get, _apply_evidence and the counts
-- Core.Verification
--                 core/verification/verification.c: funnel_structural, _constraint, _provenance,
--                 _detect_conflict, _are_independent, _score, _verify
-- Speculative     speculative/speculative.c: ct_spec_create, _draft, _verify
-- Streaming       streaming/streaming.c: find_cache, find_lru, ct_streamer_create, _read, _write,
--                 _prefetch, _evict_lru and the queries
-- Wvs             wvs/wvs.c: wvs_hash, classify, ct_wvs_create, _reset, _record_access, _get_hotness,
--                 _select_granularity, _update_all, _save, _load, _entry. Ratings is the specification,
--                 Table the map that the slots stand for
-- Awm             awm/awm.c: ct_awm_create, _register, _update_placement, _get_weight, _prefetch, _evict,
--                 _evict_cold, _set_budget. Commands is the step relation of these, with registrations for
--                 which calloc succeeds and without a move to RAM of a region that a read has loaded
-- Gguf            gguf/gguf.c: gguf_open; Index has the lookups and reads, Split the functions
--                 gguf_split_*, Writing the format as a writer's specification
-- Server          server/server.c: json_escape, json_get_str, _int and _bool (Json), parse_request and
--                 the token identifiers (Request), handle_connection, handle_completions and the routes
--                 (Handlers), with the engine as an interface; the text of the tokens (Tokens)
-- Arch            arch/arch.c: ct_arch_register, _detect, _by_id, _count, _register_builtins, with the
--                 tables of arch/deepseek4.c, arch/kimi_k3.c and arch/glm_5_2.c
--
-- State is a record that each operation takes and returns. The name of an operation is the function's
-- without the prefix ct_ or that of its module. Integers are natural numbers with the wrap-around of
-- their width written out. A pointer that the code compares with NULL is an Option, except the handle of a module, which
-- is not null. What the system answers (the clock, the disk, stdio) is an argument. Memory is always
-- given, where a definition does not say otherwise, and its release is not modelled. Floats are an
-- abstract type with operations and no laws; that `<` is a strict weak order (no NaN takes part) is a
-- named hypothesis where a theorem needs it.
--
-- Fuel: the replay and counting loops have as many rounds as the file has bytes, since each round
-- takes one at least; the eviction loop has cache_count, since each round lowers it; the compression
-- loop has n_tokens, since each round passes one; the loop of a new budget ends after two rounds,
-- since the first evicts all that the second would; the loop over token identifiers has as many as
-- the text has bytes, since each round takes one.
--
-- Not modelled: sockets, the JSON texts of answers, console output, the floating-point kernels of the transformer, detection of
-- hardware, and the parts of the program that no file below names.
pub mod Base
pub mod Core
pub mod KvCache
pub mod Speculative
pub mod Streaming
pub mod Wvs
pub mod Awm
pub mod Gguf
pub mod Server
pub mod Arch

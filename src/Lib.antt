-- ===== src/Lib.antt =====
-- MyPalace, a memory service for assistants: the parts of mypalace/ that decide who may do what, how
-- often, which jobs are run, and what a memory call leaves behind.
--
-- A request passes the auth middleware and the rate limiter, runs as an AuthContext with a current
-- tenant, and calls the services; slow work is put in a job table from which workers claim it, and
-- what a call has changed is published to the subscribers of its tenant. The embedder and the context
-- routes read through a cache in Redis, names through a cache of the process; a backup stores what an
-- export of a tenant gives.
--
-- The parts, their files and their sources:
--   Auth/Scopes        mypalace/auth/scopes.py: SCOPE_RULES, PUBLIC_PATHS, is_public, required_scope
--   Auth/Tenant        mypalace/auth/tenant.py and is_valid_schema_name of mypalace/tenancy.py
--   Auth/Context       mypalace/auth/context.py: AuthContext, require, resolve_tenant
--   Auth/Keys          mypalace/auth/key_service.py and usage.py: create_key, lookup, revoke,
--                      bootstrap_if_needed
--   Auth/Middleware    mypalace/auth/middleware.py: AuthMiddleware.dispatch
--   RateLimit          mypalace/ratelimit: RateLimiter.check, _bucket_for, the middleware's dispatch
--   Jobs               mypalace/workers/queue.py and job_service.py: the statements on the job table
--   Jobs/Runner        mypalace/workers/runner.py: process_one, run; register_handler of handlers.py
--   Jobs/World         several workers over one table, and the requests whose tasks (run_async of
--                      job_service.py) end rows of it themselves, deaths included, as a step relation
--   Memory             mypalace/memory_service.py: the state, and the actions a method is built from
--   Memory/Write       create, update, delete
--   Memory/Sweep       delete_for_user, cleanup_expired
--   Memory/Read        get, search, list_for_user, list_filtered
--   Sessions           mypalace/session_service.py: sessions and their messages
--   Intentions         mypalace/intentions: the triggers, and set, check, delete, cleanup_expired
--   Ingestion          mypalace/retrieval/ingestion.py: _check_contradiction, dedup_and_write,
--                      supersede_memory
--   Personality        mypalace/personality_service.py: the traits, evaluate_and_apply
--   Retrieval          mypalace/retrieval/layered.py: _enforce_char_budget; the recent messages of
--                      assemble (Recent), _fetch_graph_context (Graph)
--   Arcs               mypalace/arc_service.py: get_active, create, update, synthesize_narratives;
--                      strip_json_fences of _llm_utils.py
--   Vch                mypalace/vch_service.py: the two statements, search, format_for_context
--   Portability        mypalace/api/portability.py: _row_to_dict, _stream_export, _coerce_timestamps,
--                      _ingest_records
--   Backup             mypalace/workers/backup.py: backup_tenant, prune_old_backups, run_once
--   Dynamics           mypalace/dynamics: the FSRS formulas of fsrs.py over a record of float
--                      operations; ensure_dynamics, promote, demote, score of service.py
--   Entities           mypalace/entity_service.py: the table of names with its cache
--   Topics             mypalace/topic_service.py: _validate_topics, _dedupe_topics,
--                      extract_and_store, get_recurrence, compute_topic_pattern
--   Cache              mypalace/cache: get, set, the invalidations, cached_call with _to_jsonable
--   Embeddings         mypalace/embeddings.py: CachedEmbedder.embed over that cache
--   Memory/Reembed     _reembed_handler of mypalace/workers/handlers.py
--   Grpc               mypalace/grpc/auth_interceptor.py: RPC_SCOPE, intercept_service
--   Events             mypalace/events/broker.py: publish, subscribe, _forward_redis
--   Common             lists, texts, Boolean tests, results, association lists
--
-- How the code is read. A table is the list of its rows in the order of their insertion, and an SQL
-- statement is the function of the rows that it denotes; a method takes the state and gives its
-- result with the state that it leaves, also when it raises. `FOR UPDATE SKIP LOCKED` is a predicate
-- of the rows that another transaction has locked. Paths, methods and key texts are lists of code
-- points; other texts are strings. Times and scores are natural numbers: seconds, and microseconds in
-- the rate limiter; the scores of Dynamics and Topics are floats. What a call draws from its surroundings (clocks, random texts, new ids, the salt)
-- is a record `Env`.
--
-- Parameters. bcrypt, Redis, the embedder with the vector store, the language model, SQLModel,
-- `re.search`, `isoformat`, `fromisoformat`, `json.loads` and `json.dumps` are not in this repository: the definitions take a record
-- of their operations, with the documented behaviour that the theorems need as its laws. A call that
-- raises gives `none`. The Tests modules have an instance of each. Floats are a parameter too: a type
-- with its operations, of which only the order of decimals and the asymmetry of `<` are used.
--
-- Bounds. `delete_chunks` runs on the number of ids as fuel; a chunk takes at least one id, so that
-- this is enough, and the theorems on it hold with that fuel. The pages of a re-embedding run on one
-- round more than there are rows; each page but the last takes a row. The worker's loop is a run over
-- the list of its turns, each with the times of its claim and of its handler's end, the rows that
-- arrive before it and the number of the handler's call, which may end differently each time; its
-- theorems hold for every such list. A new id is one that no row has had. Python integers do not wrap around, and neither do those here.
--
-- Not modelled: logging and metrics, the HTTP routers and the servicers of gRPC, which parse requests
-- and call the services, the clients of the databases and of the language model, the migrations, the
-- client library, and the services of episodes, emotions and the graph. Of the worker's handlers only
-- the one that re-embeds is modelled; another handler is what it comes to. Of assemble only the parts
-- named above are modelled, and of an import not the vectors that follow it.
pub mod Common
pub mod Auth
pub mod RateLimit
pub mod Jobs
pub mod Memory
pub mod Events
pub mod Ingestion
pub mod Intentions
pub mod Personality
pub mod Retrieval
pub mod Sessions
pub mod Dynamics
pub mod Entities
pub mod Grpc
pub mod Cache
pub mod Embeddings
pub mod Topics
pub mod Arcs
pub mod Vch
pub mod Backup
pub mod Portability

-- ===== src/Lib.antt =====
-- Verification library of DefectSense (FORGE), the multi-signal inspection of wheel assemblies.
--
-- The program. A station sends the torque-angle curves of a unit's fasteners and the results of its
-- geometric verifiers. The verdict graph (src/forge/agents/graph.py) gates them by length, lets three
-- specialists work at once (vision, process, context), reconciles their signals into one verdict
-- (src/forge/domain/adjudication.py) and prices what to do about a unit that did not pass
-- (src/forge/domain/cost.py); an inspection service (src/forge/application/usecases/inspect.py) does
-- the same in one function. The process specialist measures the shape of each curve and scores it
-- against a baseline (src/forge/domain/torque.py). Language models are asked through
-- chains of providers with a cache and circuit breakers (src/forge/infrastructure/llm/service.py,
-- src/forge/infrastructure/resilience/breaker.py), and requests to the HTTP service through
-- a sliding-window rate limiter (apps/api/ratelimit.py) and the gates of a permission matrix
-- (src/forge/infrastructure/auth.py, apps/api/security.py). Verdicts are stored, cached, listed and
-- streamed to the clients by apps/api/main.py.
--
-- The modules.
--   Prelude    library names passed on; Boolean tests, lists over native numbers, signed integers,
--              and Python's filter, max and stable sorted
--   Dict       Python's dict with text keys, an association list in insertion order
--   Float      Python's float as an interface of operations with its laws, and an instance
--   Enums      src/forge/domain/enums.py
--   Torque     src/forge/domain/torque.py: Curve (`TorqueAngleCurve.__post_init__`), Fit
--              (`_PrefixSums`, `extract_features`), Score (`_deviation`, `score_signature`), Classify
--              (`classify`), Learn (`from_clean_runs`, and that the generic learner agrees); Returns,
--              Knee and Bounds hold the theorems
--   Signals    src/forge/domain/signals.py, the same analysis for a series of any channel: the data and
--              `SignalSeries.__post_init__` in Signals, Extractors and Spectral (one function for each
--              extractor), Extract (`extract`), Learn (`from_clean_runs`), Score (`score_features`).
--              Its fits are those of Torque.Fit, whose text it repeats; Physics compares the two modules
--              on one sweep, and Keys, Namespace, Bounds and Baseline hold the other theorems
--   Adjudication  src/forge/domain/adjudication.py: `adjudicate` and `needs_human`
--   Cost       src/forge/domain/cost.py: `triage` and what it is made of
--   Breaker    `CircuitBreaker`: one function for each method, and runs of events in Breaker.Run
--   RateLimit  `SlidingWindowLimiter`: `check`, `prune`, `reset` (here `clear`), `tracked_subjects`; the
--              middleware around it (`dispatch`, `_decide`, `_env_flag`, `_anon_limit`) in Middleware;
--              Timed, History, Window, Pruning, Moves and Admission hold the theorems
--   Provenance src/forge/domain/provenance.py: the attribution of a value and its validators
--   Graph      src/forge/agents/graph.py and the records of src/forge/domain/state.py: the data and the
--              reducers in Graph, the first four nodes in Nodes, the adjudicator, the triage node and
--              the whole run in Run; Order, Total, Outcome and Decisions hold the theorems
--   Inspect    src/forge/application/usecases/inspect.py: the gate, `_adjudicate` (here
--              `service_adjudicate`) and `inspect` of the inspection service; Agreement compares it
--              with the graph, Shipping is about the units it passes
--   Llm        the language model service: its data and configuration in Llm
--              (src/forge/application/ports/llm.py, src/forge/infrastructure/llm/config.py, with `load`
--              in Llm.Loading), the adapters in Llm.Adapters (openai_compat.py, fake.py), and from
--              service.py the response cache in Llm.Cache, `_run_chain` with the registry of breakers
--              in Llm.Chain, `generate`, probing and availability in Llm.Service; the other modules
--              hold the theorems
--   Store      src/forge/infrastructure/persistence: the projections in Store, memory.py in Store.Memory,
--              filestore.py and `open_storage` in Store.Files; Bounded, Documents, Agreement, Alike and
--              Logs hold the theorems
--   Auth       src/forge/infrastructure/auth.py: the permission matrix in Auth, the accounts in
--              Auth.Accounts, the tokens in Auth.Tokens; the route gates, the station scope and the
--              websocket handshake of apps/api/security.py in Auth.Gates; login, refresh and register of
--              apps/api/routers/auth.py in Auth.Routes; Matrix and Login hold the theorems
--   Api        apps/api/main.py and apps/api/routers/defects.py: the records of the process, the two
--              OrderedDict caches and the rendering of a view in Api; the reads (`_resolve_view`,
--              `_visible_views`, `list_inspections`, `get_inspection`, `metrics`) in Views;
--              `create_inspection` up to the run in Creation, and what follows a run there,
--              `_narrate_and_publish` and `assign_defect` in Writes;
--              `broadcast` and the route `/ws/live` in Feed. Caches, Coherent, Publish and History hold
--              the invariant of the caches, Page and Reads compare with the store, Scope is about who
--              sees what, Custody about reads after writes, Passed
--              and Created about the units that are created, Delivery and Live about the feed;
--              Repository fills the interface with the repository of Store.Memory
--   The module Examples of each has runs at concrete inputs.
--
-- How the code is read.
--   A method that changes its object takes the object and returns the new one. An exception is `none`,
--   or a constructor where the program tells errors apart (`refused` is CircuitOpenError, and
--   `TorqueCurveError` has one constructor for each of its messages). A text that is made for display
--   is left out, or is the choice of its template with the values put into it (`Reason`,
--   `HumanReason`, `SpanError`). Node updates are records in which a key that a node leaves out is
--   `none`; `apply` is LangGraph's write with the reducers that the state declares.
--   Floats are an interface (`Float`), since no type here is IEEE binary64. The theorems on bounds,
--   order and totality hold for every instance that meets the laws `IsOrdered`: a total order,
--   operations that keep it, and literals that keep their order. These hold of finite binary64 values
--   without overflow; NaN, infinities and overflow are outside the model, and `math.isfinite` is an
--   argument of the check of a curve. The instance `Float.Fixed`, in units of 1e-12, meets the laws and is
--   the one in which the examples run.
--   A division by what the code computes is `divide`, which raises for 0: in the fit, the scoring and the
--   classification of torque.py, and in the extractors of signals.py. The quotient of the interface
--   stands where the divisor is a literal, a number of at least 2 runs or of views, or the tolerance that
--   `score_features` has just found not to be 0.
--   The functions of `math` that the extractors use, `int` of a float and `str` of a number are the
--   record `Library`, of which no theorem assumes anything; their OverflowError is outside the model, so
--   nothing is said of whether an extractor of signals.py raises. A dict of extractors is a `Dict` of
--   functions, and a set of keys the list of its elements.
--   Times are natural numbers of clock ticks. The breaker reads its clock as often as the code does;
--   the limiter turns ticks into seconds with the argument `second`, rounding up.
--   The libraries jwt and argon2 are the records `Jwt` and `Crypto`, with `str.strip` and `str.lower`;
--   what jwt documents of reading a token back, from its issue on, is the hypothesis `IsJwt`. The
--   handshake of a websocket takes the resolving of a token as an argument.
--   A rounding to three decimals for storage is the argument `round3` of a run.
--   The answers of a language model provider, the clocks, the text of the fake adapter, exception texts
--   and the hash of the cache keys are the record `World`; requests are served one at a time, so that
--   nothing else touches a breaker between a call and the report of its outcome.
--   An exception that the chain does not catch, as the TypeError of a body of another shape, ends a walk
--   along the chains: the flag `escaped` of a `Stage`.
--   The routes take a repository (`InspectionRepository`) with the laws `IsRepository`, which allow one
--   that drops records; a handler is one step in which a save succeeds, and messages that it sends are values that it returns.
--   The set of subscribers is a dict by a name for each connection. Python's `round` is an argument.
--   `generate_wheel` draws from a random generator: its curves are a function that is an argument. So are
--   `int` of a text and the resolving of a token for the limiter's middleware.
--   A file is what is read from it, or cannot be parsed; an atomic write is one step; which characters
--   `str.isalnum` admits is an argument of the file names.
--
-- Loops and bounds. All loops are structural recursions over the lists they walk, the sweep over the
-- breakpoints over the number of candidates that are left; there is no fuel.
--
-- Interactions. The updates of the three parallel specialists are applied in an order that the
-- framework chooses: it is the argument `Arrival` of a run. The shared object `InspectionInputs` is
-- handed from node to node; of the parallel ones only the process specialist writes to it.
--
-- Not modelled: the narrative step, which a verdict does not depend on; the loading of accounts from
-- Mongo; the shapes of the synthetic curves, which are drawn at random, and the other HTTP
-- routes; the Mongo adapters; notification by mail and chat; the sensitivity sweep
-- of the cost engine; RAG, data generators, operations scripts and the web client.
pub mod Provenance
pub mod Prelude
pub mod Dict
pub mod Enums
pub mod Float
pub mod Torque
pub mod Api
pub mod Adjudication
pub mod Cost
pub mod Breaker
pub mod RateLimit
pub mod Graph
pub mod Auth
pub mod Inspect
pub mod Llm
pub mod Store
pub mod Signals

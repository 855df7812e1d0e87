-- ===== src/Lib.antt =====
-- The governed MCP boundary of this repository, as pure functions, with the theorems that hold of it.
--
-- Parts and files. Paths are from the repository's root.
-- - Lifecycle, in Lifecycle/: packages/dagr-mcp-core/src/dagr_mcp_core/lifecycle/{contract,models,core}.py.
--   The vocabularies are data types with one more constructor for a text outside them; each function of
--   core.py is the function of the same name in Lifecycle/Plan, in pieces named for their branches.
-- - Continuation: dagr_mcp_continuation/__init__.py. A constructor with its `__post_init__` is a
--   function that returns or raises; `new_identity` is `ContinuationIdentity(...)`.
-- - Review, in Review/: what dagr_mcp/tool_call_disposition.py checks of a decision, with the two
--   normalizers of dagr_mcp/sdk_spine.py.
-- - Spine, in Spine/: the review objects of dagr_mcp/sdk_spine.py and `InMemoryReviewObjectSink`. The
--   dicts are association lists; an operation gives its result and the sink after it, and a run is a
--   list of operations. It normalizes decisions with Review.
-- - Deferred, in Deferred/: dagr_mcp/deferred_boundary.py. The store is an association list from
--   references to slots; the objects around the boundary are functions of what they were asked before,
--   and what they were asked is kept in `Effects`. `defer_call` and `resume_call` are the two
--   operations; Deferred/Run has their runs as a step relation. One call is one step, as the locks of
--   the code make it. The boundary uses Review for the decision that a resume presents.
-- - Receipts, in Receipts/: packages/dagr-mcp-core/src/dagr_mcp_core/srs_receipts.py. An envelope is a
--   dictionary with text keys, the sink's directory a list of named envelopes.
-- - Access, in Access/: dagr_mcp_service/access.py. Access/Source reads the directory that the sink of
--   Receipts leaves; Access/Resolve resolves one handle and Access/Compose two. Access/Roundtrip
--   composes it with the emitter of Receipts; Access/Required, Untupled, Trusted and Reread say what an
--   emitted envelope passes; Access/Chosen and Fits, which receipts a composition may hold.
-- - Governed, in Governed/: packages/dagr-mcp-core/src/dagr_mcp_core/lifecycle/governed_action.py. It
--   plans with Lifecycle and emits with Receipts; `RunState` keeps the files and the executor's calls.
-- - Harness, in Harness/: dagr_mcp/enforcement_harness.py. What the sinks, the bridge and the inner
--   handler are asked, and what they answer, is a history; each of them answers by that history, so it
--   may keep a state and fail at any call. `wrapped` is the handler that `wrap_handler` returns, in
--   pieces named for its branches; the code that runs between two calls changes the context. Harness/Quiet
--   and Harness/Silent say which pieces do not call the inner handler, Harness/Protocol what the order of
--   the calls should be. The gate uses Deferred for the check of a gate timeout.
-- - Python, in Python/: dynamic values, and what the code uses of `str`, `dict`
--   and `base64`. Prelude: results, Boolean tests, and the lemmas that all parts share.
--
-- Parameters. RFC 8785 canonicalization (which can refuse a value), SHA-256 and Ed25519 are functions
-- that a section or a record is given, without hypotheses; so are the payload digest
-- that the boundary of Deferred is given, which is total there, the file system's acceptance of a file,
-- the sinks, the bridge, the inner handler, the executor, the clock and the identifiers. Harness has
-- `stable_payload_hash` itself, over a `json.dumps` and an encoding that may raise. Only what
-- Harness/Total proves asks more: that the arguments have a payload hash, and what Harness/Orderly says
-- of the collaborators: which exceptions they may raise, and that returned values have a payload hash. Access/Roundtrip has
-- hypotheses on the libraries: that JSON reads back what it wrote, with the keys sorted; that the
-- canonical bytes do not depend on the order of the keys; and that a signature verifies under its
-- signer's key. `==` on a float, `str` of a value that is no text, `json.loads` and
-- `datetime.fromisoformat` are functions of a record, without hypotheses elsewhere.
--
-- Bounds. All recursion is structural, so there is no fuel. Numbers are unbounded, as in Python; times
-- are in microseconds, and a float is never computed with.
--
-- Not modelled. The text of messages, locks, file modes and temporary files, and the
-- objects that another thread, or a collaborator that is given the context, could change between two
-- lines of one call. A mapping is taken to have text keys, each once.
pub mod Prelude
pub mod Python
pub mod Lifecycle
pub mod Continuation
pub mod Review
pub mod Spine
pub mod Deferred
pub mod Receipts
pub mod Access
pub mod Governed
pub mod Harness

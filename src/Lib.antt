-- ===== src/Lib.antt =====
-- Keychute: a broker that keeps credentials and releases them to agents under a human's approval or
-- a standing policy (README.md, docs/DESIGN.md).
--
-- The parts and their files:
--   Types     types/src/lib.rs: tiers, mechanisms, origins, constraints, states of a request.
--   Paths     types/src/paths.rs: canonicalize and prefix_matches, on the bytes of a path. Canonical
--             and Prefix are its proofs.
--   SigV4     server/src/sigv4.rs: the validators and the encoding of the wire path.
--   Policy    server/src/policy/mod.rs: evaluate and all it calls, row by row. Vocabulary is the
--             methods and outcomes that rows are written in. Scope relates a row and a request to single
--             calls, Release says what an unattended release needs, and Rows compares tables.
--   Store     server/src/db/: the tables as lists, newest row first. Store/Grants, Store/Requests,
--             Store/Secrets and Store/Approvals have a function for each transaction of grants.rs,
--             requests.rs, secrets.rs, ui_ext.rs and api_ext.rs. Store/Steps takes them as the steps
--             of the whole database.
--             Store/Pushes has the outbox of push messages, Store/Policies the stored policy rows, and
--             Store/Provision the reconciliation of policies that provision.rs does at a start.
--   Api       server/src/api/: the handlers of requests.rs, grants.rs and secrets.rs. Api/Validation
--             checks a request, Api/Inputs reads stored rows into the engine's, Api/Decide turns a
--             decision into the insertion's arguments, Api/Create is create and status, Api/Wait the
--             long poll, Api/Grants info and read, and Api/Deposit the deposit of a secret. Api/Slots
--             is the slots of server/src/state.rs.
--   Proxy     server/src/proxy.rs and server/src/injection.rs. Proxy/Headers is the header filters,
--             Proxy/Injection the placing of a credential, Proxy/Template the validation of a stored
--             template, Proxy/Target the checks on a call, Proxy/Placed the URL and the injected
--             headers, and Proxy/Handle the handler with its accounting and forwarding.
--   Crypto    server/src/crypto/mod.rs: sealing, opening and rewrapping under the keyset, and its MACs.
--   Ui        server/src/ui/: Ui/Csrf is csrf.rs; of mod.rs, Ui/Forms reads the fields and markers of
--             a form, Ui/Terms is the guards and the narrowing of approve, Ui/Choice and Ui/Substitute
--             the secret that it releases, Ui/Approve the handler, and Ui/Resolve deny and revoke.
--   Cli       cli/src/curl.rs: Cli/Options is validate_grant_options, Cli/Constraints
--             constraints_for, Cli/Preflight check_grant_covers and the request that proxy_call
--             sends, Cli/Body read_body_with, Cli/Key call_bound_idempotency_key, and Cli/Request
--             what acquire_grant posts. An error has its exit code, not its message.
--   Between   How a handler of either runs over time.
--   Prelude   Tests on numbers, lists, byte strings, results and orders.
--   Tests     Runs of the definitions on concrete data.
--
-- How the code is read. A text is the list of its bytes. Times are microseconds, and `now` is an
-- argument, because a transaction reads one clock. A transaction is a function from the database to
-- an outcome and the database it commits; one that rolls back gives the database it was given, or an
-- error. The transactions of the code take row locks and advisory locks so that they are atomic; the
-- locks are not modelled, and interleavings are sequences of whole transactions. Identifiers that the
-- database or the caller draws, and the sealed payloads of the encryption, are arguments; sealing may
-- fail. A constraint of the schema (migrations/) that an insertion can hit is written out in the
-- insertion. Tags of a secret are in the order of insertion, where the queries sort them. The loops are
-- structural recursion, but for the long poll, which runs on fuel: a round for each second of its
-- timeout and for each notification is enough (Api.Wait.Ends).
--
-- A handler is a sequence of accesses. Before its k-th access other requests have changed the database
-- by `others k`, an arbitrary function, or in the theorems one that the store's steps reach; the k-th
-- access reads the time `clock k`. The decoded body, the authenticated client, the ids that are drawn,
-- the policy table that `list_policies` returned, the opened payloads and whether a push was sent are
-- given to it. A connection that fails in the middle of a handler, the locks of a process around the
-- pushes, and the wake-up of waiting clients are left out.
--
-- The AEAD, HMAC, SHA-256, base64, the URL parser and the HTTP client's test of a method are packages,
-- and are arguments; what the theorems need of them is a hypothesis (IsAead, PrintsIds, Encodes,
-- AcceptsTokens), and so is that random bytes fill their arrays.
--
-- Not modelled: HTTP and HTML, the signatures of SigV4, authentication, the configuration, the forms
-- that edit policies and secrets, the deadline and the response stream of the proxy, the sweep of the
-- notifier, and the command line but for what `keychute curl` decides.
pub mod Api
pub mod Between
pub mod Cli
pub mod Crypto
pub mod Paths
pub mod Policy
pub mod Prelude
pub mod Proxy
pub mod SigV4
pub mod Store
pub mod Tests
pub mod Types
pub mod Ui

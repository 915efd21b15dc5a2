-- ===== src/Lib.antt =====
-- Auditable MCP SDK (Python): the host that seals a tool's audit events into a hash chain, and the
-- verifier of such a chain.
--
-- A tool sends the host an event before it acts (an attempt) and after (an outcome). The host checks
-- the event (src/auditable_mcp/models.py, host.py), seals it as the next record of its partition's
-- ledger (ledger.py, hashing.py, canonical.py), has the record countersigned and stored
-- (storage/memory.py), and answers with the fields that it assigned. A verifier (verify.py) reads the
-- records and reports what is out of order. Before any of it, tool and host compare what they declare
-- (capability.py) and the tool chooses what to do with a call that does not fit (degradation.py); the
-- host may compare the ledger with the egress it saw itself (l2/reconcile.py). The tool's session
-- (session.py) sends the events and acts only on an accept that it checked; at Level 2 it signs them
-- with keys that the host knows from a registry (l2/signing.py, verification.py, keys.py, jwk.py).
-- Between the two, the MCP binding carries the events of a tools/call over the messages of the MCP
-- session (mcp/seam.py), once each side has declared what it offers (mcp/declaration.py). All paths
-- below are under src/auditable_mcp/.
--
-- Base: helpers. Strings are lists of code points; a Python set is a list without repetition, a dict
--   an association list in insertion order; Result is a value or the exception that a call raises.
-- Json: the JSON-compatible values that events are made of; an object keeps its members in order.
-- Fields, Reasons: fields.py and reasons.py.
-- Canonical, Hashing: canonical.py and hashing.py. `rfc8785.dumps` and SHA-256 are the parameter
--   `Jcs`; what is asked of them is a named hypothesis where a theorem needs any (IsBinding in
--   Verify/Tamper).
-- Models: models.py. Models/Pattern has the regular expressions and a matcher that computes the
--   suffixes which a pattern leaves; what `\d` matches is a parameter, since engines differ in it.
--   Models/Event has the event models as tables of members, `is_audit_event` for
--   `first_validation_error` and `is_sealed_event` for `first_sealed_validation_error`. Models/Message
--   reads the capability, the attempt response and the request metadata from JSON.
-- Ledger: ledger.py, `seal`, `commit`, `append`, `resume_from`, with the stored form in Ledger/Wire
--   and the chain that a ledger keeps in Ledger/Chain.
-- Storage: storage/memory.py, the repository of the SDK, with its laws in Storage/Laws.
-- Capability, Degradation: capability.py and degradation.py.
-- Reconcile: l2/reconcile.py.
-- Host: host.py. Host/State has the state of an `AuditHost` and the steps on it alone. Host/World has
--   what the host calls: the clock, the verifier, the countersigner and the store, each a function of
--   a world's state that a call may change, and the monad of a method that returns or raises and
--   leaves a host and a world. Host/Checks is `_admit`, `_session_of`, `_verify_signature` and
--   `_check_replay`; Host/Sealing is `_seal`, `_settle_tail` and `_adopt`; Host/Attempt and
--   Host/Outcome are `handle_attempt` and `record_outcome` with one function for each part of the
--   body that follows a call; Host/Lifecycle is the constructor, `open_session`, `close_session` and
--   `resume`. Each call is one step, since the program holds the partition's lock for it. Host/Triple
--   has the rules for what a method ensures, Host/Untouched the steps that leave the ledger, Host/Core
--   those that leave the ledger and the sealed attempts, Host/Frame what every event keeps if settling
--   and sealing keep it; Host/Seals, Host/Chain and Host/Hashed apply it to the chain and to the hashes of
--   the attempts that are kept; Host/Kept, Host/Accepts and Host/Bound are about what stands behind an
--   accept, Host/Sessions about the life of a session.
-- Verify: verify.py. Verify/Report has the report and the arguments, Verify/Record the checks of one
--   record, Verify/Accounting the accounting of signer numbers, Verify itself `verify_chain` and
--   `verify_ledger`; Verify/Round and Verify/Intact compare the issues with the chain that the records
--   form, Verify/Totality is about when a verification returns, Verify/Runs about the accounting and
--   the numbers that are missing, and Verify/Tamper about two ledgers under one digest.
-- Encoding: encoding.py, with base64 written out for its two alphabets; SaltedHash: salted_hash.py, over
--   a record of the packages that it calls.
-- Tool: session.py, the tool's side. Tool/World has what a session calls, each call a function of a
--   world's state that returns or raises, and the methods, which move `next_signer_seq` besides;
--   Tool/Session the constructors, Tool/Emission the numbering and the events, Tool/Entry `__aenter__`
--   with one function for each part of the body that follows a call, Tool/Lifecycle `__aexit__` and an
--   action around its code. Tool/Clearance and Tool/Audited say what stands behind the end of an
--   entry, Tool/Outcomes which outcome a recording sends,
--   Tool/Aborts what is recorded and raised at the end of an action, Tool/Recorded, Tool/Numbered and Tool/Sequence are about the
--   numbers on the events, seen by a transport that also lists what it was given.
-- Keys: l2/algorithms.py, l2/keys.py (Keys/Registry) and l2/jwk.py (Keys/Jwk), with big-endian integers
--   in Keys/Words; Keys/RoundTrip is about JWKs and Keys/Forward about what a registry never loses.
-- Signatures: l2/signing.py and l2/verification.py. The package `cryptography` is the parameter
--   `Crypto` of Keys.
-- InProcess: in_process.py. The world of a session is the host beside what both call, and the transport
--   is a call of the host; InProcess/Recorded puts the tool's and the host's theorems together.
-- Declaration: mcp/declaration.py, on JSON objects; Declaration/RoundTrip reads a declaration back.
-- Seam: mcp/seam.py, the tool's side. Seam/Token has the tokens of rounds and Seam/Frame the messages;
--   Seam/State the state of `McpAuditTransport`, in which an object that several tables share is named
--   by a number, and the fields that are assigned later stand in a map under that number. Seam/Call is
--   how calls end and sessions are released, kept idle and evicted; Seam/Round the rounds, retries and
--   final frames; Seam/Arrival `_inbound`, Seam/Answer `_outbound` and `_on_close`; Seam/Exchange what
--   a handler calls, with `_send_attempt` cut in two at its wait. Seam/Run takes the steps in any
--   order: messages, tasks, calls and ends of waits. A section between two waits is one step; a handler's
--   call is a step on any call at all, so what holds of runs does not rest on who makes it. The texts
--   of the random generator are arguments. Seam/Run/Kept and Seam/Run/Steps carry a property through
--   every operation and step; Bounded, Guarantees, Replay, Closing and Ended apply them.
--   Seam/Negotiation is about `McpAuditCall.negotiate`.
-- Receiver: mcp/seam.py, of the host's side: the events that a result carries, how `_work_until` takes
--   them up, and the responses of the retry in `_follow`. The deadline is how many items are taken up
--   before it and whether the last is still in progress then; the endpoint and the call's session are
--   a function of a state. Receiver/Worked is about the order and the answers,
--   Receiver/Hidden about what the caller of the host is shown.
-- Tests: concrete records, ledgers and hosts, and a stand-in for the canonical form.
--
-- Every loop of the code is over a finite list and is structural recursion here, but the two loops of
-- mcp/seam.py that evict entries: their fuel is the number of entries, since each round takes one out.
-- Numbers: a Python int is unbounded, so a position is a natural number and a JSON integer has a sign.
-- A float is kept as far as the code looks at it: not a number, infinite, integral, or a fraction.
--
-- Not modelled: the texts of messages (a constructor with the values they show stands for each), the
-- log, the protocols' dynamic types beyond the tests that the code makes, and the validation of an
-- accept by its own model when the host builds it. Of the MCP binding, the lanes and
-- the held calls of `McpAuditReceiver` (mcp/seam.py) and mcp/http.py are not modelled, nor are the
-- streams and the context that a task runs in. The decorator (decorator.py), the clock (clock.py), the
-- AWS KMS adapter (l2/adapters), key generation and storage (PKCS#8) and JWK thumbprints are outside
-- this library: they are calls of packages.
pub mod Base
pub mod Json
pub mod Fields
pub mod Canonical
pub mod Hashing
pub mod Ledger
pub mod Reasons
pub mod Models
pub mod Capability
pub mod Declaration
pub mod Degradation
pub mod Storage
pub mod Reconcile
pub mod Verify
pub mod Host
pub mod Encoding
pub mod SaltedHash
pub mod Tool
pub mod InProcess
pub mod Keys
pub mod Signatures
pub mod Seam
pub mod Receiver
pub mod Tests

-- ===== src/Lib.antt =====
-- SurakshaSetu's orchestrator: the decisions that a turn of the insurance advisor takes.
--
-- The paths below are from the repository's root; `$` is orchestrator/src/surakshasetu.
--
-- The program. A customer's message is analysed, routed to a handler or to the node of the session's
-- state, and turned into facts; `decide` gives the facts to a pure state machine, which names the
-- next state and the row that moved it; the session, its stack of frames and its counters follow, and
-- each step is appended to the session's hash chain, which a daily Merkle root anchors.
--
-- Fsm (`$`/fsm). Fsm/States is states.py, Fsm/Facts is facts.py, Fsm/Rows is rows.py and
-- Fsm/Transition is transition.py, function by function. `transition` calls itself once, when a pause
-- resumes; in the model that call is on fuel 2 (`transition_within`), and `transition-Settles` shows
-- that it is enough except for a session that claims to be paused from PAUSE or from a state that no
-- pause leaves. Fsm/Order, Fsm/Safety, Fsm/Handoff, Fsm/Priority and Fsm/Depth hold what is shown of
-- it. A profile sufficiency is a double of 0 or more: it is modelled by its multiple of 2^-1074,
-- which keeps the order.
--
-- Turn (`$`/graph). Turn/State has the fields of `SessionState` and of the domain records that a
-- decision reads, Turn/Facts is facts.py, Turn/Router is `turn_router` of nodes.py with
-- handlers/safety.py, and Turn/Decide is `decide` and `after_decide`. The signals that a state's node
-- sets are a data type, one constructor for each field that some node sets. Turn/Aside is about the
-- FAQ and the objection row, and Turn/Stack about the frames that a pause leaves.
--
-- Screening (`$`/graph/states/s1.py). The screen that S1, Quote-Only and S2 share: Screening/State
-- is its state, Screening/Take takes answers, Screening/Prompt puts prompts, Screening/Respond is
-- `Screen.respond`, and Screening/Evaluate is the S1 node with the engine's decision and the V4
-- correction. A step is a function from the screen to a result and a screen; a `DomainError` is a
-- result, and the screen keeps what was written before it. Screening/Kept and Screening/Keeps are
-- the rule by which a property of the written rows is an invariant of a turn; Screening/Written,
-- Screening/Ready and Screening/Corrected use it. How a value is understood from its text, the
-- lexicons and the texts of the prompts are parameters. A `DomainError` is the tier being down or a
-- 5xx: a 4xx, which `outage` raises again, is not modelled.
--
-- Needs (`$`/graph/states/s2.py). The needs discovery is the screen of S1 with the methods that S2
-- overrides. Needs/Setup has its slots and the payload, Needs/Take the answers and the notes,
-- Needs/Prompt the prompts, the decision of the Suitability Service, the summary and `_bind`,
-- Needs/Respond the turn, Needs/Own the prompts of S2 alone, and Needs/Node the node, its entry and
-- the correction that S3 calls. The fields of the subclass, and the needs record with its result,
-- are fields of the one screen; the counter of difficulties is a field of its own. An amount is
-- kept as its number of rupees. A `DomainError` and `Unavailable` are one result; an error of the
-- class 4xx, which ends the turn, is not modelled. Needs/Kept, Needs/Keeps, Needs/Turns and
-- Needs/NodeKept are the rule for an invariant of the whole node; Needs/Current and Needs/Bound use
-- it. Needs/Payload says which slots the payload depends on, Needs/Confirmed what the confirmation
-- of all answers leaves, and Needs/Binds is about the summary and the yes to it. The hash, the
-- service, how a text is read and the labels of the bundle are parameters.
--
-- QuoteOnly (`$`/graph/states/quote_only.py). QuoteOnly/State has the session's plan and quote
-- beside the screen, and the services; QuoteOnly/Price is the plan and its quote, and
-- QuoteOnly/Node the node and its entry, over the screen's `respond` and `next`. QuoteOnly/Priced
-- and QuoteOnly/Named are about where the quote and the plan come from, and QuoteOnly/Withheld about a
-- declined tobacco answer. That the screen cannot be loaded is not modelled. The names in a text, the
-- catalog, the quote adapter and the disclosure registry are parameters.
--
-- Apply (`$`/graph/states/s3.py). The end of S3: Apply/State has the recommendation, what was
-- shown, the acknowledgments and the checks on them, and Apply/Node the choice of a plan, its
-- acknowledgment and the hand-off. Apply/Matching, Apply/Posted and Apply/Acks are about what an
-- intake rests on. The registry, the quote adapter and the application journey are parameters;
-- where the options are presented again, the step ends there. Of a `dict` of documents the three
-- kinds are fields.
--
-- Release (`$`/rails/output.py). Release/Context has the sentences, Release/Grounding the rails 6 and
-- 7 with the verification of claims, Release/Checks rail 8, and Release/Policy `release`, whose loop
-- runs over the attempts 1 and 2. Release/Origin states the policy as a relation, and Release/Released
-- and Release/Disclosed are about what is released. The regular expressions, the normalisation, the
-- recognisers, the hashes, the renderer and the gateway are parameters; the gateway may answer
-- otherwise at each attempt. An exception other than the verifier's being unavailable is not modelled.
--
-- Audit (`$`/audit). Audit/Chain is chain.py and Audit/Append its `append`; Audit/Merkle is the
-- tree of anchor.py and Audit/Anchor its `anchor_day`. SHA-256, the canonical JSON and the
-- encryption are parameters, and so is what the key service answers for a key; that a digest has 32
-- bytes is the one hypothesis on them. A theorem on
-- tampering ends in a collision of the hash where the rows differ. The database is the list of the
-- inserted rows, in their order; the lock that `append` takes is the transaction that it asks for.
-- The Merkle loop runs on fuel, as many rounds as there are leaves.
--
-- Crypto (`$`/crypto). Crypto/Envelope is envelope.py, and Crypto/Keys is the key service of keys.py,
-- whose table and cache are one state; Crypto/Shredding and Crypto/Due are about the destruction of
-- keys. AES-GCM is a parameter, with the hypothesis that it opens what it sealed; the random bytes and
-- the clock's readings are arguments.
--
-- Handlers (`$`/graph/handlers and `$`/jobs). Handlers/Objection is objection.py, and Handlers/Repeats
-- is about its counters; Handlers/Pause is pause.py, and Handlers/Resumed about what it leaves;
-- Handlers/Timers is one look of jobs/timers.py with the query of store/conv.py, whose table is a list
-- with the oldest activity first. The side query, S3's lower-cost versions, the domain services and
-- the timer turn are functions.
--
-- Erasure (`$`/graph/handlers/data_erasure.py). Erasure/Session is the node and the deletion,
-- Erasure/Sweep the sweep, with the key service of Crypto/Keys, and Erasure/Settled is about what the
-- sweep leaves, by Erasure/Left (the sessions), Erasure/KeysKept (the keys) and Erasure/Pending (the
-- withdrawals). A sweep reads the clock once. The SQL of the deletions and of the pending withdrawals
-- is modelled over lists of rows and of events; a failure of the database is not.
--
-- Retrieval (`$`/retrieval). Retrieval/Routing is `route` of routing.py; of gate.py, Retrieval/Gate is
-- the parents and the sufficiency gate, Retrieval/Select is `select`, whose loop runs on as much fuel
-- as there are chunks, and Retrieval/Quotas is about what it leaves.
--
-- Rails (`$`/rails/redact.py). Rails/Verhoeff is the Aadhaar checksum, over a parameter that reads
-- a decimal digit of any script, and Rails/Errors shows what it detects; Rails/Redact is `entities` and `redact` over the results of the analyzer, a library, and
-- Rails/Hidden is about what its outputs depend on. That a result ends where it begins or later is the
-- hypothesis on the analyzer, and that the value of a digit is below 10 that on the reading of digits.
--
-- Not modelled: the dialogue of S0, the presentation of S3, prompts and model calls, the HTTP interfaces, SQL,
-- vector search, the evaluation tools, the configuration, the Java domain services and the frontend.
-- They are I/O or text, or their place is not reached yet.
pub mod Prelude
pub mod Fsm
pub mod Turn
pub mod Screening
pub mod Audit
pub mod Apply
pub mod Crypto
pub mod Erasure
pub mod Handlers
pub mod Needs
pub mod QuoteOnly
pub mod Rails
pub mod Release
pub mod Retrieval

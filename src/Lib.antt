-- ===== src/Lib.antt =====
-- Codex Gateway: the admission of requests, their price, and who pays for them.
--
-- A request that a client sends is checked against its protocol, admitted by the limiter, forwarded to an upstream account that
-- the quota guard has not taken out of allocation, priced from its tokens, and paid for by the
-- group, the subscriptions and the cash of its user. The parts modelled are:
--
-- * internal/limit, in Limit. Limit/Types and Limit/Limiter are types.go and limiter.go, one
--   function per critical section of the mutex: `reserve_local`, `rollback_local`, `release`,
--   `snapshot`. Limit/Daily is daily.go, the store in memory. Limit/Admission is `Acquire` over any
--   `DailyStore`, and the step relation of the requests that run at once: each step is one critical
--   section, and between the reservation and the answer of the store any other may come.
--   Limit/Reserve and the children of Limit/Admission hold the proofs.
-- * internal/billing/amount.go, in Billing. Billing/Decimal is `parseBounded` and its callers on
--   lists of code points; Billing/Rounding is big.Rat as a fraction, `roundFixed` and
--   `scaledIntegerString`; Billing/Cost has the cost functions.
-- * The payment of internal/store/billing.go (`settleBillingTx`), billing_layers.go and
--   billing_funding.go, in Store/Funding. Types has the rows, Layers the choice of the layer that
--   pays, Sources the order of the sources, Settle the transaction. Amounts there are numbers of
--   10^-12 USD, the scale of the columns, on which `FloatString(12)` is exact.
-- * internal/store/upstream_quota_guard.go, in Store/Guard: the rule, and in Store/Guard/Row the row
--   with the transactions on it, of which Row/Settings has the change of the settings, and Row/Changes
--   puts all of them in sequences.
-- * internal/store/quota.go, in Store/Quota: the transactions on the counters, rate windows, leases
--   and reservations, and in Store/Quota/Transactions the sequences of them.
-- * internal/config/pricing.go, in Config/Pricing: the values, in Validate the checks of a catalogue and
--   of a stored snapshot, in Requested the tier that a request asks for, in Reason the reasons of a
--   fallback, in Select the choice of the
--   prices. Select/Order and Select/Larger are about `maxDecimal`, Select/Raise and Select/Maximum about
--   `componentMaximum`, Select/Published about what the checks grant, Select/Charges about a
--   published price that is charged as it is, Select/Total and Select/Decision about `Select`, and Select/Catalogue about a catalogue from its checks to a decision.
-- * internal/cpaprotocol/request.go, in Cpa. Cpa/Json has the documents and `Object`, Cpa/Read the
--   readers of members and `declaration`, Cpa/Gemini and Cpa/Gemini/Turns `GeminiRequest`,
--   Cpa/Responses and Cpa/Responses/Options `ResponsesRequest`, and
--   Cpa/Responses/Previous what a request that continues an earlier response is. Cpa/Gemini/Events is the meaning of a
--   conversation as steps on the set of open calls; Cpa/Gemini/Calls and Cpa/Gemini/Conversation hold
--   the proofs.
-- * internal/security/apikey.go and tokens.go, in Security: Encoding has what they take from the
--   standard library, ApiKey, Tokens and RecoveryCodes the formats.
--
-- The parts meet in the texts of amounts: the catalogue's prices are accepted by Billing/Decimal,
-- compared by their units, and charged by Billing/Cost; what is charged is settled in Store/Funding.
--
-- The database runs a transaction alone (its locks), so that a transaction is a function on rows; an
-- error of the driver rolls it back and is left out. Times are numbers of nanoseconds. int64 counts
-- are signed integers; the differences that the code takes are checked by it first, and the
-- overflow of the daily counter is modelled, as is that of the BIGINT columns of the request quotas. The one use of fuel is the printer of a number `n`,
-- which has `n + 1` for its digits; that it suffices is part of the print's round trip. time.Location
-- is a parameter: which day a time is on and when the next day starts.
--
-- encoding/json is a parameter too: of a catalogue the decoded document with the names of its fields,
-- of a stored snapshot what json.Marshal writes and what is read back, of a protocol's request the tree
-- of its tokens and the reading of its numbers. That json decodes what it has encoded, and that the keys
-- it writes are those of the struct's tags, are hypotheses.
--
-- Not modelled: the HTTP server, the proxy, the identity providers and the console, which are I/O
-- around these parts; plans and the admission side of the funding in internal/store; the environment
-- in internal/config; the audit columns that settlement writes beside the payment.
pub mod Base
pub mod Limit
pub mod Billing
pub mod Store
pub mod Config
pub mod Cpa
pub mod Security

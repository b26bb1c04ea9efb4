-- ===== src/Lib.antt =====
-- The backend of Pactum, which prepares on-chain agreements, as pure functions on a world: the
-- tables, the clock, the process's health, the connected clients and the answers of the outside.
--
-- Base holds what every module shares: Boolean tests, lists as tables, streams. State models the
-- rows of migrations/ (State/Rows), the health of src/state.rs (State/Health), the events pushed
-- to clients (State/Events), and the world with the small monad in which a handler runs
-- (State/World): a value `M A` is what the source writes as an async function into `Result<A,
-- AppError>`, a `?` is `◌>>=◌`, `transaction` is `begin` with `commit`, and a stream of faults
-- says which call of the database fails; `deliver` keeps what the mail provider was asked to send.
-- State/Keeps has the properties that a computation keeps. Error is src/error.rs; Config is
-- src/config.rs, with the reading of the environment in Config/Environment.
--
-- Services has modules named for the files of src/services/: Jwt, SolanaPay, Solana (with
-- src/solana_types.rs, its builders of instructions in Solana/Builders), Crypto, Notification,
-- Refund, ProgramLog, Hash, Storage, Metadata. Handlers has modules named for those of
-- src/handlers/: Auth (with src/middleware/), Payment, Draft (its submission in Draft/Submit),
-- Invite, Agreement, User (its profile in User/Profile), Upload, Ws. Oauth is the part of
-- src/handlers/auth.rs that signs a user in with a provider: Oauth/Redirect sends the user there,
-- Oauth/Identity asks the provider who it is. Agreement/Create is `create_agreement`,
-- Agreement/Onchain the handlers that sign, cancel, vote, retract and revoke, Agreement/Listing
-- those that get and list. Ws has the map of channels, Ws/Admission who may connect and what is
-- written, Ws/Connection the life of the connections. A handler is a function of the same name.
--
-- Workers has modules named for the files of src/workers/: Policy, Supervisor, RefundWorker,
-- EventListener, Keeper, ExpiryWorker, NotificationWorker, and Retry for the retries of a database
-- call that the listener and the notification worker both write. Where a worker loops forever, the
-- model takes the number of turns: `run_cycles` of the keeper and of the notification worker; the
-- listener's `run_sessions` takes its connections, each with the frames it received.
--
-- Startup is src/main.rs, with the key files of src/services/keypair_security.rs and the health
-- endpoint of src/router.rs: the settings, the database and the keys come first, then the workers
-- of Workers/Supervisor are started, one by one with whatever the started tasks do meanwhile, and
-- the server is bound.
--
-- Router is the table of routes of src/router.rs, with the session that each handler asks for.
--
-- The handlers call the services; the workers and the handlers share the tables, the health and
-- the channels of the world. Lifecycle describes that sharing for one table, `agreement_payments`:
-- the life of a payment as an abstract machine, and the seven parts of the program that write to the
-- table as its steps (Lifecycle/Operations, Lifecycle/Late, Lifecycle/Opened, Lifecycle/Submitted),
-- run in any order with other steps in between (Lifecycle/Running); Lifecycle/Unset follows the
-- amounts to refund through these runs. The list `transfers` of the world holds what the refund
-- worker has submitted and the RPC node has accepted: whether the chain confirms it is not known to
-- the code, and not modelled.
--
-- What the source takes from a crate or from outside is a parameter: the parsers and signatures of
-- the Solana SDK, the derivation of program addresses, the reading of an account's bytes, JWT and
-- SHA-256, AES-GCM and HMAC, hexadecimal decoding, the JSON parser, the HTTP clients of the OAuth
-- providers and of the storage, the oauth2 crate, the jar of cookies, axum's matching of paths,
-- the environment and the files, the text of an identifier. Identifiers, keys, tokens and
-- ciphertexts are numbers, texts are strings or lists of bytes where the source looks into them,
-- and a text that the source only compares may be named by a number. Unsigned integers are natural
-- numbers with the bounds written out where the source checks or casts. The recursion on fuel that
-- writes a decimal number has fuel 19, enough for the digits of an `i64`; the one that strips a
-- prefix as often as it occurs has the text's length, which it cannot exceed. `settle` of
-- Handlers/Ws/Connection is no code of the program: it is the schedule in which the connections that
-- have lost their sender end one after the other, with a round for each connection.
--
-- Not modelled: JSON bodies, the layers for CORS, tracing and the rate of requests, the
-- connections to PostgreSQL, Solana, the log subscription, the mail provider and the storage
-- providers themselves, and logging, which are input and output; the bodies of the mails and the
-- title of a listed agreement, which is text; and the interleaving of two handlers, whose
-- statements run one after the other here.
pub mod Base
pub mod Error
pub mod State
pub mod Config
pub mod Services
pub mod Handlers
pub mod Workers
pub mod Lifecycle
pub mod Startup
pub mod Router

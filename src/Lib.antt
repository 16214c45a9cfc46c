-- ===== src/Lib.antt =====
-- A model of the presentation service of the digital identity system: a relying party posts a
-- schema, the service makes Groth16 keys for the circuit of the schema and issues a request, a
-- wallet proves the schema's constraints over its credential, and the service verifies the proof
-- with its own key, records a verdict, tells the waiting callers and consumes the request. Beside it
-- the API keeps identities and an outbox of events, whose results come back from the blockchain
-- client. The wallet server issues credentials to users who log in, keeps credentials, and answers
-- presentation requests from them.
--
-- Parts, and the files that model them:
--   system/pkg/zkp/schema.go                 Schema (parsing after JSON decoding, field orders),
--                                            Schema/Numbers (the numbers of a constraint)
--   system/pkg/zkp/value_conversion.go       Circuit/Values
--   system/pkg/zkp/dynamic_circuit.go        Circuit/Build (NewDynamicCircuit, Clone),
--                                            Circuit/Assign (AssignValues),
--                                            Circuit/Define (Define and the constraints)
--   system/pkg/zkp/identity_circuit.go       Circuit/Adult
--   system/pkg/zkp/zkp_result.go             Presentation/Package
--   system/api/src/zkprequest/types.go       Presentation/Types
--   system/api/src/zkprequest/helpers.go     Presentation/Caches (ensureVKForSchema)
--   system/api/src/zkprequest/storage.go     Presentation/Create (InMemoryStore)
--   system/api/src/zkprequest/service.go     Presentation/Create, Presentation/Verify,
--                                            Presentation/Notify (waiters, verdicts, webhooks),
--                                            Presentation/Reader (bytesReader)
--   system/api/src/zkprequest/handler.go     Presentation/Handler
--   system/api/src/outbox                    Outbox
--   system/api/src/identity                  Identity (with the list of src/database/migrations.go)
--   system/api/src/zkp                       ProofResults (results and failures of the blockchain)
--   system/blockchain-client/src/workers     Blockchain (with src/zkp/zkp.go)
--   system/zk-wallet-go/internal/app
--     config, server                         Wallet
--     handlers/auth_handlers.go              Wallet/Login
--     handlers/vci_handlers.go               Wallet/Issuance
--     handlers/wallet_handlers.go            Wallet/Import
--     handlers/wallet_ingest.go              Wallet/Import/Ingest
--     vcstore                                Wallet/Store
--     handlers/zkp_prove.go                  Wallet/Claims (values from credentials),
--                                            Wallet/Create (HandleZkpCreate)
--     handlers/zkp_descriptor.go             Wallet/Proxy, Wallet/Url (normalizeWeirdURL)
--     zkp                                    Wallet/Proving (ProveDynamicFromSchema); the rest is a
--                                            copy of system/pkg/zkp
--   system/zk-wallet-go/pkg/util             Wallet/Http
--
-- Presentation/Steps composes the handlers: a history is a sequence of steps, where a step is one
-- call, one end of a wait, or one timer. A call is one step, so calls that overlap are not covered.
-- Wallet/Calls does the same for the wallet server, as lists of calls with their times.
-- Wallet/Import/Offered puts the wallet's import before the issuer's handlers, and
-- Wallet/Create/Echo puts the wallet's submission before the verifier of Presentation/Verify.
--
-- State: a `Service` record holds the store, the three key caches, the listeners, the verdicts, the
-- pending timers and the webhooks posted; a `Server` record holds the wallet server's sessions, PKCE
-- verifiers, codes and tokens. Maps are association lists (Dict). A channel is a place in a list of
-- one-place buffers. Instants are natural numbers, of nanoseconds since 1970 in the API and of
-- seconds in the wallet, and a call reads the clock once. Go's int64 wraps around by `wrap_64`, but
-- for the times of the wallet, which are far from 2^63. Errors are data or texts with the values
-- that their message shows. Loops are structural recursion, and the loops of `normalizeWeirdURL` run
-- for as many rounds as the text has characters: each round makes the text shorter, so they end by
-- then (Wallet/Url/Clean).
--
-- Taken as parameters: JSON, SHA-256, HMAC, Base64, Borsh, JWS, HTTP, strconv, time formatting,
-- UUIDs, random strings, the identity provider, the Solana client and the randomness of a setup,
-- and gnark: its compiler, its setup, its prover, its verifier, and the meaning of its
-- assertions (Circuit/Meaning.Field, Circuit/Adult.Reading). The order in which Go visits a map
-- is that of the association list, or an argument. The compiler is a function of the circuit
-- alone, while the circuit of an age constraint also depends on the time of its compilation; no
-- result rests on that.
-- Not modelled: logging, the locks, the blockchain client's copies of the presentation service
-- and of the circuit, messaging, failures of a database table, a callback URL that net/http does not
-- parse, and the wiring.
pub mod Prelude
pub mod Dict
pub mod Schema
pub mod Circuit
pub mod Presentation
pub mod Outbox
pub mod Wallet
pub mod Blockchain
pub mod Identity
pub mod ProofResults
pub mod Tests

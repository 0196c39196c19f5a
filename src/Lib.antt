-- ===== src/Lib.antt =====
-- Arky: the TypeScript reference implementation of evidence, decisions, execution and receipts.
--
-- A TIM is signed evidence. The Kernel selects the latest TIM for each measure of a commitment,
-- evaluates the measure's assertion on it and decides which verbs it authorizes. The Settler executes
-- an authorized verb once and returns a signed receipt. The Notary commits to sets of identifiers by
-- Merkle trees. All of them name content by the hash of its canonical JSON. The MCP proxy compiles
-- policies to commitments of the Kernel, asks it about each call of a tool, forwards what it approves
-- and writes evidence, decisions and receipts to a bundle, which can be verified offline. Scripts sign
-- and verify the artifacts of examples and vectors.
--
-- Which file models which part (paths from the repository's root):
--   Assert     packages/core/src/assert.ts: Lexer is `tokenize`, Parser the class `Parser`, Eval
--              `evalAst`, `compare` and `evaluateAssertion`
--   Kernel     packages/core/src/kernel.ts: Types the interfaces, Duration `withinWindow` and
--              `parseIsoDurationMs`, Select `selectLatest`, Evaluate `evaluateKernel`
--   Tim        packages/core/src/tim.ts: Create `createTim`, Verify `verifyTim`, DidKey `resolveDidKey`
--   Settler    packages/core/src/settler.ts: Execute `execute` and the keys
--   Codec      packages/core/src/cid.ts and keys.ts (Base58, Cid) and jws.ts (Base64, Jws)
--   Json       packages/core/src/canonicalize.ts (Canonical) and parse.ts (Parse), over Values; Grammar
--              describes the texts without blanks apart from the parser, Ordered the order of members
--   Notary     scripts/lib/merkle.ts: Merkle the tree and its proofs, Finality the rest but for
--              `deriveIdempotencyKey`, which is in Conformance/Key
--   Policy     packages/mcp/src/policy.ts: Rules is validation and choice, Compile the compilation,
--              Load `loadPolicy`
--   Audit      packages/mcp/src/audit.ts: Evidence `symbolize` and `buildEvidence`, Artifacts the signed
--              decisions and receipts, Bundle the class `BundleWriter`
--   Proxy      packages/mcp/src/proxy.ts: State the fields of `ArkyMcpEngine`, Message what it reads
--              from messages, Client `handleClientMessage`, Server `handleServerMessage`
--   Offline    packages/mcp/src/verify.ts: Values and Views what it reads, Checks the checks of an
--              artifact, Call those of a call, Verify `verifyBundle`
--   Cli        packages/mcp/src/cli.ts: Chunks `lineReader`, Keys `loadKeys`, Args the arguments of
--              `runCommand` and what `verifyCommand` writes
--   Conformance  scripts/verify-artifacts.ts: Jcs `jcsCanonical` and `computeCid`, Artifact
--              `verifyArtifact`, Report the counts and the exit code, Vectors `failureCascade`,
--              `verifyCanonVector` and `expectMatch`, Checks seven branches of `verifyCheckVector`,
--              Algorithms three of `verifyAlgorithmicVector`;
--              scripts/sign-artifacts.ts: Sign the signatures, SignFile what is signed in a file
-- Common, Number (IEEE doubles), Sorting (a stable sort) and Tests hold what these share.
--
-- State and exceptions: the Settler's store is an association list that `execute` takes and returns.
-- The proxy's state is the calls that wait for an answer and the files of the bundle so far; each
-- message takes it and returns it, also where it raises.
-- An exception is `Run.throws` where it can leave a public function, `none` where one operation can
-- raise, and `Outcome.thrown` with its message in the two parsers. Texts are lists of UTF-16 code
-- units, bytes are numbers below 256, and a JSON object is the list of its own members.
--
-- Bounds: the lexer and the parser of assertions have fuel in the length of their input: each round
-- of the lexer takes a character, and the parser goes at most four calls deep for each token.
-- `climb` has one round for each leaf, `drain` one for each character of the buffer. The strict JSON
-- parser has fuel for four calls for each character.
--
-- Parameters: an `Engine` converts numbers and dates to and from texts as JavaScript does; a
-- `Platform` has UTF-8, `JSON.parse`, `JSON.stringify`, SHA-256 and Ed25519; the Notary's multibase
-- codec is a pair of functions; `symbolize` takes `toLowerCase`. Sample and SamplePlatform are
-- instances for tests. A `Toolkit` is what the scripts take from jose and multiformats. `verifyBundle`
-- takes a directory as its files, the messages of exceptions, and the Kernel on values that are no
-- commitments and TIMs.
--
-- Not modelled: processes and signals of the command line, the walks over directories, the other
-- vectors and checks of the conformance verifier (in scripts/verify-artifacts.ts), the other
-- repository scripts, random keys, the order of integer-like member names, what is inherited from a
-- prototype except in the symbols of an assertion (where a measure `__proto__` with the value null
-- raises when `value` is read, which is not modelled either), and the ports to other languages.
pub mod Common
pub mod Number
pub mod Engine
pub mod Sample
pub mod Sorting
pub mod Platform
pub mod Codec
pub mod Tim
pub mod Settler
pub mod Notary
pub mod Json
pub mod Assert
pub mod Kernel
pub mod Policy
pub mod SamplePlatform
pub mod Audit
pub mod Proxy
pub mod Offline
pub mod Cli
pub mod Conformance

-- ===== src/Lib.antt =====
-- Offline digital euro wallet: the library crate of the repository, modelled and proved.
--
-- The program keeps value as a balance on a secure element (`Wallet`), moves it between two elements
-- offline, and between an element and an online account at the `Issuer`. Every message that moves
-- value is signed; `lib.rs` strings the calls of the two sides together.
--
-- How the modules correspond to the code:
-- - Prelude: library names, Boolean tests, `PartialEq`, words (`u64` wraps, as in the release profile,
--   which leaves overflow checks off), big-endian bytes, `i128` over signed integers, `Result` and
--   methods on `&mut self` as functions that return their result and the state that they left.
-- - HashMap: `HashMap` and `HashSet` as association lists, with the laws of a lookup and of the sum
--   of the values. The program does not depend on the order of entries.
-- - Crates: sha2, num-bigint, num-integer and rand, whose code is not in the repository, as parameters
--   of every definition that uses them (instance arguments), with their documented behaviour in the
--   record `AreDocumented` (`AreKeyCratesDocumented` for what only key generation uses,
--   `AreBitsDocumented`, `IsBigRng`, `IsSizedRng` and `IsRangeRng` for bits and draws). A `BigUint`
--   is the number that it denotes. Nothing is assumed of SHA-256 but that it returns 32 bytes: where
--   its strength matters, a collision is an alternative of the theorem.
-- - Text: texts as lists of code points, with what the program uses of `format!` and of
--   `str::parse::<u64>()`; its children Decimal and Hex are about reading back and telling apart.
-- - Id (src/id.rs), Error (src/error.rs), Hash (src/hash.rs), Certificate (src/certificate.rs),
--   Message and its children (src/message.rs).
-- - Signature (src/signature.rs): the keys, the full-domain hash, `sign` and `verify`; its children
--   Primality and Generation have the primality test and key generation, Trial, Bases, Candidates,
--   Keys, Generated, MillerRabin, Search and Rsa what is shown of them; RoundTrip, Expansion and
--   Forged are about signatures and the full-domain hash.
-- - Primes: prime numbers, for key generation: Euclid's lemma, binomial coefficients and Fermat's
--   little theorem.
-- - Wallet (src/wallet.rs): the record and every method. Its children are about: Accounting and
--   Invariant (what is held and promised, and the limit), History (the methods as data, and sequences
--   of them), Atomic (errors), Credit, Topup and Once (what is credited, and when), and Genuine
--   and Request (what an honest element answers).
-- - Issuer (src/issuer.rs): the record and every method. Its children: Grants and Redemptions (what is
--   granted and cashed), History, GrantedOnce, CashedOnce and Books.
-- - Protocol (src/lib.rs): `fund`, `defund`, `pay` and `enrol`. Its children: Payment, Funding,
--   Defunding and Enrolment compare each with a description of all its outcomes; Stranded is about
--   value that an element has debited and that reaches no one.
-- - Harness (src/main.rs): the world of the acceptance harness, the checks and the loop of the random
--   run. Its children: Members, Outcomes and Membership (an honest device, and all of them at their
--   indices), Supply (the sums), Ledger (the abstract balances and deposits), Sound (the invariant),
--   Cases, Steps, Funds, Defunds and Payments (the operations), Run, Refinement (sequences of
--   operations against the ledger), Opening (`world` and `run_fuzz` as a whole), Grown, Enlarged,
--   Joins, Stranger, Turns, Openable and Opened (the world that is opened, and one more device in a
--   world), and Counterfeit and DoubleSpend (a cracked element). CommandLine is the loop over the
--   arguments and the tests of their values. Play and Scenarios are the acceptance scenarios;
--   Untouched, Kept, Stands, Called and Endings (what a call leaves as it was, a world where a
--   scenario stands, how a scenario ends) and the children of Scenarios, one for each, what is shown
--   of them. Acceptance has the scenarios on their worlds, `run_check` and `main`; its children
--   Verdicts and Checked have the results of the scenarios and of the check, Command those of `main`.
-- - OfflinePayment (examples/offline_payment.rs): the narrated run with its lines; its children have
--   its texts and how it runs (Telling), how it goes on after a step (Printing), its worlds (Worlds,
--   FourthDevice), what its parts print (Transcript, Counterfeit), and what `main` does (Whole). A
--   text printed behind a line break is an empty line and the text.
-- - Tests: a `Crates` and a generator that run, two small RSA keys, and the properties at concrete
--   inputs.
--
-- Fuel: `expand` of Signature, the loop of `full_domain_hash`, takes the width of the modulus as fuel;
-- each round adds 32 bytes, so that is more than enough. The loops of key generation (Generation) draw
-- until a candidate is accepted, which no number of draws makes certain: their fuel is a parameter,
-- and running out of it is `none`, as a panic is.
--
-- Assumptions, each a hypothesis where it is used: what the search for primes returns is a prime
-- (`IsKeySource`: its test is a probabilistic one), or, of a key that is given, its exponents undo
-- one another (`IsKeypair`); a nonce that a generator draws next was not used before (`IsFresh`,
-- `IsFreshFunding`; `AreUnspent` and `IsWellDrawn` for as many as a run needs): sixteen random
-- bytes repeat with a negligible chance. That the certificate of another issuer does not verify
-- (`IsForeign`), and that the full-domain hashes of three transfers differ (`IsTellingApart`), hold
-- but for a negligible chance too.
--
-- A failure of a scenario keeps its text; where the program prints a value by `{:?}` behind the text,
-- the value is kept in its place. `none` stands for a panic throughout.
--
-- Not modelled: what the harness prints (its progress, times, notes and counts, the usage); the tests of
-- src/signature.rs and tests/protocol.rs.
pub mod Prelude
pub mod Text
pub mod HashMap
pub mod Crates
pub mod Id
pub mod Error
pub mod Hash
pub mod Signature
pub mod Certificate
pub mod Message
pub mod OfflinePayment
pub mod Wallet
pub mod Issuer
pub mod Primes
pub mod Protocol
pub mod Harness
mod Tests

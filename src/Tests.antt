-- ===== src/Tests.antt =====
-- Runs of the model, and each property at a concrete input.
mod Toy
mod Parties
mod Wallets
mod Narrated
mod Openable
mod Issuers
mod Exchanges
mod Twos
mod Worlds
mod Euclid
mod Primes
mod Drawn
mod Openings
mod Searches
mod Verdicts
mod Commands

-- ===== src/Tests.antt =====
-- Concrete runs of the program, on small stand-ins for the crates and the user.
mod Fixtures
mod JsonFixture
mod SealedRuns
mod OriginRuns
mod SessionRuns
mod StoreRuns
mod EngineRuns
mod GenerateRuns
mod RoundTripRuns
mod ImportRuns
mod ApproverRuns
mod VaultRuns
mod TransportRuns
mod ServerRuns

-- ===== src/Tests.antt =====
-- Runs of the model at inputs in the manner of the repository's unit tests, and the theorems
-- applied at such inputs.
mod RosterData
mod RosterRuns
mod RosterCases
mod PacketData
mod PacketCases
mod ConntrackCases
mod EngineCases
mod EngineData
mod OperationCases
mod StorageCases
mod AuditCases
mod DesktopCases
mod RelayCases
mod AdmissionCases
mod PresenceCases
mod PumpCases
mod ApplyCases
mod StatusCases

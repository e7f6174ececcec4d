-- ===== src/Tests.antt =====
-- Runs of the model on concrete data, and the theorems applied to it.
mod Memory
mod CacheRuns
mod ServerRuns
mod ServiceRuns
mod ClientRuns
mod LinkRuns
mod WriteRuns
mod EditRuns
mod FetchRuns
mod ReleaseRuns
mod Stage
mod CloseRuns
mod OpenRuns
mod CacheUses
mod StartRuns
mod ThreadRuns
mod DatabaseRuns
mod DriverRuns
mod CreateRuns

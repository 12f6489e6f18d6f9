-- ===== src/Failover.antt =====
-- Management-address failover: core/failover.py, with `probe_reachable` of nso/actions.py.
pub mod Row
pub mod Client
pub mod Keeps
pub mod Hysteresis
pub mod Address
pub mod Switch
pub mod Probes
pub mod Tick
pub mod Harmless
pub mod Reads
pub mod Lane
pub mod Restore
pub mod Cost
pub mod Budget
pub mod Ingest
mod Tests

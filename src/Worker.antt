-- ===== src/Worker.antt =====
-- services/tracking-worker: the JetStream consumer that drives a shipment's status.
pub mod Config
pub mod Metrics
pub mod Services
pub mod World
pub mod Database
pub mod Repository
pub mod Consumer
pub mod Startup
pub mod Health
pub mod Loop
pub mod Main
pub mod Machine
mod Lab
mod Tests
mod LoopTests
mod MainTests
mod MachineTests
mod DeliveryTests

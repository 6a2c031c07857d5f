-- ===== src/Drivers.antt =====
-- The small drivers of drivers/, over the ports.
pub mod Timer
pub mod Speaker
pub mod Rtc
pub mod Pci
pub mod Disk
pub mod Ata
pub mod Transfer
pub mod Words
pub mod Sectors
pub mod Sound
pub mod Clock
pub mod Bus
pub mod Probe
pub mod Board
mod Examples
mod Tests
pub mod NetworkCard

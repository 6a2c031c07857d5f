-- ===== src/Cpu.antt =====
-- The processor's tables of cpu/, and the handlers of its exceptions.
pub mod Descriptors
pub mod Interrupts
pub mod Paging
pub mod Segments
pub mod Gates
pub mod Translation
mod Tests

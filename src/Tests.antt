-- ===== src/Tests.antt =====
-- Concrete runs of the code, and the theorems at concrete inputs.
pub mod Document
pub mod Quarks
pub mod Process
pub mod Sample
mod Witnesses
mod MemberWitnesses
mod JsonWitnesses
mod FrameWitnesses
mod ProcessWitnesses
mod MemoryWitnesses
mod StructWitness
mod ArrayWitness
mod InvertWitness
mod FaultWitness
mod HistoryWitness

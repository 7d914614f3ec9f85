-- ===== src/Transfer.antt =====
-- A whole transfer: the packets of src/sender/sender.cpp, taken by src/receiver/receiver.cpp and
-- written by src/utils/file_builder.cpp.
pub mod Handled
pub mod Entries
pub mod Rebuild
pub mod Whole
pub mod Harmless
pub mod Session
pub mod Network
pub mod Examples
mod NetworkExamples

-- ===== src/Tests.antt =====
-- Runs of the operations on small inputs, and the results at concrete arguments.
pub mod Fat
pub mod Entries
pub mod Files
pub mod Folder
pub mod Text
pub mod Screen
pub mod Ata
pub mod Heap
pub mod Keyboard
pub mod Tasks
pub mod Shell
pub mod Session
pub mod Boot
pub mod Mount
pub mod Running
pub mod Append
pub mod MakeFolder

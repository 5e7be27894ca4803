-- ===== src/Examples.antt =====
-- The theorems at concrete inputs.
mod Handlers
mod Vars
mod Tasks
mod Execution
mod Deploy
mod LineInFile
mod Redaction
mod Inventory
mod Loops
mod Extract
mod BlockInFile
mod LoopItems
mod IncludeTasks

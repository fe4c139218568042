-- ===== src/Examples.antt =====
-- Runs of the definitions at concrete inputs, and the theorems there.
mod Toy
mod Fsutil
mod Paths
mod Wire
mod Session
mod Store
mod Transport
mod Others
mod Walked
mod Project
mod Synced
mod Uploaded
mod Handled
mod Shown
mod Restored
mod Opened
mod Wired

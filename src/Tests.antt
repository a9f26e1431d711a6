-- ===== src/Tests.antt =====
-- Runs of the model on small inputs, and the theorems at such inputs.
mod Samples
mod Objects
mod Submit
mod Order
mod Merge
mod App
mod Sched
mod Drained
mod TwoEnded
mod Output
mod Fs
mod Entry
mod Links

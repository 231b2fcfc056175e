-- ===== src/Tests.antt =====
-- Runs of the model at concrete inputs, and the theorems at inputs that meet their hypotheses.
mod Disk
mod Bitmaps
mod Inodes
mod Files
mod Writes
mod Creation
mod Directories
mod Mounts
mod Printing
mod Again
mod Commands
mod Steps
mod Trees
mod Bare

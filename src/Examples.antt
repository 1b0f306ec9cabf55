-- ===== src/Examples.antt =====
-- The theorems at concrete inputs, and runs of the code.
mod Kinds
mod Strings
mod Schedule
mod Caller
mod Recorder
mod Logger
mod Maintenance
mod Format
mod Targets
mod Setup
mod Trees
mod Configs
mod ConfigFiles
mod Purge

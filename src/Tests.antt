-- ===== src/Tests.antt =====
-- The theorems applied to concrete machines.
mod Machine
mod Modes
mod Memory
mod Dispatch
mod Library
mod Heaps
mod Devices
mod Lines

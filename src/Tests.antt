-- ===== src/Tests.antt =====
-- Runs of the code on concrete inputs, and the theorems at inputs that satisfy their hypotheses.
mod Paths
mod Session
mod Kernel
mod Guest
mod Programs
mod Links
mod Tables
mod Threads
mod Memory
mod Calls

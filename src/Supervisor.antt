-- ===== src/Supervisor.antt =====
-- engines/rootless/supervisor.hpp: the data of the supervisor of one session, as far as the handlers of
-- system calls use it, and the steps that they are made of. The kernel is the record `Kernel`, with
-- `W` for the state of the world; the registers of the stopped task are those of arch/regs.hpp.
pub mod State
pub mod Report
pub mod Spec
pub mod Paths
pub mod Quiet
pub mod Translate
pub mod Handlers
pub mod Stops
pub mod Restore
pub mod Saved

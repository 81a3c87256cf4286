-- ===== src/Supervisor/State.antt =====
-- The state that a handler works on: supervisor.hpp and arch/regs.hpp.
use vhdp.Base.{ℕ, Bool, false, List, [], Option, none, Bytes}
use vhdp.Base.Int.{ℤ, pos, negsuc}
use vhdp.Mounts.{Mount, MountTable}
use vhdp.Resolver.{Resolved}
use vhdp.Resolver.Kernel.{Reply, ok, err}
use vhdp.Resolver.DirCache.{Cache}
use vhdp.Exec.Calls.{System}
use vhdp.Exec.Argv0.{Argv0Cache}
use vhdp.Config.{ProcMode}
use vhdp.Events.{Event, Severity}
use vhdp.Identity.{Args, Table}
use vhdp.Tracee.{MemoryCalls}
use vhdp.Tracee.Stack.{StackWriter}
use vhdp.LinkStore.Calls.{Calls}
use vhdp.LinkStore.Store as Store

-- The calls of the kernel and of the C library. `system` is a snapshot of the file system, and
-- `clock` is CLOCK_MONOTONIC in nanoseconds; `random` gives the bytes for the id of an object.
pub record Kernel (W : Type 0) : Type 0 where
  pub memory : MemoryCalls W
  pub links : Calls W
  pub system : W → System
  pub clock : W → ℕ
  pub random : W → Bytes
  pub faccessat : W → Bytes → ℕ → Option ℕ
  pub strtol : Bytes → ℤ

-- What stays the same during a session: the configuration, the options and the members that `start`
-- sets. `wants` is the sink's, `pid` the supervisor's own process id. The
-- red zone, O_DIRECTORY and O_NOFOLLOW are those of the architecture, and `returns_in_first` tells
-- that its register for the return value is the one for the first argument, as on aarch64.
pub record Setup : Type 0 where
  pub table : MountTable
  pub proc : ProcMode
  pub uid : Option ℕ
  pub gid : Option ℕ
  pub host_uid : ℕ
  pub host_gid : ℕ
  pub session_id : ℕ
  pub wants : Severity → Bool
  pub loader_path : Bytes
  pub use_seccomp : Bool
  pub links_enabled : Bool
  pub red_zone : ℕ
  pub o_directory : ℕ
  pub o_nofollow : ℕ
  pub returns_in_first : Bool
  pub pid : ℕ

-- `Fixup`
pub data Fixup : Type 0 where
  no_fixup getcwd readlink_proc stat statx emulated_return rename_links dirents : Fixup

-- `PendingSyscall`; `saved i` is bit `i` of `restore_mask`.
pub record Pending : Type 0 where
  pub active : Bool
  pub nr : ℤ
  pub orig_args : Args
  pub saved : ℕ → Bool
  pub fixup : Fixup
  pub buf : ℕ
  pub size : ℕ
  pub emulated : ℤ
  pub exe_tgid : ℕ
  pub link_host : Bytes
  pub fd : ℤ
  pub link_mount : Option Mount
  pub link_src : Bytes
  pub link_dst : Bytes
  pub link_from : Bytes
  pub link_to : Bytes
  pub link_exchange : Bool
  pub scratch : Bytes

-- `PendingSyscall{}`
abbrev pub no_pending : Pending
no_pending = record {
  active = false;
  nr = negsuc 0;
  orig_args = λ i. 0;
  saved = λ i. false;
  fixup = no_fixup;
  buf = 0;
  size = 0;
  emulated = pos 0;
  exe_tgid = 0;
  link_host = [];
  fd = negsuc 0;
  link_mount = none;
  link_src = [];
  link_dst = [];
  link_from = [];
  link_to = [];
  link_exchange = false;
  scratch = [];
}

-- The task that is stopped: `Tracee`. Its thread group is 0 until it is looked up.
pub record Task : Type 0 where
  pub tid : ℕ
  pub tgid : ℕ
  pub bootstrap : Bool
  pub exec_seen : Bool
  pub pending : Pending
  pub load_request : Bytes
  pub load_exe : Bytes

-- `SyscallView`
pub record Regs : Type 0 where
  pub nr : ℤ
  pub args : Args
  pub ret : ℤ
  pub sp : ℕ
  pub native_abi : Bool

-- The members that the handlers change, the task, its registers and the scratch space below its
-- stack. The state of the world is `links.fs`.
pub record State (W : Type 0) : Type 0 where
  pub links : Store.State W
  pub dirs : Cache
  pub argv0 : Argv0Cache
  pub creds : Table
  pub reported : List Bytes
  pub denials : List ((ℤ × ℕ) × ℕ)
  pub events : List Event
  pub guest_filtered : List ℕ
  pub task : Task
  pub regs : Regs
  pub stack : StackWriter

abbrev pub world : {W : Type 0} → State W → W
world s = s.links.fs

abbrev pub set_world : {W : Type 0} → State W → W → State W
set_world s w = record s { links = record s.links { fs = w } }

abbrev pub set_pending : {W : Type 0} → State W → Pending → State W
set_pending s p = record s { task = record s.task { pending = p } }

-- A step of a handler: a result, or the errno that it fails with.
abbrev pub Step : Type 0 → Type 0 → Type 0
Step W A = State W → Reply A × State W

abbrev pub and_then : {W A B : Type 0} → Reply A × State W → (A → Step W B) → Reply B × State W
and_then (ok a, s) f = f a s
and_then (err e, s) f = (err e, s)

infixl 5 ◌>>=◌
abbrev pub ◌>>=◌ : {W A B : Type 0} → Step W A → (A → Step W B) → Step W B
(m >>= f) s = and_then (m s) f

abbrev pub give : {W A : Type 0} → A → Step W A
give a s = (ok a, s)

abbrev pub fail : {W A : Type 0} → ℕ → Step W A
fail e s = (err e, s)

-- `TranslatedPath` of a path that is present.
pub record Translated : Type 0 where
  pub r : Resolved
  pub original : Bytes

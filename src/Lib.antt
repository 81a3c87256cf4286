-- ===== src/Lib.antt =====
-- vhdp runs a program inside a root file system without privileges: it traces the program's system
-- calls and translates the paths in them. This library models the parts that decide what a session
-- may do, from the arguments on the command line to the host path of a lookup.
--
-- How the parts interact: phdp parses its arguments (src/cli/cli_args.cpp). The options become a
-- session configuration, which is validated (src/core/config.cpp) with the lexical operations on
-- paths (src/vfs/guest_path.cpp), and an engine is chosen (src/core/engine_select.cpp). The engine
-- builds a mount table from the binds (src/vfs/mount_table.cpp) and a filter for the system calls
-- that need no translation (src/engines/rootless/seccomp_filter.cpp). Every path that the guest
-- names goes through the resolver (src/vfs/resolver.cpp), which follows symbolic links in the
-- guest's view and recognises emulated hard links (src/vfs/link_marker.hpp), which
-- src/engines/rootless/link_store.cpp makes and counts. An execve is planned by
-- src/engines/rootless/exec_resolver.cpp, which resolves the program, the interpreters of scripts and
-- the dynamic loader, and decodes their ELF headers (src/linux_abi/elf.c). The calls about user and
-- group ids are answered from emulated credentials (handle_identity of
-- src/engines/rootless/syscall_handlers.cpp). When a traced call stops, the supervisor reads the text
-- of a path from the memory of the task (src/engines/rootless/tracee_mem.cpp), translates it, pushes
-- the host path below the task's stack and lets the kernel run the call on it, or answers the call
-- itself; the arguments that it changed are put back (src/engines/rootless/supervisor.cpp). A session
-- (src/core/session.cpp) is the machine of src/core/lifecycle.cpp, moved by the threads that start it,
-- wait for it, watch its time and cancel it. Reports and events (src/core/events.cpp) are JSON
-- (src/common/json.cpp), which phdp reads back (src/cli/json_dom.cpp).
--
-- Files and code:
--   Base          shared names: Boolean tests, lists over native numbers, byte strings, integers.
--   Status        src/common/status.hpp and .cpp: codes, `Status` and `Result`.
--   Strings       src/common/strings.cpp: parse_u64, parse_u32, parse_i32, split, contains_nul.
--   Path          src/vfs/guest_path.cpp: components, has_dotdot, normalize_lexical, join, is_below,
--                 suffix_after; `build` is the printer of components.
--   Mounts        src/vfs/mount_table.cpp: `MountTable` is its list of mounts, to_host, to_guest.
--   LinkMarker    src/vfs/link_marker.hpp: link_target_id and link_store_path.
--   Resolver      src/vfs/resolver.cpp: `resolve`, its loop split at the component (`look`, `visit`),
--                 the link (`take_link`, `enter`) and the end (`finish`); DirCache is the cache of
--                 directories, Links reads the targets, Kernel holds what the host answers.
--   Seccomp       src/engines/rootless/seccomp_filter.cpp: build_seccomp_filter and the interpreter
--                 evaluate_seccomp_filter.
--   Config        src/core/config.cpp: check_guest_path, set_env, validate_config.
--   Engine        src/core/engine_select.cpp: shell_status and select_engine.
--   Lifecycle     src/core/lifecycle.cpp: can_transition and `StateMachine::transition`.
--   Cli           src/cli/cli_args.cpp: parse_arguments and parse_run; Values parses the values.
--   Json          src/common/json.cpp: json_quote, `JsonWriter` and json_validate; Dom is the reader
--                 of src/cli/json_dom.cpp and its `quote`.
--   Identity      the credentials of src/engines/rootless/supervisor.hpp, creds_of and
--                 handle_identity.
--   Elf           src/linux_abi/elf.c: vhdp_elf_parse_header, vhdp_elf_scan_phdrs and
--                 vhdp_elf_validate_interp; a read outside a buffer is the result `none`.
--   Exec          src/engines/rootless/exec_resolver.cpp: `plan` and search_path; Shebang is
--                 parse_shebang, Examine what `plan` finds out about one program, Argv0
--                 loader_supports_argv0, and Calls what the kernel answers, with pread_full.
--   LinkStore     src/engines/rootless/link_store.cpp: target_for; Names has the text of a record,
--                 Store makes links (link_new, link_existing), Release takes names away (release,
--                 name_moved), Scan looks for objects; Calls has the system calls that they make.
--   Session       src/core/session.cpp: the operations on a session; Threads has the steps of start,
--                 waiter_main, watchdog_main and cancel, and what they can reach together.
--   Tracee        src/engines/rootless/tracee_mem.cpp; Stack is the `StackWriter` of
--                 src/engines/rootless/supervisor.cpp.
--   Supervisor    State has the members of `Supervisor` and `Tracee` that a handler changes, with the
--                 calls of the kernel; Report, Spec, Paths and Handlers are parts of
--                 src/engines/rootless/syscall_handlers.cpp: deny, the path specifications,
--                 translate_path, and the handlers that `dispatch_path` chooses; Stops is
--                 on_syscall_enter and on_syscall_exit around a handler.
--   Events        src/core/events.cpp: the names and event_to_json.
--   ProcFiles     src/platform/linux/proc.cpp: read_small_file and proc_status_field.
--   Syscalls      src/linux_abi/syscall_table.cpp: lookup_syscall, lookup_nr, class_name.
--   Errno         src/linux_abi/errno_table.c: vhdp_errno_name, vhdp_errno_description.
--   Tests         runs on concrete inputs, and the theorems at such inputs.
--
-- Numbers and texts: a `char` is a number below 256 and a string a list of them; unsigned numbers
-- are naturals, and the conversions that wrap are written out (`to_u32`).
--
-- Bounds: the interpreter of seccomp programs has the source's counter of steps, and the other
-- loops but those of the two JSON readers are recursion on their input. The loop of the resolver
-- recurses on the number of links that may still be followed, and between links on the components
-- that are left. The JSON validator recurses on a number of calls, twice the length of the text
-- and two more: a call either reads a byte or goes from a bracket to the loop behind it. The
-- reader of phdp recurses on as many calls. `plan` recurses on its rounds, five at most, and the
-- loops that read a file on the answers of the kernel. read_cstring has as many rounds as it may
-- return bytes, since each reads one at least. A step of a session's thread is what it does between
-- two points at which another thread can come in.
--
-- Parameters, since their code is not here: lstat(2) and readlink(2) as one snapshot per resolution,
-- realpath(3), stat(2) and fcntl(2) of the validation, the host's environment, and
-- the probes of the engines; for an execve access(2), statvfs(3), open(2), fstat(2),
-- stat(2) and what read(2) and pread(2) answer call by call; the memory of a traced process; strtod(3)
-- and the type of its numbers; for the link store symlink(2), unlink(2), rename(2), mkdir(2), its lock,
-- readlink(2), lstat(2), readdir(3), mkostemp(3), link(2), strtoul(3), the clock, the process id and the
-- random id of an object. What the link store relies on of them is the record `Laws` of
-- LinkStore/Store/Laws.antt. For a stopped task process_vm_readv(2), process_vm_writev(2) and the file
-- mem of /proc, with `Remembers` of Tracee/Writes.antt for what is relied on, faccessat(2) and
-- strtol(3). The engine's instance of a session is the record `Instance`.
-- The table of system calls is an argument, since its numbers are those of the target's headers.
--
-- Not modelled: the loop of the supervisor over the tasks, the start of the guest, the fixups at the
-- exit of a call, the handlers of open, stat, readlink, extended attributes, execve, sockets and
-- signals, the texts of /proc, a session's destructor and its events, contexts, the C interface, and
-- what only prints or asks the host. The usage texts are constants and are left out.
pub mod Base
pub mod Seccomp
pub mod Path
pub mod Mounts
pub mod LinkMarker
pub mod ProcFiles
pub mod Resolver
pub mod Session
pub mod Strings
pub mod Status
pub mod Lifecycle
pub mod Cli
pub mod Json
pub mod Config
pub mod Engine
pub mod Identity
pub mod Elf
pub mod Events
pub mod Exec
pub mod Supervisor
pub mod Syscalls
pub mod Tracee
pub mod Errno
pub mod LinkStore
pub mod Tests

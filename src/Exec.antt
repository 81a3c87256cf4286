-- ===== src/Exec.antt =====
-- engines/rootless/exec_resolver.hpp and .cpp: from a guest path and its arguments to the file and the
-- arguments that the kernel executes. The caches of the resolver come back with each answer.
pub mod Shebang
pub mod Calls
pub mod Argv0
pub mod Examine
pub mod Holds
pub mod Plan
pub mod Defined
use vhdp.Base.{
  ℕ, zero, suc, ◌+◌, ◌-◌, Bool, true, false, ◌&&◌, ◌||◌, not, List, [], ◌∷◌, ◌++◌, Option, some,
  none, Bytes, codes, if◌then◌else◌, is_empty, ◌==◌, drop,
}
use vhdp.Elf.{host_machine, Status, Info, parse_header, machine_name, is_ok}
use vhdp.Strings.{split}
use vhdp.Path.{is_absolute, join}
use vhdp.Mounts.{MountTable}
use vhdp.Resolver.{Resolved, Answer, failed, resolved, resolve}
use vhdp.Resolver.Kernel.{Reply, ok, err, enoent, eacces, eloop}
use vhdp.Resolver.DirCache.{Cache}
use vhdp.Resolver.Links.{Options}
use vhdp.Exec.Calls.{File, FileStat, System, pread_full}
use vhdp.Exec.Argv0.{Argv0Cache, loader_supports_argv0}
use vhdp.Exec.Examine.{
  Try, done, fail, undefined, ◌>>=◌, asked, refuse, defined, diagnosis, Diag, enoexec, Program,
  script, static_program, dynamic_program, examine,
}

-- `ExecPlan`
pub record ExecPlan : Type 0 where
  pub host_exec : Bytes
  pub argv : List Bytes
  pub guest_program : Bytes
  pub guest_loader : Bytes
  pub program_argv : List Bytes
  pub via_loader : Bool
  pub loader_argv0 : Bool
  pub shebang_depth : ℕ

-- The members that calls change: the table's directory cache and `argv0_cache_`.
pub record Caches : Type 0 where
  pub dirs : Cache
  pub argv0 : Argv0Cache

-- `kMaxShebangDepth`
abbrev pub max_shebang_depth : ℕ
max_shebang_depth = 4

-- A path that is not absolute is taken from the working directory.
unfoldable pub from_cwd : Bytes → Bytes → Bytes
from_cwd guest_cwd path = if is_absolute path then path else join guest_cwd path

unfoldable pub first_or : Bytes → List Bytes → Bytes
first_or d [] = d
first_or d (a ∷ as') = a

-- The arguments of an interpreter that runs the script at `current`.
unfoldable pub script_argv : Bytes → Option Bytes → Bytes → List Bytes → List Bytes
script_argv interp none current argv = interp ∷ current ∷ drop 1 argv
script_argv interp (some arg) current argv = interp ∷ arg ∷ current ∷ drop 1 argv

-- The arguments of a loader that runs the program at `guest`.
unfoldable pub loader_argv : Bool → Bytes → List Bytes → List Bytes
unfolding first_or
loader_argv with_argv0 guest argv =
    let argv0 = first_or guest argv in
    argv0 ∷ ((if with_argv0 then codes "--argv0" ∷ argv0 ∷ [] else []) ++ guest ∷ drop 1 argv)

-- The file at the resolved path of a loader is an ELF file of this host.
unfoldable pub check_loader : System → Bytes → Resolved → Try Info
check_loader s loader l = do
  f ← asked (s.open_file l.host)
  head ← asked (pread_full 64 [] (f.pread 0 64))
  let size : ℕ = elim f.fstat [ err e ↦ 0 | ok st ↦ st.size ]
  header ← defined (parse_header head size)
  refuse (not (is_ok header.0) || not (header.1.machine == host_machine s.architecture)) enoexec
      (diagnosis (codes "exec.loader_invalid") (
        codes "dynamic loader "
        ++ loader
        ++ codes " is not a valid "
        ++ machine_name (host_machine s.architecture)
        ++ codes " ELF"))
      (done header.1)

-- The plan of a program that the kernel executes itself.
unfoldable pub direct_plan : Resolved → List Bytes → ℕ → ExecPlan
direct_plan r argv depth = record {
  host_exec = r.host;
  argv = argv;
  guest_program = r.guest;
  guest_loader = [];
  program_argv = argv;
  via_loader = false;
  loader_argv0 = false;
  shebang_depth = depth;
}

-- The plan of a program that the loader at `l` executes.
unfoldable pub loader_plan : Resolved → Resolved → Bool → List Bytes → ℕ → ExecPlan
unfolding loader_argv
loader_plan r l with_argv0 argv depth = record {
  host_exec = l.host;
  argv = loader_argv with_argv0 r.guest argv;
  guest_program = r.guest;
  guest_loader = l.guest;
  program_argv = argv;
  via_loader = true;
  loader_argv0 = with_argv0;
  shebang_depth = depth;
}

abbrev pub loader_missing : Bytes → Bytes → Option Diag
loader_missing loader guest = diagnosis (codes "exec.loader_missing") (
    codes "dynamic loader "
    ++ loader
    ++ codes " required by "
    ++ guest
    ++ codes " is missing from the rootfs")

-- What `plan` does with a loader that has been resolved.
unfoldable pub plan_loader :
    System → Resolved → Bytes → List Bytes → ℕ → Answer × Cache → Argv0Cache → Try ExecPlan × Caches
unfolding check_loader loader_plan
plan_loader s r loader argv depth (failed e, c) argv0 =
    (fail e (loader_missing loader r.guest), record { dirs = c; argv0 = argv0 })
plan_loader s r loader argv depth (resolved l, c) argv0 =
    if not l.exists || l.is_dir
    then (fail enoent (loader_missing loader r.guest), record { dirs = c; argv0 = argv0 })
    else elim (check_loader s loader l) [
      | fail e d ↦ (fail e d, record { dirs = c; argv0 = argv0 })
      | undefined ↦ (undefined, record { dirs = c; argv0 = argv0 })
      | done i ↦
          let (with_argv0, argv0') = loader_supports_argv0 s l.host argv0 in
          (done (loader_plan r l with_argv0 argv depth), record { dirs = c; argv0 = argv0' })
    ]

-- The loop of `plan`. The number is how many rounds are left of the `kMaxShebangDepth + 1` that the
-- test of `depth` allows, so that a round has the depth `kMaxShebangDepth` less those behind it.
unfoldable pub plan_rounds :
    System
    → MountTable
    → Options
    → Bytes
    → Bytes
    → ℕ
    → Bytes
    → List Bytes
    → Caches
    → Try ExecPlan × Caches
unfolding plan_loader script_argv from_cwd direct_plan
plan_rounds s t o guest_path cwd zero current argv c = (
  fail eloop (
      diagnosis (codes "exec.shebang_loop")
        (codes "too many nested #! interpreters for " ++ guest_path)),
  c,
)
plan_rounds s t o guest_path cwd (suc n) current argv c =
    let (answer, dirs) = resolve s.host t current o c.dirs in
    elim answer [
      | failed e ↦ (fail e none, record c { dirs = dirs })
      | resolved r ↦ elim (examine s r) [
        | fail e d ↦ (fail e d, record c { dirs = dirs })
        | undefined ↦ (undefined, record c { dirs = dirs })
        | done (script interp arg) ↦
            plan_rounds s t o guest_path cwd n (from_cwd cwd interp)
              (script_argv interp arg current argv) (record c { dirs = dirs })
        | done static_program ↦
            (done (direct_plan r argv (max_shebang_depth - n)), record c { dirs = dirs })
        | done (dynamic_program loader) ↦
            plan_loader s r loader argv (max_shebang_depth - n) (resolve s.host t loader o dirs)
              c.argv0
      ]
    ]

unfoldable pub plan :
    System → MountTable → Bytes → List Bytes → Bytes → Options → Caches → Try ExecPlan × Caches
unfolding plan_rounds
plan s t guest_path argv_in cwd o c =
    let argv : List Bytes = if is_empty argv_in then guest_path ∷ [] else argv_in in
    if is_empty guest_path
    then (fail enoent none, c)
    else plan_rounds s t o guest_path cwd (max_shebang_depth + 1) (from_cwd cwd guest_path) argv c

-- The loop of `search_path` over the directories of the list, with the errno so far.
unfoldable pub search_dirs :
    System → MountTable → Options → Bytes → Bytes → ℕ → List Bytes → Cache → Reply Bytes × Cache
unfolding from_cwd
search_dirs s t o cwd name last [] c = (err last, c)
search_dirs s t o cwd name last (dir ∷ dirs) c =
    let dir' : Bytes = if is_empty dir then cwd else dir in
    let candidate = join (from_cwd cwd dir') name in
    let (answer, c') = resolve s.host t candidate o c in
    elim answer [
      | failed e ↦ search_dirs s t o cwd name last dirs c'
      | resolved r ↦
          if r.exists && not r.is_dir
          then elim (s.access r.host) [
            | none ↦ (ok candidate, c')
            | some e ↦ search_dirs s t o cwd name eacces dirs c'
          ]
          else search_dirs s t o cwd name last dirs c'
    ]

unfoldable pub search_path :
    System → MountTable → Bytes → Bytes → Bytes → Options → Cache → Reply Bytes × Cache
unfolding search_dirs
search_path s t name path_list cwd o c = search_dirs s t o cwd name enoent (split path_list b':') c

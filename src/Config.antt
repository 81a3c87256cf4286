-- ===== src/Config.antt =====
-- core/config.hpp and .cpp: the session configuration and its validation. `realpath`, `stat`
-- and `fcntl` belong to the host: they are the record `Machine`.
pub mod Guest
pub mod Env
pub mod Valid
use vhdp.Base.{
  ℕ, ◌+◌, ◌-◌, ◌*◌, ◌^◌, Bool, true, false, ◌&&◌, ◌||◌, not, List, [], ◌∷◌, ◌++◌, Option, some,
  none, Bytes, codes, eq_bytes, starts_with, has_byte, if◌then◌else◌, length, ltb, leb, ◌==◌,
  is_empty, ◌⊎◌, inl, inr,
}
use vhdp.Base.Int.{ℤ, pos, negsuc}
use vhdp.Path.{is_absolute, has_dotdot, normalize_lexical, is_below, path_max, root}
use vhdp.Strings.{contains_nul}
use vhdp.Status.{
  errno_status, Code, Status, ok_status, fail_with, invalid_argument, rootfs_invalid, bind_invalid,
  Result, value, failure, ◌>>=◌,
}

pub data EngineKind : Type 0 where
  auto_select rootless rooted emulator vm : EngineKind

-- `engine_name`; an enumerator has no other value here.
unfoldable pub engine_name : EngineKind → Bytes
engine_name EngineKind.auto_select = codes "auto"
engine_name EngineKind.rootless = codes "rootless"
engine_name EngineKind.rooted = codes "rooted"
engine_name EngineKind.emulator = codes "emulator"
engine_name EngineKind.vm = codes "vm"

-- A value from the C interface may be none of the enumerators.
pub data StdioMode : Type 0 where
  inherit pty fds unknown : StdioMode

pub data ProcMode : Type 0 where
  no_proc host_proc : ProcMode

pub record BindSpec : Type 0 where
  pub host : Bytes
  pub guest : Bytes
  pub read_write : Bool

-- `SessionConfig`: the fields that `validate_config` reads or writes. The others are copied.
pub record SessionConfig : Type 0 where
  pub rootfs : Bytes
  pub cwd : Bytes
  pub argv : List Bytes
  pub env : List Bytes
  pub clear_env : Bool
  pub binds : List BindSpec
  pub uid : Option ℕ
  pub gid : Option ℕ
  pub timeout_ms : ℕ
  pub stdio : StdioMode
  pub stdio_fds : ℤ × ℤ × ℤ
  pub pty_rows : ℕ
  pub pty_cols : ℕ
  pub has_output_fn : Bool
  pub proc : ProcMode

pub record ValidatedConfig : Type 0 where
  pub cfg : SessionConfig
  pub final_env : List Bytes

-- What the host answers: the canonical path or an errno; whether a path is a directory; whether a
-- descriptor is open.
pub record Machine : Type 0 where
  pub real_path : Bytes → Bytes ⊎ ℕ
  pub is_dir : Bytes → Bool
  pub is_open : ℤ → Bool

abbrev pub max_timeout : ℕ
max_timeout = 366 * 24 * 3600 * 1000

abbrev pub max_args : ℕ
max_args = 4096

abbrev pub max_env : ℕ
max_env = 4096

abbrev pub max_binds : ℕ
max_binds = 256

abbrev pub max_arg_bytes : ℕ
max_arg_bytes = 256 * 1024

-- `kv.substr(0, kv.find('='))`, and whether there is a "=".
unfoldable pub env_key : Bytes → Bytes
env_key [] = []
env_key (c ∷ s) = let rest = env_key s in if c == b'=' then [] else c ∷ rest

unfoldable pub valid_env_entry : Bytes → Bool
unfolding env_key has_byte contains_nul
valid_env_entry kv = has_byte b'=' kv && not (is_empty (env_key kv)) && not (contains_nul kv)

unfoldable pub check_guest_path : Bytes → Bytes → Status
unfolding contains_nul is_absolute has_dotdot
check_guest_path p what =
    if is_empty p || contains_nul p
    then fail_with invalid_argument (what ++ codes " must be a non-empty path without NUL bytes")
    else if not (is_absolute p)
    then fail_with invalid_argument (what ++ (codes " must be an absolute guest path: " ++ p))
    else if leb path_max (length p)
    then fail_with invalid_argument (what ++ codes " is longer than PATH_MAX")
    else if has_dotdot p
    then fail_with invalid_argument (what ++ (codes " must not contain '..': " ++ p))
    else ok_status

-- The guard around a failure.
abbrev refuse : Bool → Code → Bytes → Result {0} Unit
refuse b code message = if b then failure (fail_with code message) else value tt

-- `if (auto s = ...; !s.is_ok()) return s;`
abbrev require : Status → Result {0} Unit
require s = elim s.code [ Code.ok ↦ value tt | _ ↦ failure s ]

module _ (m : Machine) where
  unfoldable pub canonical_dir : Bytes → Code → Bytes → Result Bytes
  unfolding contains_nul errno_status
  canonical_dir path code what =
      if is_empty path || contains_nul path
      then failure (fail_with code (what ++ codes " path is empty or contains NUL"))
      else elim (m.real_path path) [
        | inl p ↦ value p
        | inr e ↦ failure (errno_status code (what ++ codes " '" ++ path ++ codes "'") e)
      ]

-- Whether an entry has that key: it is longer, starts with the key and goes on with "=".
unfoldable pub has_env_key : Bytes → Bytes → Bool
unfolding starts_with
has_env_key key e = starts_with (key ++ b'=' ∷ []) e

unfoldable pub replace_env : Bytes → Bytes → List Bytes → List Bytes
unfolding has_env_key
replace_env key kv [] = kv ∷ []
replace_env key kv (e ∷ env) =
    let rest = replace_env key kv env in if has_env_key key e then kv ∷ env else e ∷ rest

unfoldable pub set_env : List Bytes → Bytes → List Bytes
unfolding replace_env env_key
set_env env kv = replace_env (env_key kv) kv env

-- `kHostEnvAllowlist`
abbrev pub host_env_allowlist : List Bytes
host_env_allowlist =
    codes "TERM" ∷ codes "COLORTERM" ∷ codes "LANG" ∷ codes "LC_ALL" ∷ codes "TZ" ∷ []

unfoldable pub copy_host_env : (Bytes → Option Bytes) → List Bytes → List Bytes → List Bytes
unfolding set_env contains_nul
copy_host_env host_env env [] = env
copy_host_env host_env env (name ∷ names) =
    copy_host_env host_env
      (elim (host_env name) [
        | none ↦ env
        | some v ↦ if contains_nul v then env else set_env env (name ++ b'=' ∷ v)
      ])
      names

-- The environment that a guest starts from; the lookup may be missing.
unfoldable pub base_env : Option (Bytes → Option Bytes) → Option ℕ → List Bytes
unfolding set_env copy_host_env
base_env host_env uid =
    let guest_root : Bool = elim uid [ none ↦ false | some u ↦ u == 0 ] in
    let path =
      set_env [] (codes "PATH=/usr/local/sbin:/usr/local/bin:/usr/sbin:/usr/bin:/sbin:/bin") in
    let home = set_env path (if guest_root then codes "HOME=/root" else codes "HOME=/") in
    let user =
      if guest_root
      then set_env (set_env home (codes "USER=root")) (codes "LOGNAME=root")
      else home in
    elim host_env [ none ↦ user | some f ↦ copy_host_env f user host_env_allowlist ]

unfoldable pub add_env : List Bytes → List Bytes → Result (List Bytes)
unfolding valid_env_entry set_env
add_env env [] = value env
add_env env (kv ∷ more) =
    let rest = add_env (set_env env kv) more in
    if valid_env_entry kv
    then rest
    else failure (
        fail_with invalid_argument (codes "invalid environment entry (expected KEY=VALUE): " ++ kv))

unfoldable pub any_nul : List Bytes → Bool
unfolding contains_nul
any_nul [] = false
any_nul (a ∷ args) = contains_nul a || any_nul args

-- The bytes of texts that end in a NUL.
unfoldable pub sum_bytes : List Bytes → ℕ
sum_bytes [] = 0
sum_bytes (a ∷ args) = length a + 1 + sum_bytes args

abbrev has_empty_name : List Bytes → Bool
has_empty_name [] = false
has_empty_name (a ∷ _) = is_empty a

unfoldable pub check_argv : List Bytes → Result {0} Unit
unfolding any_nul
check_argv argv = do
  _ ← refuse (ltb max_args (length argv)) invalid_argument (codes "too many command arguments")
  _ ← refuse (any_nul argv) invalid_argument (codes "command argument contains a NUL byte")
  refuse (has_empty_name argv) invalid_argument (codes "command name is empty")

unfoldable pub final_env : SessionConfig → Option (Bytes → Option Bytes) → Result (List Bytes)
unfolding base_env add_env sum_bytes
final_env c host_env = do
  _ ← refuse (ltb max_env (length c.env)) invalid_argument (codes "too many environment entries")
  env ← add_env (if c.clear_env then [] else base_env host_env c.uid) c.env
  _ ←
      refuse (ltb max_arg_bytes (sum_bytes c.argv + sum_bytes env)) invalid_argument
        (codes "command arguments and environment exceed 256 KiB")
  value env

-- Whether a path is in a list: the answer of `std::set::insert`, negated.
unfoldable pub has_path : Bytes → List Bytes → Bool
has_path p [] = false
has_path p (q ∷ paths) = eq_bytes p q || has_path p paths

abbrev is_proc_host : ProcMode → Bool
is_proc_host no_proc = false
is_proc_host host_proc = true

abbrev pub is_ok : Status → Bool
is_ok s = elim s.code [ Code.ok ↦ true | _ ↦ false ]

abbrev bind_error : Bytes → Result BindSpec
bind_error message = failure (fail_with bind_invalid message)

abbrev with_guest : BindSpec → Bytes → Result Bytes → Result BindSpec
with_guest b guest (value source) =
    value (record { host = source; guest = guest; read_write = b.read_write })
with_guest b guest (failure s) = failure s

-- One bind, with the guest paths so far.
unfoldable pub take_bind : Machine → ProcMode → List Bytes → BindSpec → Result BindSpec
take_bind m proc guests b =
    let checked = check_guest_path b.guest (codes "bind guest path") in
    let guest = normalize_lexical b.guest in
    if not (is_ok checked)
    then bind_error checked.message
    else if eq_bytes guest root
    then bind_error (codes "cannot bind over the guest root '/'")
    else if is_proc_host proc && is_below guest (codes "/proc")
    then bind_error (codes "bind target " ++ (guest ++ codes " conflicts with --proc host"))
    else if has_path guest guests
    then bind_error (codes "duplicate bind target: " ++ guest)
    else with_guest b guest (canonical_dir m b.host bind_invalid (codes "bind source"))

-- The loop over the binds.
unfoldable pub check_binds :
    Machine → ProcMode → List Bytes → List BindSpec → Result (List BindSpec)
unfolding take_bind
check_binds m proc guests [] = value []
check_binds m proc guests (b ∷ binds) = elim (take_bind m proc guests b) [
  | failure s ↦ failure s
  | value taken ↦ elim (check_binds m proc (taken.guest ∷ guests) binds) [
    | failure s ↦ failure s
    | value rest ↦ value (taken ∷ rest)
  ]
]

abbrev is_reserved : Option ℕ → Bool
is_reserved none = false
is_reserved (some id) = id == 2 ^ 32 - 1

abbrev is_negative : ℤ → Bool
is_negative (pos _) = false
is_negative (negsuc _) = true

unfoldable pub check_stdio : Machine → SessionConfig → Result {0} Unit
check_stdio m c =
    let bad = λ (fd : ℤ). is_negative fd || not (m.is_open fd) in
    elim c.stdio [
      | inherit ↦ value tt
      | pty ↦
          refuse (c.pty_rows == 0 || c.pty_cols == 0) invalid_argument
            (codes "PTY rows and columns must be non-zero")
      | fds ↦
          refuse (bad c.stdio_fds.0 || bad c.stdio_fds.1 || bad c.stdio_fds.2) invalid_argument
            (codes "VHDP_STDIO_FDS requires three open file descriptors")
      | unknown ↦ failure (fail_with invalid_argument (codes "unknown stdio mode"))
    ]

abbrev is_pty : StdioMode → Bool
is_pty pty = true
is_pty _ = false

unfoldable pub check_root : Machine → Bytes → Result Bytes
unfolding canonical_dir
check_root m path = do
  _ ← refuse (is_empty path) rootfs_invalid (codes "no rootfs directory configured")
  rootfs ← canonical_dir m path rootfs_invalid (codes "rootfs")
  _ ← refuse (not (m.is_dir rootfs)) rootfs_invalid (codes "rootfs is not a directory: " ++ rootfs)
  _ ←
      refuse (eq_bytes rootfs root) rootfs_invalid
        (codes "rootfs resolves to the host root '/'; point phdp at a root filesystem directory")
  value rootfs

-- What is checked behind the binds.
unfoldable pub check_rest : Machine → SessionConfig → Result {0} Unit
unfolding check_stdio
check_rest m c = do
  _ ← refuse (is_reserved c.uid) invalid_argument (codes "uid 4294967295 is reserved")
  _ ← refuse (is_reserved c.gid) invalid_argument (codes "gid 4294967295 is reserved")
  _ ←
      refuse (ltb max_timeout c.timeout_ms) invalid_argument
        (codes "timeout is longer than one year")
  _ ← check_stdio m c
  refuse (c.has_output_fn && not (is_pty c.stdio)) invalid_argument
      (codes "an output callback requires VHDP_STDIO_PTY")

-- `cwd` and `argv`.
unfoldable pub check_guest : SessionConfig → Result {0} Unit
unfolding check_guest_path check_argv
check_guest c = do _ ← require (check_guest_path c.cwd (codes "cwd")); check_argv c.argv

abbrev validated : SessionConfig → Bytes → List Bytes → List BindSpec → ValidatedConfig
validated c rootfs env binds = record {
  cfg = record c { rootfs = rootfs; cwd = normalize_lexical c.cwd; binds = binds };
  final_env = env;
}

-- From the binds on.
unfoldable pub validate_binds :
    Machine → SessionConfig → Bytes → List Bytes → Result ValidatedConfig
unfolding check_binds check_rest
validate_binds m c rootfs env =
    if ltb max_binds (length c.binds)
    then failure (fail_with bind_invalid (codes "too many binds"))
    else elim (check_binds m c.proc [] c.binds) [
      | failure s ↦ failure s
      | value binds ↦ elim (check_rest m c) [
        | failure s ↦ failure s
        | value _ ↦ value (validated c rootfs env binds)
      ]
    ]

unfoldable pub validate_config :
    Machine → SessionConfig → Option (Bytes → Option Bytes) → Result ValidatedConfig
unfolding check_root check_guest final_env validate_binds
validate_config m c host_env = elim (check_root m c.rootfs) [
  | failure s ↦ failure s
  | value rootfs ↦ elim (check_guest c) [
    | failure s ↦ failure s
    | value _ ↦ elim (final_env c host_env) [
      | failure s ↦ failure s
      | value env ↦ validate_binds m c rootfs env
    ]
  ]
]

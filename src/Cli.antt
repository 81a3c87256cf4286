-- ===== src/Cli.antt =====
-- cli/cli_args.hpp and .cpp: the command line of phdp. `usage_text` and `run_usage_text` are
-- constant texts and are not modelled.
mod Values
pub mod Valid
pub mod Parse
pub mod Arguments
pub use Values.{Result, ok, error, BindArg, max_timeout_ms}
unfoldable pub use Values.{
  parse_u32, parse_timeout, parse_bind, one_of, cut, split_inline, digits, fraction, milliseconds,
  bind_mode, bind_guest, bind_parts, bad_bind, ◌>>=◌,
}
use vhdp.Base.{
  ℕ, ◌+◌, ◌*◌, Bool, true, false, ◌&&◌, ◌||◌, not, List, [], ◌∷◌, ◌++◌, Option, some, none, String,
  Bytes, codes, eq_bytes, if◌then◌else◌, length, ltb, leb, ◌==◌, is_empty,
}
use vhdp.Path.{is_absolute}

-- `Command`
pub data Command : Type 0 where
  run doctor inspect capabilities help version : Command

-- `RunOptions`; `event_fd` is a number, since it is never negative.
pub record RunOptions : Type 0 where
  pub engine : Bytes
  pub cwd : Option Bytes
  pub env : List Bytes
  pub clear_env : Bool
  pub binds : List BindArg
  pub read_only_rootfs : Bool
  pub network : Bytes
  pub uid : Option ℕ
  pub gid : Option ℕ
  pub timeout_ms : Option ℕ
  pub trace : Bool
  pub verbose : Bool
  pub json : Bool
  pub event_fd : Option ℕ
  pub pty : Bool
  pub seccomp : Bytes
  pub dev : Bytes
  pub proc : Bytes
  pub rootfs : Bytes
  pub command : List Bytes

abbrev pub default_run : RunOptions
default_run = record {
  engine = codes "auto";
  cwd = none;
  env = [];
  clear_env = false;
  binds = [];
  read_only_rootfs = false;
  network = codes "host";
  uid = none;
  gid = none;
  timeout_ms = none;
  trace = false;
  verbose = false;
  json = false;
  event_fd = none;
  pty = false;
  seccomp = codes "auto";
  dev = codes "minimal";
  proc = codes "none";
  rootfs = [];
  command = [];
}

pub record Parsed : Type 0 where
  pub command : Command
  pub implicit_run : Bool
  pub run : RunOptions
  pub json : Bool
  pub no_active : Bool
  pub inspect_path : Bytes
  pub help_topic : Bytes

abbrev pub default_parsed : Parsed
default_parsed = record {
  command = help;
  implicit_run = false;
  run = default_run;
  json = false;
  no_active = false;
  inspect_path = [];
  help_topic = [];
}

-- The options of `run`, in the order of the tests on `name`.
pub data Opt : Type 0 where
  help_opt engine cwd env clear_env bind read_only_rootfs network uid gid timeout : Opt
  trace verbose json event_fd pty seccomp dev proc unknown : Opt

-- Whether `name` is that text.
abbrev pub is_text : Bytes → String → Bool
is_text name s = eq_bytes name (codes s)

unfoldable pub option_of : Bytes → Opt
option_of name =
    if is_text name "--help" || is_text name "-h"
    then Opt.help_opt
    else if is_text name "--engine"
    then Opt.engine
    else if is_text name "--cwd"
    then Opt.cwd
    else if is_text name "--env" || is_text name "-e"
    then Opt.env
    else if is_text name "--clear-env"
    then Opt.clear_env
    else if is_text name "--bind" || is_text name "-b"
    then Opt.bind
    else if is_text name "--read-only-rootfs"
    then Opt.read_only_rootfs
    else if is_text name "--network"
    then Opt.network
    else if is_text name "--uid"
    then Opt.uid
    else if is_text name "--gid"
    then Opt.gid
    else if is_text name "--timeout"
    then Opt.timeout
    else if is_text name "--trace"
    then Opt.trace
    else if is_text name "--verbose" || is_text name "-v"
    then Opt.verbose
    else if is_text name "--json"
    then Opt.json
    else if is_text name "--event-fd"
    then Opt.event_fd
    else if is_text name "--pty"
    then Opt.pty
    else if is_text name "--seccomp"
    then Opt.seccomp
    else if is_text name "--dev"
    then Opt.dev
    else if is_text name "--proc"
    then Opt.proc
    else Opt.unknown

-- An option is a flag, an option with a value, --help, or unknown.
pub data Sort : Type 0 where
  helps refused : Sort
  flag : (RunOptions → RunOptions) → Sort
  valued : Sort

unfoldable pub sort_of : Opt → Sort
sort_of Opt.help_opt = helps
sort_of Opt.unknown = refused
sort_of Opt.clear_env = flag (λ o. record o { clear_env = true })
sort_of Opt.read_only_rootfs = flag (λ o. record o { read_only_rootfs = true })
sort_of Opt.trace = flag (λ o. record o { trace = true })
sort_of Opt.verbose = flag (λ o. record o { verbose = true })
sort_of Opt.json = flag (λ o. record o { json = true })
sort_of Opt.pty = flag (λ o. record o { pty = true })
sort_of _ = valued

-- A value from a list of words, or the error that names them.
abbrev pub chosen : String → String → List Bytes → Bytes → RunOptions → Result RunOptions
chosen option choices allowed v o =
    if one_of v allowed
    then ok o
    else error (
        codes "invalid "
        ++ (codes option ++ (codes " '" ++ (v ++ (codes "': use " ++ codes choices)))))

-- The words that an option takes.
abbrev pub engines : List Bytes
engines = codes "auto" ∷ codes "rootless" ∷ codes "rooted" ∷ codes "emulator" ∷ codes "vm" ∷ []

abbrev pub networks : List Bytes
networks = codes "host" ∷ codes "none" ∷ []

abbrev pub seccomp_modes : List Bytes
seccomp_modes = codes "auto" ∷ codes "on" ∷ codes "off" ∷ []

abbrev pub dev_modes : List Bytes
dev_modes = codes "minimal" ∷ codes "none" ∷ []

abbrev pub proc_modes : List Bytes
proc_modes = codes "none" ∷ codes "host" ∷ []

-- KEY=VALUE with a key: the "=" is there and is not the first byte.
unfoldable pub has_key : Bytes → Bool
unfolding cut
has_key v =
    let (key, behind) = cut b'=' v in elim behind [ none ↦ false | some _ ↦ not (is_empty key) ]

unfoldable pub set_id : Bytes → Bytes → (ℕ → RunOptions) → Result RunOptions
set_id name v put = elim (parse_u32 v) [
  | none ↦
      error (codes "invalid " ++ (name ++ (codes " '" ++ (v ++ codes "': expected 0..4294967294"))))
  | some id ↦ ok (put id)
]

unfoldable pub set_timeout : Bytes → RunOptions → Result RunOptions
set_timeout v o = elim (parse_timeout v) [
  | none ↦
      error
        (codes "invalid --timeout '" ++ (v ++ codes "': expected positive seconds, e.g. 30 or 1.5"))
  | some ms ↦ ok (record o { timeout_ms = some ms })
]

abbrev bad_event_fd : Bytes → Bytes
bad_event_fd v =
    codes "invalid --event-fd '"
    ++ (v ++ codes "': must be a descriptor >= 2 (stdin/stdout are reserved for the guest)")

unfoldable pub set_event_fd : Bytes → RunOptions → Result RunOptions
set_event_fd v o = elim (parse_u32 v) [
  | none ↦ error (bad_event_fd v)
  | some fd ↦
      if ltb fd 2 || ltb (1024 * 1024) fd
      then error (bad_event_fd v)
      else ok (record o { event_fd = some fd })
]

-- What an option does with its value.
unfoldable pub set_value : Opt → Bytes → Bytes → RunOptions → Result RunOptions
unfolding has_key set_id set_timeout set_event_fd
set_value Opt.engine name v o =
    chosen "--engine" "auto|rootless|rooted|emulator|vm" engines v (record o { engine = v })
set_value Opt.cwd name v o =
    if is_absolute v
    then ok (record o { cwd = some v })
    else error (codes "--cwd requires an absolute guest path")
set_value Opt.env name v o =
    if has_key v
    then ok (record o { env = o.env ++ v ∷ [] })
    else error (codes "invalid --env '" ++ (v ++ codes "': expected KEY=VALUE"))
set_value Opt.bind name v o = do b ← parse_bind v; ok (record o { binds = o.binds ++ b ∷ [] })
set_value Opt.network name v o =
    chosen "--network" "host|none" networks v (record o { network = v })
set_value Opt.uid name v o = set_id name v (λ id. record o { uid = some id })
set_value Opt.gid name v o = set_id name v (λ id. record o { gid = some id })
set_value Opt.timeout name v o = set_timeout v o
set_value Opt.event_fd name v o = set_event_fd v o
set_value Opt.seccomp name v o =
    chosen "--seccomp" "auto|on|off" seccomp_modes v (record o { seccomp = v })
set_value Opt.dev name v o = chosen "--dev" "minimal|none" dev_modes v (record o { dev = v })
set_value Opt.proc name v o = chosen "--proc" "none|host" proc_modes v (record o { proc = v })
set_value _ name v o = ok o

-- What one option does: the parse ends, or goes on with the next argument, or behind it.
pub data Step : Type 0 where
  ends : Result Parsed → Step
  keeps eats : RunOptions → Step

abbrev pub run_help : Parsed
run_help = record default_parsed { help_topic = codes "run" }

unfoldable pub keep : Result RunOptions → Step
keep (ok o) = keeps o
keep (error m) = ends (error m)

unfoldable pub eat : Result RunOptions → Step
eat (ok o) = eats o
eat (error m) = ends (error m)

-- The lambda `value`: the inline value, or the next argument.
unfoldable pub with_value : Opt → Bytes → Option Bytes → List Bytes → RunOptions → Step
unfolding keep eat
with_value opt name (some v) rest o = keep (set_value opt name v o)
with_value opt name none [] o =
    ends (error (codes "option " ++ (name ++ codes " requires a value")))
with_value opt name none (v ∷ _) o = eat (set_value opt name v o)

-- The lambda `flag`.
unfoldable pub set_flag : Bytes → Option Bytes → RunOptions → Step
set_flag name none o = keeps o
set_flag name (some _) o =
    ends (error (codes "option " ++ (name ++ codes " does not take a value")))

-- What an option of that sort does.
unfoldable pub apply_option : Sort → Opt → Bytes → Option Bytes → List Bytes → RunOptions → Step
unfolding with_value set_flag
apply_option helps opt name inline rest o = ends (ok run_help)
apply_option refused opt name inline rest o =
    ends (error (codes "unknown option '" ++ (name ++ codes "' (see phdp run --help)")))
apply_option (flag set) opt name inline rest o = set_flag name inline (set o)
apply_option valued opt name inline rest o = with_value opt name inline rest o

-- One option, with the arguments behind it.
unfoldable pub option_step : Bytes → List Bytes → RunOptions → Step
unfolding split_inline option_of sort_of apply_option
option_step tok rest o =
    let (name, inline) = split_inline tok in
    apply_option (sort_of (option_of name)) (option_of name) name inline rest o

unfoldable pub finish_run : Bool → RunOptions → Result Parsed
finish_run implicit o =
    if is_empty o.rootfs
    then error (codes "missing ROOTFS_DIR (see phdp --help)")
    else ok (record default_parsed { command = run; implicit_run = implicit; run = o })

-- At "--".
unfoldable pub take_command : Bool → RunOptions → List Bytes → Result Parsed
unfolding finish_run
take_command implicit o rest =
    if is_empty o.rootfs
    then error (codes "ROOTFS_DIR must be given before '--'")
    else if is_empty rest
    then error (codes "'--' must be followed by a command")
    else finish_run implicit (record o { command = o.command ++ rest })

unfoldable pub starts_with_dash : Bytes → Bool
starts_with_dash [] = false
starts_with_dash (c ∷ _) = c == b'-'

abbrev pub after_rootfs : Bytes → Bytes
after_rootfs tok =
    if starts_with_dash tok
    then codes "option '" ++ (tok ++ codes "' after ROOTFS_DIR; put options before ROOTFS_DIR")
    else codes "unexpected argument '"
      ++ (tok
          ++ codes
              "' after ROOTFS_DIR; separate the command with '--' (phdp run ROOTFS -- COMMAND)")

-- One argument, with those behind it.
unfoldable pub argument_step : Bool → Bytes → List Bytes → RunOptions → Step
unfolding take_command starts_with_dash option_step
argument_step implicit tok rest o =
    if is_text tok "--"
    then ends (take_command implicit o rest)
    else if not (is_empty o.rootfs)
    then ends (error (after_rootfs tok))
    else if is_empty tok
    then ends (error (codes "empty argument"))
    else if not (starts_with_dash tok)
    then keeps (record o { rootfs = tok })
    else option_step tok rest o

-- The loop of `parse_run`.
unfoldable pub parse_run : Bool → RunOptions → List Bytes → Result Parsed
unfolding argument_step finish_run
parse_run implicit o [] = finish_run implicit o
parse_run implicit o (tok ∷ []) = elim (argument_step implicit tok [] o) [
  | ends r ↦ r
  | keeps o' ↦ parse_run implicit o' []
  | eats o' ↦ parse_run implicit o' []
]
parse_run implicit o (tok ∷ next ∷ rest) = elim (argument_step implicit tok (next ∷ rest) o) [
  | ends r ↦ r
  | keeps o' ↦ parse_run implicit o' (next ∷ rest)
  | eats o' ↦ parse_run implicit o' rest
]

unfoldable pub is_subcommand_name : Bytes → Bool
is_subcommand_name s =
    is_text s "doctor"
    || is_text s "inspect"
    || is_text s "capabilities"
    || is_text s "run"
    || is_text s "help"
    || is_text s "version"

abbrev pub help_about : Bytes → Parsed
help_about topic = record default_parsed { help_topic = topic }

abbrev unexpected : Bytes → Bytes
unexpected first = codes "unexpected arguments after " ++ first

unfoldable pub parse_help : Bytes → List Bytes → Result Parsed
unfolding is_subcommand_name
parse_help first [] = ok default_parsed
parse_help first (topic ∷ rest) =
    if is_text first "help"
    then (if not (is_empty rest) || not (is_subcommand_name topic)
        then error (codes "usage: phdp help [doctor|inspect|capabilities|run|version]")
        else ok (help_about topic))
    else error (unexpected first)

-- The loop over the arguments of doctor and capabilities.
unfoldable pub parse_report : Bytes → Parsed → List Bytes → Result Parsed
parse_report first p [] = ok p
parse_report first p (a ∷ rest) =
    let doc = is_text first "doctor" in
    let more =
      parse_report first
        (if is_text a "--json" then record p { json = true } else record p { no_active = true })
        rest in
    if is_text a "--json" || (is_text a "--no-active" && doc)
    then more
    else if is_text a "--help" || is_text a "-h"
    then ok (record p { command = help; help_topic = first })
    else error (codes "unknown argument for " ++ (first ++ (codes ": '" ++ (a ++ codes "'"))))

-- The loop over the arguments of inspect.
unfoldable pub parse_inspect : Parsed → List Bytes → Result Parsed
unfolding starts_with_dash
parse_inspect p [] =
    if is_empty p.inspect_path then error (codes "inspect requires ROOTFS_DIR") else ok p
parse_inspect p (a ∷ rest) =
    let more =
      parse_inspect
        (if is_text a "--json" then record p { json = true } else record p { inspect_path = a })
        rest in
    if is_text a "--json"
    then more
    else if is_text a "--help" || is_text a "-h"
    then ok (record p { command = help; help_topic = codes "inspect" })
    else if starts_with_dash a
    then error (codes "unknown option for inspect: '" ++ (a ++ codes "'"))
    else if is_empty p.inspect_path
    then more
    else error (codes "inspect takes exactly one ROOTFS_DIR")

unfoldable pub parse_arguments : List Bytes → Result Parsed
unfolding parse_help parse_report parse_inspect parse_run
parse_arguments [] = error (codes "missing ROOTFS_DIR or subcommand (see phdp --help)")
parse_arguments (first ∷ rest) =
    if is_text first "--help" || is_text first "-h" || is_text first "help"
    then parse_help first rest
    else if is_text first "--version" || is_text first "-V" || is_text first "version"
    then (if not (is_empty rest)
        then error (unexpected first)
        else ok (record default_parsed { command = version }))
    else if is_text first "doctor"
    then parse_report first (record default_parsed { command = doctor }) rest
    else if is_text first "capabilities"
    then parse_report first (record default_parsed { command = capabilities }) rest
    else if is_text first "inspect"
    then parse_inspect (record default_parsed { command = inspect }) rest
    else if is_text first "run"
    then parse_run false default_run rest
    else parse_run true default_run (first ∷ rest)

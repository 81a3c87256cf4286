-- ===== src/Tests/Session.antt =====
-- Configuration, command line, lifecycle and text.
use vhdp.Base.{
  ◌+◌, ◌≤◌, ◌^◌, ◌&&◌, true, false, [], ◌∷◌, Bytes, codes, ◌≡◌, ◌≢◌, ◌↔◌, refl, All, some, none,
  inl, eq_bytes, if◌then◌else◌, length, leb, ltb, has_byte,
}
use vhdp.Base.Int.{pos}
use vhdp.Path.{normalize_lexical}
use vhdp.Strings.{parse_u64, split}
use vhdp.Strings.Numbers.{parse_u64_exact, all_digits, value_from}
use vhdp.Strings.Split.{join_by, count, HasNo, split-join_by}
use vhdp.Status.{ok, invalid_state, value}
use vhdp.Lifecycle.{created, running, exited, cancelled, is_terminal, transition}
use vhdp.Lifecycle.Runs.{Arrow, transition-Arrow, run, changes, run_terminal}
use vhdp.Config.{
  EngineKind, auto_select, rootless, rooted, SessionConfig, ValidatedConfig, BindSpec, Machine,
  inherit, no_proc, validate_config, check_guest_path, env_key, set_env,
}
use vhdp.Config.Guest.{IsGuestPath, check_guest_path_iff}
use vhdp.Config.Env.{find_env, set_env-find_env}
use vhdp.Config.Valid.{IsValid, validate_config-IsValid}
use vhdp.Engine.{ProbeReport, EngineChoice, find, select_engine}
use vhdp.Engine.Choice.{wanted, select_engine-kind}
use vhdp.Json.{json_quote}
use vhdp.Json.Validator.{json_validate}
use vhdp.Json.Quote.{json_validate-json_quote}
use vhdp.Cli.{parse_arguments}
use vhdp.Cli.Parse.{GoodParse}
use vhdp.Cli.Arguments.{parse_arguments-GoodParse}

transition-Arrow_example :
    (((transition created running).0.code ≡ ok) ↔ Arrow created running)
    × (((transition created running).0.code ≡ ok) → (transition created running).1 ≡ running)
    × ((transition created running).0.code ≢ ok
        → ((transition created running).0.code ≡ invalid_state)
          × ((transition created running).1 ≡ created))
transition-Arrow_example = transition-Arrow created running

run_terminal_example :
    (is_terminal exited ≡ true → run exited (cancelled ∷ running ∷ []) ≡ exited)
    × (changes created (cancelled ∷ running ∷ []) ≤ 3)
run_terminal_example = run_terminal exited (cancelled ∷ running ∷ [])

parse_u64_exact_example : parse_u64 (codes "18446744073709551616") ≡ (
    if leb 1 (length (codes "18446744073709551616"))
      && leb (length (codes "18446744073709551616")) 20
      && all_digits (codes "18446744073709551616")
      && ltb (value_from 0 (codes "18446744073709551616")) (2 ^ 64)
    then some (value_from 0 (codes "18446744073709551616"))
    else none)
parse_u64_exact_example = parse_u64_exact (codes "18446744073709551616")

split-join_by_example :
    (join_by b':' (split (codes "a::b") b':') ≡ codes "a::b")
    × All (HasNo b':') (split (codes "a::b") b':')
    × (length (split (codes "a::b") b':') ≡ count b':' (codes "a::b") + 1)
split-join_by_example = split-join_by (codes "a::b") b':'

json_validate-json_quote_example :
    json_validate (json_quote (0x22 ∷ 0xC3 ∷ 0x0A ∷ 0xE2 ∷ [])) ≡ true
json_validate-json_quote_example = json_validate-json_quote (0x22 ∷ 0xC3 ∷ 0x0A ∷ 0xE2 ∷ [])

check_guest_path_iff_example :
    ((check_guest_path (codes "/a/../b") (codes "cwd")).code ≡ ok) ↔ IsGuestPath (codes "/a/../b")
check_guest_path_iff_example = check_guest_path_iff (codes "/a/../b") (codes "cwd")

set_env-find_env_example :
    (find_env (env_key (codes "A=2")) (set_env (codes "AB=0" ∷ codes "A=1" ∷ []) (codes "A=2"))
      ≡ some (codes "A=2"))
    × ((other : Bytes)
        → has_byte b'=' other ≡ false
        → env_key (codes "A=2") ≢ other
        → find_env other (set_env (codes "AB=0" ∷ codes "A=1" ∷ []) (codes "A=2"))
          ≡ find_env other (codes "AB=0" ∷ codes "A=1" ∷ []))
unfolding has_byte
set_env-find_env_example = set_env-find_env (codes "AB=0" ∷ codes "A=1" ∷ []) (codes "A=2") refl

-- A machine where every path is canonical and a directory.
abbrev machine : Machine
machine = record { real_path = λ p. inl p; is_dir = λ _. true; is_open = λ _. true }

abbrev given : SessionConfig
given = record {
  rootfs = codes "/srv";
  cwd = codes "/a/./b";
  argv = codes "sh" ∷ [];
  env = codes "A=1" ∷ [];
  clear_env = true;
  binds = record { host = codes "/mnt"; guest = codes "/data/"; read_write = true } ∷ [];
  uid = some 0;
  gid = none;
  timeout_ms = 1000;
  stdio = inherit;
  stdio_fds = (pos 0, pos 1, pos 2);
  pty_rows = 24;
  pty_cols = 80;
  has_output_fn = false;
  proc = no_proc;
}

abbrev answer : ValidatedConfig
answer = record {
  cfg = record given {
    cwd = codes "/a/b";
    binds = record { host = codes "/mnt"; guest = codes "/data"; read_write = true } ∷ [];
  };
  final_env = codes "A=1" ∷ [];
}

given_passes : validate_config machine given none ≡ value answer
unfolding validate_config eq_bytes normalize_lexical vhdp.Config.has_path
given_passes = refl

validate_config-IsValid_example : IsValid machine given answer
validate_config-IsValid_example = validate_config-IsValid machine given none given_passes

-- The rootless engine is built and works; the rooted one is built and does not.
abbrev probe : EngineKind → ProbeReport
probe rootless = record { available = true; reason = codes "ptrace works" }
probe _ = record { available = false; reason = codes "needs root" }

abbrev choice : EngineChoice
choice = record { engine = rootless; reason = codes "auto selected rootless: ptrace works" }

auto_chosen : select_engine probe auto_select (rooted ∷ rootless ∷ []) ≡ value choice
unfolding select_engine find
auto_chosen = refl

select_engine-kind_example :
    (choice.engine ≡ wanted auto_select)
    × (find (wanted auto_select) (rooted ∷ rootless ∷ []) ≡ some choice.engine)
    × ((probe choice.engine).available ≡ true)
select_engine-kind_example =
    select_engine-kind probe auto_select (rooted ∷ rootless ∷ []) auto_chosen

parse_arguments-GoodParse_example :
    GoodParse
      (parse_arguments (codes "-e" ∷ codes "A=1" ∷ codes "/srv" ∷ codes "--" ∷ codes "sh" ∷ []))
parse_arguments-GoodParse_example =
    parse_arguments-GoodParse
      (codes "-e" ∷ codes "A=1" ∷ codes "/srv" ∷ codes "--" ∷ codes "sh" ∷ [])

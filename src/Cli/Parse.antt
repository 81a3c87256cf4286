-- ===== src/Cli/Parse.antt =====
-- The options of a run stay valid through the loop of `parse_run`.
use vhdp.Base.{
  Bytes, Bool, true, false, not, List, [], ◌∷◌, ◌++◌, Option, some, none, ◌≡◌, refl, is_empty,
  if-elim,
}
use vhdp.Path.{is_absolute}
use vhdp.Strings.{split}
use vhdp.Cli.{
  run, RunOptions, Parsed, Opt, option_of, Sort, helps, refused, flag, valued, sort_of, has_key,
  set_value, Step, ends, keeps, eats, keep, eat, with_value, set_flag, option_step, finish_run,
  take_command, starts_with_dash, argument_step, parse_run, Result, ok, error, BindArg, parse_bind,
  split_inline, apply_option, ◌>>=◌, is_text, one_of, engines, networks, seccomp_modes, dev_modes,
  proc_modes,
}
use vhdp.Cli.Valid.{
  IsRun, valid, IsRun-default, engine-IsRun, network-IsRun, seccomp-IsRun, dev-IsRun, proc-IsRun,
  cwd-IsRun, env-IsRun, bind-IsRun, uid-IsRun, gid-IsRun, rootfs-IsRun, command-IsRun, Good, good,
  bad, bind_parts-absolute, set_timeout-Good, set_event_fd-Good, set_id-Good,
}

bind_result-Good :
    (o : RunOptions) (r : Result BindArg)
    → IsRun o
    → ((b : BindArg) → r ≡ ok b → is_absolute b.guest ≡ true)
    → Good (do b ← r; ok (record o { binds = o.binds ++ b ∷ [] }))
bind_result-Good o (ok b) g h = good (bind-IsRun b o (h b refl) g)
bind_result-Good o (error m) g h = bad

set_value-Good :
    (opt : Opt) (name v : Bytes) (o : RunOptions) → IsRun o → Good (set_value opt name v o)
unfolding set_value parse_bind
set_value-Good Opt.engine name v o g =
    if-elim Good (one_of v engines) (λ h. good (engine-IsRun v o h g)) (λ _. bad)
set_value-Good Opt.network name v o g =
    if-elim Good (one_of v networks) (λ h. good (network-IsRun v o h g)) (λ _. bad)
set_value-Good Opt.seccomp name v o g =
    if-elim Good (one_of v seccomp_modes) (λ h. good (seccomp-IsRun v o h g)) (λ _. bad)
set_value-Good Opt.dev name v o g =
    if-elim Good (one_of v dev_modes) (λ h. good (dev-IsRun v o h g)) (λ _. bad)
set_value-Good Opt.proc name v o g =
    if-elim Good (one_of v proc_modes) (λ h. good (proc-IsRun v o h g)) (λ _. bad)
set_value-Good Opt.cwd name v o g =
    if-elim Good (is_absolute v) (λ h. good (cwd-IsRun v o h g)) (λ _. bad)
set_value-Good Opt.env name v o g =
    if-elim Good (has_key v) (λ h. good (env-IsRun v o h g)) (λ _. bad)
set_value-Good Opt.bind name v o g =
    bind_result-Good o _ g (λ b e. bind_parts-absolute v (split v b':') e)
set_value-Good Opt.uid name v o g = set_id-Good name v _ (λ n l. uid-IsRun n o l g)
set_value-Good Opt.gid name v o g = set_id-Good name v _ (λ n l. gid-IsRun n o l g)
set_value-Good Opt.timeout name v o g = set_timeout-Good v o g
set_value-Good Opt.event_fd name v o g = set_event_fd-Good v o g
set_value-Good Opt.help_opt name v o g = good g
set_value-Good Opt.clear_env name v o g = good g
set_value-Good Opt.read_only_rootfs name v o g = good g
set_value-Good Opt.trace name v o g = good g
set_value-Good Opt.verbose name v o g = good g
set_value-Good Opt.json name v o g = good g
set_value-Good Opt.pty name v o g = good g
set_value-Good Opt.unknown name v o g = good g

-- The results that may come out of the parse, and the steps towards them.
pub data GoodParse : Result Parsed → Type 0 where
  parsed :
      {p : Parsed}
      → IsRun p.run
      → (p.command ≡ run → is_empty p.run.rootfs ≡ false)
      → GoodParse (ok p)
  failed : {m : Bytes} → GoodParse (error m)

data GoodStep : Step → Type 0 where
  good_end : {r : Result Parsed} → GoodParse r → GoodStep (ends r)
  good_keep : {o : RunOptions} → IsRun o → GoodStep (keeps o)
  good_eat : {o : RunOptions} → IsRun o → GoodStep (eats o)

keep-GoodStep : {r : Result RunOptions} → Good r → GoodStep (keep r)
unfolding keep
keep-GoodStep (good g) = good_keep g
keep-GoodStep bad = good_end failed

eat-GoodStep : {r : Result RunOptions} → Good r → GoodStep (eat r)
unfolding eat
eat-GoodStep (good g) = good_eat g
eat-GoodStep bad = good_end failed

with_value-GoodStep :
    (opt : Opt) (name : Bytes) (value : Option Bytes) (rest : List Bytes) (o : RunOptions)
    → IsRun o
    → GoodStep (with_value opt name value rest o)
unfolding with_value
with_value-GoodStep opt name (some v) rest o g = keep-GoodStep (set_value-Good opt name v o g)
with_value-GoodStep opt name none [] o g = good_end failed
with_value-GoodStep opt name none (v ∷ _) o g = eat-GoodStep (set_value-Good opt name v o g)

set_flag-GoodStep :
    (name : Bytes) (value : Option Bytes) (o : RunOptions)
    → IsRun o
    → GoodStep (set_flag name value o)
unfolding set_flag
set_flag-GoodStep name none o g = good_keep g
set_flag-GoodStep name (some _) o g = good_end failed

-- What an option without a value does keeps the options valid.
abbrev Keeps : Sort → Type 0
Keeps (flag set) = (o : RunOptions) → IsRun o → IsRun (set o)
Keeps _ = Unit

same-IsRun :
    (o : RunOptions)
    → IsRun o
    → (c r t v j p : Bool)
    → IsRun (record o {
      clear_env = c;
      read_only_rootfs = r;
      trace = t;
      verbose = v;
      json = j;
      pty = p;
    })
same-IsRun o (valid a b c d e f g h i j k l) _ _ _ _ _ _ = valid a b c d e f g h i j k l

sort_of-Keeps : (opt : Opt) → Keeps (sort_of opt)
unfolding sort_of
sort_of-Keeps Opt.clear_env =
    λ o g. same-IsRun o g true o.read_only_rootfs o.trace o.verbose o.json o.pty
sort_of-Keeps Opt.read_only_rootfs =
    λ o g. same-IsRun o g o.clear_env true o.trace o.verbose o.json o.pty
sort_of-Keeps Opt.trace =
    λ o g. same-IsRun o g o.clear_env o.read_only_rootfs true o.verbose o.json o.pty
sort_of-Keeps Opt.verbose =
    λ o g. same-IsRun o g o.clear_env o.read_only_rootfs o.trace true o.json o.pty
sort_of-Keeps Opt.json =
    λ o g. same-IsRun o g o.clear_env o.read_only_rootfs o.trace o.verbose true o.pty
sort_of-Keeps Opt.pty =
    λ o g. same-IsRun o g o.clear_env o.read_only_rootfs o.trace o.verbose o.json true
sort_of-Keeps _ = tt

apply_option-GoodStep :
    (sort : Sort) (opt : Opt) (name : Bytes) (inline : Option Bytes) (rest : List Bytes)
    (o : RunOptions)
    → Keeps sort
    → IsRun o
    → GoodStep (apply_option sort opt name inline rest o)
unfolding apply_option
apply_option-GoodStep helps opt name inline rest o k g = good_end (parsed IsRun-default (λ e. cc))
apply_option-GoodStep refused opt name inline rest o k g = good_end failed
apply_option-GoodStep (flag set) opt name inline rest o k g =
    set_flag-GoodStep name inline (set o) (k o g)
apply_option-GoodStep valued opt name inline rest o k g =
    with_value-GoodStep opt name inline rest o g

option_step-GoodStep :
    (tok : Bytes) (rest : List Bytes) (o : RunOptions) → IsRun o → GoodStep (option_step tok rest o)
unfolding option_step
option_step-GoodStep tok rest o g =
    let name = (split_inline tok).0 in
    apply_option-GoodStep (sort_of (option_of name)) (option_of name) name (split_inline tok).1 rest
      o (sort_of-Keeps (option_of name)) g

finish_run-GoodParse :
    (implicit : Bool) (o : RunOptions) → IsRun o → GoodParse (finish_run implicit o)
unfolding finish_run
finish_run-GoodParse implicit o g =
    if-elim GoodParse (is_empty o.rootfs) (λ _. failed) (λ e. parsed g (λ _. e))

take_command-GoodParse :
    (implicit : Bool) (o : RunOptions) (rest : List Bytes)
    → IsRun o
    → GoodParse (take_command implicit o rest)
unfolding take_command
take_command-GoodParse implicit o rest g =
    if-elim GoodParse (is_empty o.rootfs) (λ _. failed)
      (λ _.
        if-elim GoodParse (is_empty rest) (λ _. failed)
          (λ _. finish_run-GoodParse implicit _ (command-IsRun (o.command ++ rest) o g)))

argument_step-GoodStep :
    (implicit : Bool) (tok : Bytes) (rest : List Bytes) (o : RunOptions)
    → IsRun o
    → GoodStep (argument_step implicit tok rest o)
unfolding argument_step
argument_step-GoodStep implicit tok rest o g =
    if-elim GoodStep (is_text tok "--") (λ _. good_end (take_command-GoodParse implicit o rest g))
      (λ _.
        if-elim GoodStep (not (is_empty o.rootfs)) (λ _. good_end failed)
          (λ _.
            if-elim GoodStep (is_empty tok) (λ _. good_end failed)
              (λ _.
                if-elim GoodStep (not (starts_with_dash tok))
                  (λ _. good_keep (rootfs-IsRun tok o g))
                  (λ _. option_step-GoodStep tok rest o g))))

-- A step that goes on, with what is parsed behind it.
continued :
    {s : Step}
    → GoodStep s
    → (f g : RunOptions → Result Parsed) → ((o : RunOptions) → IsRun o → GoodParse (f o))
    → ((o : RunOptions) → IsRun o → GoodParse (g o))
    → GoodParse (elim s [ ends r ↦ r | keeps o ↦ f o | eats o ↦ g o ])
continued (good_end p) f g hf hg = p
continued (good_keep k) f g hf hg = hf _ k
continued (good_eat k) f g hf hg = hg _ k

-- A parse of the arguments of `run` that starts from valid options gives an error, or options with
-- known engine, network, seccomp, dev and proc words, an absolute working directory, environment
-- entries with a key, binds with absolute guest paths, a positive timeout of at most 366 days, an
-- event descriptor from 2 to 2^20, and user and group ids of at most 4294967294; and a run has a root directory.
pub parse_run-GoodParse :
    (implicit : Bool) (o : RunOptions) (args : List Bytes)
    → IsRun o
    → GoodParse (parse_run implicit o args)
unfolding parse_run
parse_run-GoodParse implicit o [] g = finish_run-GoodParse implicit o g
parse_run-GoodParse implicit o (tok ∷ []) g =
    continued (argument_step-GoodStep implicit tok [] o g) (λ o'. parse_run implicit o' [])
      (λ o'. parse_run implicit o' []) (λ o' k. parse_run-GoodParse implicit o' [] k)
      (λ o' k. parse_run-GoodParse implicit o' [] k)
parse_run-GoodParse implicit o (tok ∷ next ∷ rest) g =
    continued (argument_step-GoodStep implicit tok (next ∷ rest) o g)
      (λ o'. parse_run implicit o' (next ∷ rest)) (λ o'. parse_run implicit o' rest)
      (λ o' k. parse_run-GoodParse implicit o' (next ∷ rest) k)
      (λ o' k. parse_run-GoodParse implicit o' rest k)

-- ===== src/Cli/Arguments.antt =====
-- What a successful parse of the whole command line guarantees.
use vhdp.Base.{
  Bytes, true, false, not, List, [], ◌∷◌, ◌≡◌, ◌≢◌, refl, is_empty, if◌then◌else◌, if-elim, ◌&&◌,
  ◌||◌,
}
use vhdp.Cli.{
  run, default_run, Parsed, is_text, is_subcommand_name, parse_help, parse_report, parse_inspect,
  parse_arguments, starts_with_dash, ok,
}
use vhdp.Cli.Valid.{IsRun-default}
use vhdp.Cli.Parse.{GoodParse, parsed, failed, parse_run-GoodParse}

-- The other commands keep the options of a run at their defaults.
good_other : (p : Parsed) → p.run ≡ default_run → p.command ≢ run → GoodParse (ok p)
good_other p e n = parsed (rw e IsRun-default) (λ r. absurd (n r))

parse_help-GoodParse : (first : Bytes) (rest : List Bytes) → GoodParse (parse_help first rest)
unfolding parse_help
parse_help-GoodParse first [] = good_other _ refl (λ r. cc)
parse_help-GoodParse first (topic ∷ rest) =
    if-elim GoodParse (is_text first "help")
      (λ _.
        if-elim GoodParse (not (is_empty rest) || not (is_subcommand_name topic)) (λ _. failed)
          (λ _. good_other _ refl (λ r. cc)))
      (λ _. failed)

parse_report-GoodParse :
    (first : Bytes) (p : Parsed) (rest : List Bytes)
    → p.run ≡ default_run
    → p.command ≢ run
    → GoodParse (parse_report first p rest)
unfolding parse_report
parse_report-GoodParse first p [] e n = good_other p e n
parse_report-GoodParse first p (a ∷ rest) e n =
    if-elim GoodParse (is_text a "--json" || (is_text a "--no-active" && is_text first "doctor"))
      (λ _.
        parse_report-GoodParse first
          (if is_text a "--json" then record p { json = true } else record p { no_active = true })
          rest
          (if-elim (λ (x : Parsed). x.run ≡ default_run) (is_text a "--json") (λ _. e) (λ _. e))
          (if-elim (λ (x : Parsed). x.command ≢ run) (is_text a "--json") (λ _. n) (λ _. n)))
      (λ _.
        if-elim GoodParse (is_text a "--help" || is_text a "-h") (λ _. good_other _ e (λ r. cc))
          (λ _. failed))

parse_inspect-GoodParse :
    (p : Parsed) (rest : List Bytes)
    → p.run ≡ default_run
    → p.command ≢ run
    → GoodParse (parse_inspect p rest)
unfolding parse_inspect
parse_inspect-GoodParse p [] e n =
    if-elim GoodParse (is_empty p.inspect_path) (λ _. failed) (λ _. good_other p e n)
parse_inspect-GoodParse p (a ∷ rest) e n =
    let more =
      parse_inspect-GoodParse
        (if is_text a "--json" then record p { json = true } else record p { inspect_path = a })
        rest (if-elim (λ (x : Parsed). x.run ≡ default_run) (is_text a "--json") (λ _. e) (λ _. e))
        (if-elim (λ (x : Parsed). x.command ≢ run) (is_text a "--json") (λ _. n) (λ _. n)) in
    if-elim GoodParse (is_text a "--json") (λ _. more)
      (λ _.
        if-elim GoodParse (is_text a "--help" || is_text a "-h") (λ _. good_other _ e (λ r. cc))
          (λ _.
            if-elim GoodParse (starts_with_dash a) (λ _. failed)
              (λ _. if-elim GoodParse (is_empty p.inspect_path) (λ _. more) (λ _. failed))))

-- Whatever the arguments are, the parse gives an error, or a result whose run options have known
-- engine, network, seccomp, dev and proc words, an absolute working directory, environment entries
-- with a key, binds with absolute guest paths, a positive timeout of at most 366 days, an event
-- descriptor from 2 to 2^20, and user and group ids of at most 4294967294; and a run has a root directory.
pub parse_arguments-GoodParse : (args : List Bytes) → GoodParse (parse_arguments args)
unfolding parse_arguments
parse_arguments-GoodParse [] = failed
parse_arguments-GoodParse (first ∷ rest) =
    if-elim GoodParse (is_text first "--help" || is_text first "-h" || is_text first "help")
      (λ _. parse_help-GoodParse first rest)
      (λ _.
        if-elim GoodParse
          (is_text first "--version" || is_text first "-V" || is_text first "version")
          (λ _.
            if-elim GoodParse (not (is_empty rest)) (λ _. failed)
              (λ _. good_other _ refl (λ r. cc)))
          (λ _.
            if-elim GoodParse (is_text first "doctor")
              (λ _. parse_report-GoodParse first _ rest refl (λ r. cc))
              (λ _.
                if-elim GoodParse (is_text first "capabilities")
                  (λ _. parse_report-GoodParse first _ rest refl (λ r. cc))
                  (λ _.
                    if-elim GoodParse (is_text first "inspect")
                      (λ _. parse_inspect-GoodParse _ rest refl (λ r. cc))
                      (λ _.
                        if-elim GoodParse (is_text first "run")
                          (λ _. parse_run-GoodParse false default_run rest IsRun-default)
                          (λ _.
                            parse_run-GoodParse true default_run (first ∷ rest) IsRun-default))))))

-- ===== src/Exec/Plan.antt =====
-- What `plan` promises of the plan that it returns.
pub mod Rounds
pub mod Arguments
use vhdp.Base.{
  codes, ℕ, zero, suc, ◌+◌, ◌-◌, ◌≤◌, Bool, true, false, not, List, [], ◌∷◌, ◌++◌, Option, some,
  none, Bytes, ◌≡◌, ◌⊎◌, inl, inr, refl, subst, ap, drop, arith, Option-cases, Bool-cases,
  if◌then◌else◌, is_empty, ◌||◌, append_assoc, if-elim,
}
use vhdp.Path.{slash, is_absolute, ends_in_slash}
use vhdp.Mounts.{MountTable}
use vhdp.Mounts.Mapping.{HasCanonicalPaths}
use vhdp.Resolver.{Resolved, Answer, failed, resolved, resolve}
use vhdp.Resolver.Kernel.{Reply, ok, err}
use vhdp.Resolver.DirCache.{Cache}
use vhdp.Resolver.Links.{Options}
use vhdp.Resolver.Confined.{IsConfined}
use vhdp.Resolver.Start.{resolve-IsConfined}
use vhdp.Exec.Calls.{File, FileStat, System, pread_full}
use vhdp.Exec.Argv0.{Argv0Cache, loader_supports_argv0}
use vhdp.Exec.Examine.{
  Try, done, fail, undefined, ◌>>=◌, asked, refuse, defined, Diag, Program, script, static_program,
  dynamic_program, examine, open_program,
}
use vhdp.Exec.Holds.{
  Holds-map, Holds, holds, fails, no_result, Holds-bind, Holds-asked, Holds-refuse, Holds-allowed,
  Holds-any, Holds-done, Outcome, succeeds, refuses, strays, Try-cases,
}
use vhdp.Exec.{
  ExecPlan, Caches, plan, plan_rounds, plan_loader, from_cwd, script_argv, loader_argv, direct_plan,
  loader_plan, check_loader, max_shebang_depth,
}

-- A program that may be executed.
pub record MayRun (s : System) (r : Resolved) : Type 0 where
  pub exists : r.exists ≡ true
  pub no_directory : r.is_dir ≡ false
  pub executable : s.access r.host ≡ none
  pub may_execute : s.noexec r.host ≡ false
  pub file : File
  pub opened : s.open_file r.host ≡ ok file
  pub stat : FileStat
  pub described : file.fstat ≡ ok stat
  pub regular : stat.regular ≡ true

open_program-MayRun : (s : System) (r : Resolved) → Holds (λ _. MayRun s r) (open_program s r)
unfolding open_program
open_program-MayRun s r = Holds-refuse _ (not r.exists) _ _ _ (λ here.
    Holds-refuse _ _ _ _ _ (λ no_dir. Holds-allowed _ _ _ (λ access. Holds-refuse _ _ _ _ _ (λ may.
      Holds-bind (λ f. s.open_file r.host ≡ ok f) _ _ _ (Holds-asked _)
        (λ f opened.
          Holds-bind (λ st. f.fstat ≡ ok st) _ _ _ (Holds-asked _)
            (λ st described. Holds-refuse _ (not st.regular) _ _ _ (λ regular. holds _ (record {
              exists = ground arith;
              no_directory = no_dir;
              executable = access;
              may_execute = may;
              file = f;
              opened = opened;
              stat = st;
              described = described;
              regular = ground arith;
            }))))))))

pub examine-MayRun : (s : System) (r : Resolved) → Holds (λ _. MayRun s r) (examine s r)
unfolding examine
examine-MayRun s r =
    Holds-bind (λ _. MayRun s r) _ _ _ (open_program-MayRun s r) (λ f may. Holds-any _ _ (λ _. may))

-- The arguments of a loader: the program's first one, which is repeated behind "--argv0" where that
-- is understood, the program's path, and the program's arguments behind the first.
pub data Loads (guest : Bytes) : Bool → List Bytes → List Bytes → Type 0 where
  plainly :
      {first : Bytes} {rest : List Bytes} → Loads guest false (first ∷ rest) (first ∷ guest ∷ rest)
  named :
      {first : Bytes} {rest : List Bytes}
      → Loads guest true (first ∷ rest) (first ∷ codes "--argv0" ∷ first ∷ guest ∷ rest)

module _ (s : System) (t : MountTable) (o : Options) (cwd : Bytes) where
  -- A path that resolves, whatever the directory cache holds.
  abbrev pub Resolves : Bytes → Resolved → Type 0
  Resolves path r = (c : Cache) × ((resolve s.host t path o c).0 ≡ resolved r)

  -- The absolute path that the name of an interpreter stands for: itself, or below the working
  -- directory.
  pub data Stands : Bytes → Bytes → Type 0 where
    absolute : {name : Bytes} → is_absolute name ≡ true → Stands name name
    below_slash :
        {name : Bytes}
        → is_absolute name ≡ false
        → ends_in_slash cwd ≡ true
        → Stands name (cwd ++ name)
    below :
        {name : Bytes}
        → is_absolute name ≡ false
        → ends_in_slash cwd ≡ false
        → Stands name (cwd ++ slash ∷ name)

  -- The reference: the file at a path, run with some arguments, is a program that is no script, or a
  -- script whose interpreter is run in its place, the number of times counted: with its own name, the
  -- argument in the script if there is one, the script's path, and the arguments behind the first.
  pub data Expands : ℕ → Bytes → List Bytes → Resolved → List Bytes → Type 0 where
    static :
        {path : Bytes} {argv : List Bytes} {r : Resolved}
        → Resolves path r
        → examine s r ≡ done static_program
        → Expands 0 path argv r argv
    dynamic :
        {path : Bytes} {argv : List Bytes} {r : Resolved} {loader : Bytes}
        → Resolves path r
        → examine s r ≡ done (dynamic_program loader)
        → Expands 0 path argv r argv
    interpreted :
        {n : ℕ} {path interp at first : Bytes} {rest argv' : List Bytes} {r r' : Resolved}
        → Resolves path r
        → examine s r ≡ done (script interp none)
        → Stands interp at
        → Expands n at (interp ∷ path ∷ rest) r' argv'
        → Expands (suc n) path (first ∷ rest) r' argv'
    with_argument :
        {n : ℕ} {path interp arg at first : Bytes} {rest argv' : List Bytes} {r r' : Resolved}
        → Resolves path r
        → examine s r ≡ done (script interp (some arg))
        → Stands interp at
        → Expands n at (interp ∷ arg ∷ path ∷ rest) r' argv'
        → Expands (suc n) path (first ∷ rest) r' argv'

  -- The program is executed itself, or by a loader that is a file of the guest.
  pub data Way (r : Resolved) (p : ExecPlan) : Type 0 where
    itself : p.via_loader ≡ false → p.host_exec ≡ r.host → p.argv ≡ p.program_argv → Way r p
    by_loader :
        (l : Resolved)
        → p.via_loader ≡ true
        → IsConfined t l
        → l.exists ≡ true
        → l.is_dir ≡ false
        → p.host_exec ≡ l.host
        → p.guest_loader ≡ l.guest
        → Loads r.guest p.loader_argv0 p.program_argv p.argv
        → Way r p

  -- A plan for running the file at a path, with these arguments, where a number of scripts led to it.
  pub record IsPlan (scripts : ℕ) (path : Bytes) (argv : List Bytes) (p : ExecPlan) : Type 0 where
    pub program : Resolved
    pub confined : IsConfined t program
    pub may_run : MayRun s program
    pub program_is : p.guest_program ≡ program.guest
    pub further : ℕ
    pub depth_is : p.shebang_depth ≡ scripts + further
    pub depth_at_most : p.shebang_depth ≤ max_shebang_depth
    pub expands : Expands further path argv program p.program_argv
    pub way : Way program p

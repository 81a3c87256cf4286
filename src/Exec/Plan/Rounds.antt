-- ===== src/Exec/Plan/Rounds.antt =====
-- The rounds of `plan`.
use vhdp.Base.{
  true, false, none, some, Bool, ℕ, zero, suc, ◌+◌, ◌-◌, ◌≤◌, not, List, [], ◌∷◌, Option, Bytes,
  ◌≡◌, ◌⊎◌, inl, inr, refl, arith, Bool-cases, if◌then◌else◌, is_empty, ◌||◌,
}
use vhdp.Path.{is_absolute, ends_in_slash, join}
use vhdp.Mounts.{MountTable}
use vhdp.Mounts.Mapping.{HasCanonicalPaths}
use vhdp.Resolver.{Resolved, Answer, failed, resolved, resolve}
use vhdp.Resolver.DirCache.{Cache}
use vhdp.Resolver.Links.{Options}
use vhdp.Resolver.Confined.{IsConfined}
use vhdp.Resolver.Start.{resolve-IsConfined}
use vhdp.Exec.Calls.{System}
use vhdp.Exec.Argv0.{Argv0Cache, loader_supports_argv0}
use vhdp.Exec.Examine.{done, script, static_program, dynamic_program, examine}
use vhdp.Exec.Holds.{
  Holds-map, Holds, holds, fails, no_result, Holds-done, succeeds, refuses, strays, Try-cases,
}
use vhdp.Exec.{
  ExecPlan, Caches, plan, plan_rounds, plan_loader, from_cwd, script_argv, loader_argv, first_or,
  direct_plan, loader_plan, check_loader, max_shebang_depth,
}
use vhdp.Exec.Plan.{
  examine-MayRun, Resolves, Expands, static, dynamic, interpreted, with_argument, Stands, absolute,
  below_slash, below, Loads, plainly, named, itself, by_loader, IsPlan,
}

pub Answer-cases : (a : Answer) → ((e : ℕ) × (a ≡ failed e)) ⊎ ((r : Resolved) × (a ≡ resolved r))
Answer-cases (failed e) = inl (e, refl)
Answer-cases (resolved r) = inr (r, refl)

loader_argv-Loads :
    (with_argv0 : Bool) (guest first : Bytes) (rest : List Bytes)
    → Loads guest with_argv0 (first ∷ rest) (loader_argv with_argv0 guest (first ∷ rest))
unfolding loader_argv first_or
loader_argv-Loads false guest first rest = plainly
loader_argv-Loads true guest first rest = named

module _ (s : System) (t : MountTable) (o : Options) (cwd : Bytes)
    (paths : HasCanonicalPaths t) where
  Resolves-IsConfined : (path : Bytes) {r : Resolved} → Resolves s t o cwd path r → IsConfined t r
  Resolves-IsConfined path h = resolve-IsConfined s.host t path o h.0 paths h.1

  pub from_cwd-Stands : (name : Bytes) → Stands s t o cwd name (from_cwd cwd name)
  unfolding from_cwd join
  from_cwd-Stands name = elim (Bool-cases (is_absolute name)) [
    | inl e ↦ rw e (absolute e)
    | inr e ↦ elim (Bool-cases (ends_in_slash cwd)) [
      | inl f ↦ rw (e, f) (below_slash e f)
      | inr f ↦ rw (e, f) (below e f)
    ]
  ]

  from_cwd_path : (name path : Bytes) → Stands s t o cwd name path → from_cwd cwd name ≡ path
  unfolding from_cwd join
  from_cwd_path name _ (absolute e) = rw e refl
  from_cwd_path name _ (below_slash e f) = rw (e, f) refl
  from_cwd_path name _ (below e f) = rw (e, f) refl

  -- The plan that a static program is given.
  direct_plan-IsPlan :
      (path : Bytes) (argv : List Bytes) (r : Resolved) (depth : ℕ)
      → depth ≤ max_shebang_depth
      → Resolves s t o cwd path r
      → examine s r ≡ done static_program
      → IsPlan s t o cwd depth path argv (direct_plan r argv depth)
  unfolding direct_plan
  direct_plan-IsPlan path argv r depth l h e = record {
    program = r;
    confined = Resolves-IsConfined path h;
    may_run = Holds-done _ _ (examine-MayRun s r) e;
    program_is = refl;
    further = 0;
    depth_is = omega arith;
    depth_at_most = l;
    expands = static h e;
    way = itself refl refl refl;
  }

  plan_loader-IsPlan :
      (path loader first : Bytes) (rest : List Bytes) (r : Resolved) (depth : ℕ) (c : Cache)
      (a : Argv0Cache)
      → depth ≤ max_shebang_depth
      → Resolves s t o cwd path r
      → examine s r ≡ done (dynamic_program loader)
      → Holds
          (IsPlan s t o cwd depth path (first ∷ rest))
          (plan_loader s r loader (first ∷ rest) depth (resolve s.host t loader o c) a).0
  unfolding plan_loader loader_plan
  plan_loader-IsPlan path loader first rest r depth c a l h e =
      elim (Answer-cases (resolve s.host t loader o c).0) [
        | inl (n, q) ↦ rw (q, plan_loader) (fails _ _)
        | inr (lr, q) ↦
            rw (q, plan_loader)
              (elim (Bool-cases (not lr.exists || lr.is_dir)) [
                | inl m ↦ rw m (fails _ _)
                | inr m ↦ rw m (elim (Try-cases (check_loader s loader lr)) [
                  | refuses n d k ↦ rw k (fails _ _)
                  | strays k ↦ rw k no_result
                  | succeeds i k ↦ rw k (
                      holds _ (record {
                        program = r;
                        confined = Resolves-IsConfined path h;
                        may_run = Holds-done _ _ (examine-MayRun s r) e;
                        program_is = refl;
                        further = 0;
                        depth_is = omega arith;
                        depth_at_most = l;
                        expands = dynamic h e;
                        way =
                            by_loader lr refl (Resolves-IsConfined loader (c, q)) (ground arith)
                              (ground arith) refl refl
                              (loader_argv-Loads (loader_supports_argv0 s lr.host a).0 r.guest first
                                rest);
                      }))
                ])
              ])
      ]

  -- One script more in front of a plan.
  script-IsPlan :
      (path interp first : Bytes) (arg : Option Bytes) (rest : List Bytes) (r : Resolved)
      (depth : ℕ) (p : ExecPlan)
      → Resolves s t o cwd path r
      → examine s r ≡ done (script interp arg)
      → IsPlan s t o cwd
          (suc depth)
          (from_cwd cwd interp)
          (script_argv interp arg path (first ∷ rest))
          p
      → IsPlan s t o cwd depth path (first ∷ rest) p
  unfolding script_argv
  script-IsPlan path interp first arg rest r depth p h e q = record {
    program = q.program;
    confined = q.confined;
    may_run = q.may_run;
    program_is = q.program_is;
    further = suc q.further;
    depth_is = omega (arith, q.depth_is);
    depth_at_most = q.depth_at_most;
    expands = more arg e q.expands;
    way = q.way;
  }
    where
      more :
          (arg : Option Bytes)
          → examine s r ≡ done (script interp arg)
          → Expands s t o cwd q.further
              (from_cwd cwd interp)
              (script_argv interp arg path (first ∷ rest))
              q.program
              p.program_argv
          → Expands s t o cwd (suc q.further) path (first ∷ rest) q.program p.program_argv
      more none e x = interpreted h e (from_cwd-Stands interp) x
      more (some arg) e x = with_argument h e (from_cwd-Stands interp) x

  plan_rounds-IsPlan :
      (guest_path : Bytes) (n : ℕ) (path first : Bytes) (rest : List Bytes) (c : Caches) (depth : ℕ)
      → depth + n ≡ max_shebang_depth + 1
      → Holds
          (IsPlan s t o cwd depth path (first ∷ rest))
          (plan_rounds s t o guest_path cwd n path (first ∷ rest) c).0
  unfolding plan_rounds script_argv
  plan_rounds-IsPlan guest_path zero path first rest c depth l = fails _ _
  plan_rounds-IsPlan guest_path (suc n) path first rest c depth l =
      let depth_is : max_shebang_depth - n ≡ depth = omega arith in
      elim (Answer-cases (resolve s.host t path o c.dirs).0) [
        | inl (k, q) ↦ rw (q, plan_rounds) (fails _ _)
        | inr (r, q) ↦
            rw (q, plan_rounds)
              (elim (Try-cases (examine s r)) [
                | refuses k d e ↦ rw e (fails _ _)
                | strays e ↦ rw e no_result
                | succeeds static_program e ↦
                    rw (e, depth_is)
                      (holds _ (
                        direct_plan-IsPlan path (first ∷ rest) r depth (omega arith) (c.dirs, q) e))
                | succeeds (dynamic_program loader) e ↦
                    rw (e, depth_is)
                      (plan_loader-IsPlan path loader first rest r depth _ c.argv0 (omega arith)
                        (c.dirs, q) e)
                | succeeds (script interp none) e ↦ rw e (
                    Holds-map _ _ _
                      (λ p i. script-IsPlan path interp first none rest r depth p (c.dirs, q) e i)
                      (plan_rounds-IsPlan guest_path n (from_cwd cwd interp) interp (path ∷ rest) _
                        (suc depth) (omega arith)))
                | succeeds (script interp (some arg)) e ↦ rw e (
                    Holds-map _ _ _
                      (λ p i.
                        script-IsPlan path interp first (some arg) rest r depth p (c.dirs, q) e i)
                      (plan_rounds-IsPlan guest_path n (from_cwd cwd interp) interp
                        (arg ∷ path ∷ rest) _ (suc depth) (omega arith)))
              ])
      ]

  -- In a table of canonical paths, a plan that `plan` returns is for the program that scripts lead to
  -- from the path asked for, after at most four of them, where what `examine` finds in a file is taken
  -- as it is. Each script passes on the interpreter's name, its argument if it has one, the script's
  -- path and the arguments behind the first. The program's path is confined to the guest's mounts, and
  -- it is a regular file that may be executed, on no noexec mount. The file that the kernel gets is
  -- the program itself with those arguments, or a loader whose path is confined as well. The loader
  -- gets the program's first argument, again behind "--argv0" where it understands that, then the
  -- program's guest path and the program's arguments behind the first.
  pub plan-IsPlan :
      (guest_path : Bytes) (argv : List Bytes) (c : Caches) {path : Bytes}
      → Stands s t o cwd guest_path path
      → Holds
          (IsPlan s t o cwd 0 path (if is_empty argv then guest_path ∷ [] else argv))
          (plan s t guest_path argv cwd o c).0
  unfolding plan
  plan-IsPlan guest_path argv c {path} at = elim (Bool-cases (is_empty guest_path)) [
    | inl e ↦ rw e (fails _ _)
    | inr e ↦ rw (e, from_cwd_path guest_path path at) (started argv)
  ]
    where
      started :
          (argv : List Bytes)
          → Holds
              (IsPlan s t o cwd 0 path (if is_empty argv then guest_path ∷ [] else argv))
              (plan_rounds s t o guest_path cwd
                (max_shebang_depth + 1)
                path
                (if is_empty argv then guest_path ∷ [] else argv)
                c).0
      started [] = plan_rounds-IsPlan guest_path (max_shebang_depth + 1) path guest_path [] c 0 refl
      started (first ∷ rest) =
          plan_rounds-IsPlan guest_path (max_shebang_depth + 1) path first rest c 0 refl

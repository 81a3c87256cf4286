-- ===== src/Exec/Defined/Rounds.antt =====
-- `plan` reads no byte outside its buffers.
use vhdp.Base.{
  ℕ, zero, suc, ◌+◌, not, ◌||◌, List, [], ◌∷◌, Bytes, inl, inr, Bool-cases, if◌then◌else◌, is_empty,
}
use vhdp.Elf.{Info}
use vhdp.Elf.Bounds.{parse_header-Reads}
use vhdp.Mounts.{MountTable}
use vhdp.Resolver.{Resolved, Answer, failed, resolved, resolve}
use vhdp.Resolver.DirCache.{Cache}
use vhdp.Resolver.Links.{Options}
use vhdp.Exec.Calls.{System}
use vhdp.Exec.Argv0.{Argv0Cache, loader_supports_argv0}
use vhdp.Exec.Examine.{Try, done, fail, undefined, script, static_program, dynamic_program, examine}
use vhdp.Exec.Holds.{succeeds, refuses, strays, Try-cases}
use vhdp.Exec.Plan.Rounds.{Answer-cases}
use vhdp.Exec.{
  ExecPlan, Caches, plan, plan_rounds, plan_loader, loader_plan, from_cwd, check_loader,
  max_shebang_depth,
}
use vhdp.Exec.Defined.{
  Defined, gives, refuses_with, Defined-bind, Defined-asked, Defined-refuse, Defined-Reads,
  Defined-strays, examine-Defined,
}

check_loader-Defined :
    (s : System) (loader : Bytes) (l : Resolved) → Defined (check_loader s loader l)
unfolding check_loader
check_loader-Defined s loader l = Defined-bind _ _ (Defined-asked _) (λ f _.
    Defined-bind _ _ (Defined-asked _) (λ head _.
      Defined-bind _ _ (Defined-Reads (parse_header-Reads head _))
        (λ header _. Defined-refuse _ _ _ _ (λ _. gives _))))

plan_loader-Defined :
    (s : System) (r : Resolved) (loader : Bytes) (argv : List Bytes) (depth : ℕ)
    (a : Answer × Cache) (c : Argv0Cache)
    → Defined (plan_loader s r loader argv depth a c).0
unfolding plan_loader
plan_loader-Defined s r loader argv depth (failed e, d) c = refuses_with e _
plan_loader-Defined s r loader argv depth (resolved l, d) c =
    elim (Bool-cases (not l.exists || l.is_dir)) [
      | inl m ↦ rw m (refuses_with _ _)
      | inr m ↦ rw m (answered (check_loader s loader l) (check_loader-Defined s loader l))
    ]
  where
    answered :
        (o : Try Info)
        → Defined o
        → Defined
            (elim o as (λ _. Try ExecPlan × Caches) [
              | fail e w ↦ (fail e w, record { dirs = d; argv0 = c })
              | undefined ↦ (undefined, record { dirs = d; argv0 = c })
              | done i ↦
                  let (with_argv0, argv0') = loader_supports_argv0 s l.host c in
                  (
                    done (loader_plan r l with_argv0 argv depth),
                    record { dirs = d; argv0 = argv0' },
                  )
            ]).0
    answered _ (gives i) = gives _
    answered _ (refuses_with e w) = refuses_with e w

plan_rounds-Defined :
    (s : System) (t : MountTable) (o : Options) (guest_path cwd : Bytes) (n : ℕ) (path : Bytes)
    (argv : List Bytes) (c : Caches)
    → Defined (plan_rounds s t o guest_path cwd n path argv c).0
unfolding plan_rounds
plan_rounds-Defined s t o guest_path cwd zero path argv c = refuses_with _ _
plan_rounds-Defined s t o guest_path cwd (suc n) path argv c =
    elim (Answer-cases (resolve s.host t path o c.dirs).0) [
      | inl (k, q) ↦ rw (q, plan_rounds) (refuses_with _ _)
      | inr (r, q) ↦
          rw (q, plan_rounds)
            (elim (Try-cases (examine s r)) [
              | refuses k d e ↦ rw e (refuses_with _ _)
              | strays e ↦ absurd (Defined-strays (examine-Defined s r) e)
              | succeeds static_program e ↦ rw e (gives _)
              | succeeds (dynamic_program loader) e ↦
                  rw e (plan_loader-Defined s r loader argv _ _ _)
              | succeeds (script interp arg) e ↦
                  rw e (plan_rounds-Defined s t o guest_path cwd n _ _ _)
            ])
    ]

-- Whatever the kernel answers, and whatever bytes the files have, `plan` ends after at most five
-- rounds with a plan or an errno, and reads no byte outside the buffers of the ELF decoder.
pub plan-Defined :
    (s : System) (t : MountTable) (guest_path : Bytes) (argv : List Bytes) (cwd : Bytes)
    (o : Options) (c : Caches)
    → Defined (plan s t guest_path argv cwd o c).0
unfolding plan
plan-Defined s t guest_path argv cwd o c = elim (Bool-cases (is_empty guest_path)) [
  | inl e ↦ rw e (refuses_with _ _)
  | inr e ↦ rw e (
      plan_rounds-Defined s t o guest_path cwd (max_shebang_depth + 1) (from_cwd cwd guest_path)
        (if is_empty argv then guest_path ∷ [] else argv) c)
]

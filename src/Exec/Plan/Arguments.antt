-- ===== src/Exec/Plan/Arguments.antt =====
-- The caller's arguments in a plan.
use vhdp.Base.{codes, ℕ, List, [], ◌∷◌, ◌++◌, Bytes, ◌≡◌, refl, ap, drop, Bool}
use vhdp.Mounts.{MountTable}
use vhdp.Mounts.Mapping.{HasCanonicalPaths}
use vhdp.Resolver.{Resolved}
use vhdp.Resolver.Links.{Options}
use vhdp.Exec.Calls.{System}
use vhdp.Exec.Examine.{done}
use vhdp.Exec.Holds.{Holds-done}
use vhdp.Exec.{ExecPlan, Caches, plan}
use vhdp.Exec.Plan.{
  Expands, static, dynamic, interpreted, with_argument, Loads, plainly, named, Way, itself,
  by_loader,
}
use vhdp.Exec.Plan.Rounds.{plan-IsPlan, from_cwd-Stands}

-- Arguments that end with some others, behind one at least.
abbrev pub EndsWith : List Bytes → List Bytes → Type 0
EndsWith argv rest = (first : Bytes) × (front : List Bytes) × (argv ≡ first ∷ (front ++ rest))

Expands-EndsWith :
    (s : System) (t : MountTable) (o : Options) (cwd : Bytes) {n : ℕ} (path : Bytes) {r : Resolved}
    (argv argv' rest : List Bytes)
    → EndsWith argv rest
    → Expands s t o cwd n path argv r argv'
    → EndsWith argv' rest
Expands-EndsWith s t o cwd path argv _ rest h (static q e) = h
Expands-EndsWith s t o cwd path argv _ rest h (dynamic q e) = h
Expands-EndsWith s t o cwd path _ argv' rest h (interpreted {interp} {at} q e i x) =
    Expands-EndsWith s t o cwd at _ argv' rest
      (interp, path ∷ h.1, ap (λ l. interp ∷ path ∷ drop 1 l) h.2) x
Expands-EndsWith s t o cwd path _ argv' rest h (with_argument {interp} {arg} {at} q e i x) =
    Expands-EndsWith s t o cwd at _ argv' rest
      (interp, arg ∷ path ∷ h.1, ap (λ l. interp ∷ arg ∷ path ∷ drop 1 l) h.2) x

Loads-EndsWith :
    (guest : Bytes) {b : Bool} (argv argv' rest : List Bytes)
    → EndsWith argv rest
    → Loads guest b argv argv'
    → EndsWith argv' rest
Loads-EndsWith guest _ _ rest h (plainly {first}) =
    (first, guest ∷ h.1, ap (λ l. first ∷ guest ∷ drop 1 l) h.2)
Loads-EndsWith guest _ _ rest h (named {first}) = (
  first,
  codes "--argv0" ∷ first ∷ guest ∷ h.1,
  ap (λ l. first ∷ codes "--argv0" ∷ first ∷ guest ∷ drop 1 l) h.2,
)

-- The arguments that a caller passes behind the first reach the program unchanged, whatever scripts
-- and loaders are in between: when `plan` returns a plan for them in a table of canonical paths, both
-- the arguments that the kernel gets and those of the program itself end with them.
pub plan-EndsWith :
    (s : System) (t : MountTable) (o : Options) (cwd guest_path first : Bytes) (rest : List Bytes)
    (c : Caches) {p : ExecPlan}
    → HasCanonicalPaths t
    → (plan s t guest_path (first ∷ rest) cwd o c).0 ≡ done p
    → EndsWith p.argv rest × EndsWith p.program_argv rest
plan-EndsWith s t o cwd guest_path first rest c {p} paths e =
    let q =
      Holds-done _ p
        (plan-IsPlan s t o cwd paths guest_path (first ∷ rest) c
          (from_cwd-Stands s t o cwd paths guest_path))
        e in
    let own =
      Expands-EndsWith s t o cwd _ (first ∷ rest) p.program_argv rest (first, [], refl) q.expands in
    (of_way own q.way, own)
  where
    of_way :
        {r : Resolved} → EndsWith p.program_argv rest → Way s t o cwd r p → EndsWith p.argv rest
    of_way own (itself via h a) = rw a own
    of_way {r} own (by_loader l via k x d h g a) =
        Loads-EndsWith r.guest p.program_argv p.argv rest own a

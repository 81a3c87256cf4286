-- ===== src/Exec/Defined.antt =====
-- `plan` reads no byte outside its buffers while it examines a program.
pub mod Rounds
use vhdp.Base.{
  ℕ, zero, suc, ◌+◌, ◌*◌, ◌-◌, ◌<◌, ◌≤◌, Bool, true, false, not, ◌&&◌, ◌||◌, List, [], ◌∷◌, Option,
  some, none, Bytes, ◌≡◌, ◌≢◌, ◌⊎◌, inl, inr, refl, subst, ap, arith, length, get_elem?,
  Option-cases, Bool-cases, if◌then◌else◌, ltb, leb, ◌∙◌, ◌==◌, ==_iff, if-elim, is_empty, take,
}
use vhdp.Elf
use vhdp.Elf.{
  host_machine, Status, truncated, not_elf, unsupported_class, unsupported_encoding, bad_version,
  bad_type, bad_phdr, bad_interp, Info, parse_header, scan_phdrs, validate_interp, is_ok,
  max_interp,
}
use vhdp.Elf.Bounds.{Reads, reads, parse_header-Reads, get_elem?-Reads, Reads-bind}
use vhdp.Elf.Interp.{Scanned, scanned, Fits}
use vhdp.Elf.Header.{scan_phdrs-Fits}
use vhdp.Mounts.{MountTable}
use vhdp.Resolver.{Resolved, Answer, failed, resolved, resolve}
use vhdp.Resolver.Kernel.{Reply, ok, err}
use vhdp.Resolver.DirCache.{Cache}
use vhdp.Resolver.Links.{Options}
use vhdp.Exec.Calls.{File, FileStat, System, pread_full}
use vhdp.Exec.Argv0.{Argv0Cache, loader_supports_argv0}
use vhdp.Exec.Shebang.{parse_shebang}
use vhdp.Exec.Examine.{
  Try, done, fail, undefined, ◌>>=◌, asked, refuse, allowed, defined, Diag, Program, script,
  shebang_max, static_program, dynamic_program, examine, open_program, examine_elf, check_header,
  read_phdrs, read_loader,
}
use vhdp.Exec.Holds.{Holds, holds, fails, no_result, Outcome, succeeds, refuses, strays, Try-cases}
use vhdp.Exec.Plan.Rounds.{Answer-cases}
use vhdp.Exec.{
  ExecPlan, Caches, plan, plan_rounds, plan_loader, loader_plan, from_cwd, script_argv,
  check_loader, max_shebang_depth,
}

-- A result or an errno.
pub data Defined {A : Type 0} : Try A → Type 0 where
  gives : (a : A) → Defined (done a)
  refuses_with : (e : ℕ) (d : Option Diag) → Defined (fail e d)

pub Defined-bind :
    {A B : Type 0} (o : Try A) (f : A → Try B)
    → Defined o
    → ((a : A) → o ≡ done a → Defined (f a))
    → Defined (o >>= f)
Defined-bind _ f (gives a) g = g a refl
Defined-bind _ f (refuses_with e d) g = refuses_with e d

pub Defined-asked : {A : Type 0} (o : Reply A) → Defined (asked o)
unfolding asked
Defined-asked (ok a) = gives a
Defined-asked (err e) = refuses_with e none

pub Defined-refuse :
    {A : Type 0} (b : Bool) (e : ℕ) (d : Option Diag) (go : Try A)
    → (b ≡ false → Defined go)
    → Defined (refuse b e d go)
unfolding refuse
Defined-refuse true e d go h = refuses_with e d
Defined-refuse false e d go h = h refl

Defined-allowed : {A : Type 0} (o : Option ℕ) (go : Try A) → Defined go → Defined (allowed o go)
unfolding allowed
Defined-allowed none go h = h
Defined-allowed (some e) go h = refuses_with e none

pub Defined-Reads : {A : Type 0} {o : Option A} → Reads o → Defined (defined o)
unfolding defined
Defined-Reads (reads a) = gives a

Scanned-Reads :
    {file_size phentsize : ℕ} {o : Option (Status × Info)} → Scanned file_size phentsize o → Reads o
Scanned-Reads (scanned s i f e) = reads (s, i)

Scanned-Fits :
    {file_size phentsize : ℕ} {o : Option (Status × Info)} (r : Status × Info)
    → Scanned file_size phentsize o
    → o ≡ some r
    → Fits file_size r.1
Scanned-Fits {file_size} r (scanned s i f e) q = subst (Fits file_size) (cc q) f

defined_done : {A : Type 0} (o : Option A) {a : A} → defined o ≡ done a → o ≡ some a
unfolding defined
defined_done (some b) e = cc e
defined_done none e = absurd (cc e)

open_program-Defined : (s : System) (r : Resolved) → Defined (open_program s r)
unfolding open_program
open_program-Defined s r = Defined-refuse _ _ _ _ (λ _. Defined-refuse _ _ _ _ (λ _.
    Defined-allowed _ _ (
      Defined-refuse _ _ _ _ (λ _. Defined-bind _ _ (Defined-asked _) (λ f _.
        Defined-bind _ _ (Defined-asked _) (λ st _. Defined-refuse _ _ _ _ (λ _. gives _)))))))

is_ok_inv : (s : Status) → not (is_ok s) ≡ false → s ≡ vhdp.Elf.ok
is_ok_inv vhdp.Elf.ok h = refl
is_ok_inv truncated h = absurd (cc h)
is_ok_inv not_elf h = absurd (cc h)
is_ok_inv unsupported_class h = absurd (cc h)
is_ok_inv unsupported_encoding h = absurd (cc h)
is_ok_inv bad_version h = absurd (cc h)
is_ok_inv bad_type h = absurd (cc h)
is_ok_inv bad_phdr h = absurd (cc h)
is_ok_inv bad_interp h = absurd (cc h)

done-inj : {A : Type 0} {a b : A} → done a ≡ done b → a ≡ b
done-inj e = cc e

pub Defined-strays : {A : Type 0} {o : Try A} → Defined o → o ≢ undefined
Defined-strays (gives a) = λ e. cc e
Defined-strays (refuses_with e d) = λ q. cc q

-- What a header that has been checked is.
refuse_done :
    {A : Type 0} (b : Bool) (e : ℕ) (d : Option Diag) (go : Try A) (a : A)
    → refuse b e d go ≡ done a
    → (b ≡ false) × (go ≡ done a)
unfolding refuse
refuse_done true e d go a h = absurd (cc h)
refuse_done false e d go a h = (refl, h)

check_header_done :
    (host_machine : ℕ) (guest : Bytes) (got : ℕ) (h : Status × Info) (i : Info)
    → check_header host_machine guest got h ≡ done i
    → h ≡ (vhdp.Elf.ok, i)
unfolding check_header
check_header_done host_machine guest got (status, j) i e =
    let a = refuse_done _ _ _ _ _ e in
    let b = refuse_done _ _ _ _ _ a.1 in
    let c = refuse_done _ _ _ _ _ b.1 in
    rw (is_ok_inv status c.0) (ap (λ k. (vhdp.Elf.ok, k)) (done-inj c.1))

check_header-Defined :
    (host_machine : ℕ) (guest : Bytes) (got : ℕ) (h : Status × Info)
    → Defined (check_header host_machine guest got h)
unfolding check_header
check_header-Defined host_machine guest got (status, j) =
    Defined-refuse _ _ _ _
      (λ _. Defined-refuse _ _ _ _ (λ _. Defined-refuse _ _ _ _ (λ _. gives _)))

validate_interp-Reads : (s : Bytes) → Reads (validate_interp s)
unfolding validate_interp
validate_interp-Reads s =
    if-elim Reads (ltb (length s) 2 || ltb max_interp (length s)) (λ _. reads _)
      (λ l. Reads-bind _ _ (get_elem?-Reads s (length s - 1) (ground arith)) (λ end.
        Reads-bind _ _ (get_elem?-Reads s 0 (ground arith)) (λ first.
          if-elim Reads (not (end == 0) || not (first == b'/')) (λ _. reads _) (λ _. reads _))))

read_loader-Defined : (f : File) (guest : Bytes) (i : Info) → Defined (read_loader f guest i)
unfolding read_loader
read_loader-Defined f guest i = Defined-bind _ _ (Defined-asked _) (λ got _.
    Defined-refuse _ _ _ _ (λ _.
      Defined-bind _ _ (Defined-Reads (validate_interp-Reads got))
        (λ status _. Defined-refuse _ _ _ _ (λ _. gives _))))

read_phdrs-Defined :
    (f : File) (size : ℕ) (guest head : Bytes) (i : Info)
    → parse_header head size ≡ some (vhdp.Elf.ok, i)
    → Defined (read_phdrs f size guest i)
unfolding read_phdrs
read_phdrs-Defined f size guest head i h = Defined-bind _ _ (Defined-asked _) (λ got _.
    Defined-refuse (not (length got == i.phnum * i.phentsize)) _ _ _ (λ l.
      Defined-bind _ _
        (Defined-Reads (Scanned-Reads (scan_phdrs-Fits head size i got h (ground arith))))
        (λ status _. Defined-refuse _ _ _ _ (λ _. gives _))))

examine_elf-Defined :
    (host_machine : ℕ) (guest : Bytes) (f : File) (size : ℕ) (head : Bytes)
    → Defined (examine_elf host_machine guest f size head)
unfolding examine_elf
examine_elf-Defined host_machine guest f size head =
    Defined-bind _ _ (Defined-Reads (parse_header-Reads head size)) (λ header h.
      Defined-bind _ _ (check_header-Defined host_machine guest (length head) header) (λ i c.
        Defined-bind _ _
          (read_phdrs-Defined f size guest head i (
            defined_done _ h
            ∙ ap some (check_header_done host_machine guest (length head) header i c)))
          (λ i' _.
            if-elim Defined i'.has_interp
              (λ _. Defined-bind _ _ (read_loader-Defined f guest i') (λ loader _. gives _))
              (λ _. gives _))))

pub examine-Defined : (s : System) (r : Resolved) → Defined (examine s r)
unfolding examine
examine-Defined s r = Defined-bind _ _ (open_program-Defined s r) (λ o _.
    Defined-bind _ _ (Defined-asked _)
      (λ head _. go o head (parse_shebang (take shebang_max head))))
  where
    go :
        (o : File × ℕ) (head : Bytes) (p : Option (Bytes × Option Bytes))
        → Defined (elim p as (λ _. Try Program) [
          | some (interp, arg) ↦ done (script interp arg)
          | none ↦ examine_elf (host_machine s.architecture) r.guest o.0 o.1 head
        ])
    go o head (some (interp, arg)) = gives _
    go o head none = examine_elf-Defined (host_machine s.architecture) r.guest o.0 o.1 head

-- ===== src/Supervisor/Quiet.antt =====
-- What the lookups of engines/rootless/syscall_handlers.cpp leave as it is.
use vhdp.Base.{
  not, ◌&&◌, ◌==◌, if-elim, ℕ, Bool, Option, some, none, Bytes, ◌≡◌, refl, ◌∙◌, arith, inl, inr,
  Bool-cases,
}
use vhdp.Base.Int.{eq_ℤ, ℤ, pos, negsuc}
use vhdp.Resolver.{resolve, Answer, failed, resolved}
use vhdp.Resolver.DirCache.{Cache}
use vhdp.Identity.{to_i32}
use vhdp.Path.{path_max, is_absolute}
use vhdp.Tracee.{read_cstring}
use vhdp.Resolver.Kernel.{Reply, ok, err, Reply-cases}
use vhdp.Events.{EventKind, Severity}
use vhdp.Supervisor.State.{Kernel, Setup, State, Step, world, and_then}
use vhdp.Supervisor.Report.{emit, warn, first_report, warn_once}
use vhdp.Supervisor.Spec.{PathSpec}
use vhdp.Supervisor.Paths.{
  as_path, after_resolve, at_fdcwd, files, is_host_proc, tgid_of, links_visible, resolve_options,
  guest_cwd, guest_fd_path, path_text, base_of, full_path, warn_magic, resolve_path,
}

-- The world, the registers, the scratch space and the pending call of the task are the same.
abbrev pub Quiet : {W : Type 0} → State W → State W → Type 0
Quiet s t =
    (world t ≡ world s)
    × (t.regs ≡ s.regs)
    × (t.stack ≡ s.stack)
    × (t.task.tid ≡ s.task.tid)
    × (t.task.pending ≡ s.task.pending)

pub Quiet-refl : {W : Type 0} (s : State W) → Quiet s s
Quiet-refl s = (refl, refl, refl, refl, refl)

pub Quiet-trans : {W : Type 0} (s t u : State W) → Quiet s t → Quiet t u → Quiet s u
Quiet-trans s t u a b = (b.0 ∙ a.0, b.1 ∙ a.1, b.2 ∙ a.2, b.3 ∙ a.3, b.4 ∙ a.4)

pub Quiet-and_then :
    {W A B : Type 0} (s : State W) (m : Reply A × State W) (f : A → Step W B)
    → Quiet s m.1
    → ((a : A) (t : State W) → Quiet s t → Quiet s (f a t).1)
    → Quiet s (and_then m f).1
Quiet-and_then s (ok a, t) f q go = go a t q
Quiet-and_then s (err e, t) f q go = q

module _ {W : Type 0} (k : Kernel W) (c : Setup) where
  pub emit-Quiet :
      (kind : EventKind) (sev : Severity) (name message : Bytes) (pid code : ℤ) (detail : Bytes)
      (s : State W)
      → Quiet s (emit k c kind sev name message pid code detail s)
  unfolding emit
  emit-Quiet kind sev name message pid code detail s = elim (Bool-cases (c.wants sev)) [
    | inl e ↦ rw e (Quiet-refl s)
    | inr e ↦ rw e (Quiet-refl s)
  ]

  pub warn-Quiet :
      (name message : Bytes) (code : ℕ) (s : State W) → Quiet s (warn k c name message code s)
  unfolding warn
  warn-Quiet name message code s = emit-Quiet _ _ name message _ _ _ s

  pub warn_once-Quiet :
      (name subject message : Bytes) (code : ℕ) (s : State W)
      → Quiet s (warn_once k c name subject message code s)
  unfolding warn_once first_report warn emit
  warn_once-Quiet name subject message code s = ground arith

  pub tgid_of-Quiet : (s : State W) → Quiet s (tgid_of k c s).1
  unfolding tgid_of
  tgid_of-Quiet s = ground arith

  pub links_visible-Quiet : (s : State W) → Quiet s (links_visible k c s).1
  unfolding links_visible
  links_visible-Quiet s = ground arith

  pub resolve_options-Quiet :
      (follow : Bool) (s : State W) → Quiet s (resolve_options k c follow s).1
  unfolding resolve_options
  resolve_options-Quiet follow s =
      let (visible, t) = links_visible k c s in
      elim (Bool-cases (is_host_proc c.proc)) [
        | inl e ↦ rw e (Quiet-trans s t (tgid_of k c t).1 (links_visible-Quiet s) (tgid_of-Quiet t))
        | inr e ↦ rw e (links_visible-Quiet s)
      ]

  pub guest_cwd-Quiet : (s : State W) → Quiet s (guest_cwd k c s).1
  unfolding guest_cwd
  guest_cwd-Quiet s = grind (arith, warn_once-Quiet)

  pub guest_fd_path-Quiet : (fd : ℤ) (s : State W) → Quiet s (guest_fd_path k c fd s).1
  unfolding guest_fd_path
  guest_fd_path-Quiet (negsuc n) s = Quiet-refl s
  guest_fd_path-Quiet (pos fd) s = grind (arith, warn_once-Quiet)

  pub path_text-Quiet : (sp : PathSpec) (s : State W) → Quiet s (path_text k c sp s).1
  unfolding path_text
  path_text-Quiet sp s =
      let read = read_cstring k.memory (world s) s.task.tid (s.regs.args sp.path_arg) path_max in
      elim (Bool-cases (s.regs.args sp.path_arg == 0)) [
        | inl e ↦ rw (e, path_text) (Quiet-refl s)
        | inr e ↦ elim (Reply-cases read) [
          | inl (n, p) ↦ rw (e, path_text, p) (Quiet-refl s)
          | inr (b, p) ↦ rw (e, path_text, p) (Quiet-refl s)
        ]
      ]

  base_of-Quiet : (sp : PathSpec) (s : State W) → Quiet s (base_of k c sp s).1
  unfolding base_of
  base_of-Quiet sp s =
      let dirfd : ℤ = elim sp.dirfd_arg [ none ↦ at_fdcwd | some i ↦ to_i32 (s.regs.args i) ] in
      if-elim (λ (x : Reply Bytes × State W). Quiet s x.1) (eq_ℤ dirfd at_fdcwd)
        (λ _. guest_cwd-Quiet s)
        (λ _.
          Quiet-and_then s (guest_fd_path k c dirfd s) (as_path k c) (guest_fd_path-Quiet dirfd s)
            as_path-Quiet)
    where
      as_path-Quiet : (o : Option Bytes) (t : State W) → Quiet s t → Quiet s (as_path k c o t).1
      as_path-Quiet none t q = q
      as_path-Quiet (some b) t q = q

  pub full_path-Quiet :
      (sp : PathSpec) (path : Bytes) (s : State W) → Quiet s (full_path k c sp path s).1
  unfolding full_path
  full_path-Quiet sp path s = elim (Bool-cases (is_absolute path)) [
    | inl e ↦ rw e (Quiet-refl s)
    | inr e ↦ rw e (Quiet-and_then s (base_of k c sp s) _ (base_of-Quiet sp s) (λ b t q. q))
  ]

  warn_magic-Quiet : (full : Bytes) (e : ℕ) (s : State W) → Quiet s (warn_magic k c full e s)
  unfolding warn_magic
  warn_magic-Quiet full e s = grind (arith, warn_once-Quiet)

  after_resolve-Quiet :
      (full : Bytes) (a : Answer × Cache) (s : State W) → Quiet s (after_resolve k c full a s).1
  unfolding after_resolve
  after_resolve-Quiet full (failed e, dirs) s = warn_magic-Quiet full e (record s { dirs = dirs })
  after_resolve-Quiet full (resolved r, dirs) s = Quiet-refl s

  pub resolve_path-Quiet :
      (sp : PathSpec) (full : Bytes) (s : State W) → Quiet s (resolve_path k c sp full s).1
  unfolding resolve_path
  resolve_path-Quiet sp full s =
      let (o, t) = resolve_options k c sp.follow s in
      Quiet-trans s t (resolve_path k c sp full s).1 (resolve_options-Quiet sp.follow s) (
        after_resolve-Quiet full
          (resolve (files k c t) c.table full
            (record o { see_through_links = o.see_through_links && not sp.link_name }) t.dirs)
          t)

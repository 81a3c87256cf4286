-- ===== src/Supervisor/Saved.antt =====
-- The argument registers through path translation in engines/rootless/syscall_handlers.cpp: a register
-- is saved before its first change.
use vhdp.Base.{
  eq_bytes, ℕ, true, false, Option, some, none, Bytes, ◌≡◌, ◌⊎◌, arith, inl, inr, if-elim,
  Bool-cases, ◌==◌,
}
use vhdp.Resolver.{Resolved}
use vhdp.Resolver.Kernel.{Reply, ok, err}
use vhdp.Identity.{Action, Args}
use vhdp.Tracee.Stack.{enomem, StackWriter, push_string}
use vhdp.Supervisor.State.{Kernel, Setup, State, Step, Translated, world, set_world, and_then}
use vhdp.Supervisor.Spec.{PathSpec}
use vhdp.Supervisor.Paths.{
  rewrite_arg, use_copy, apply_translation, settle, translate_text, translate_path, path_text,
  full_path, resolve_path, is_read_only,
}
use vhdp.Supervisor.Report.{warn}
use vhdp.Supervisor.Quiet.{Quiet, path_text-Quiet, full_path-Quiet, resolve_path-Quiet, warn-Quiet}

-- Each argument is saved, with a stop at the exit to come, or it is what it was.
abbrev pub IsSaved : {W : Type 0} → Args → State W → Type 0
IsSaved a s =
    (i : ℕ)
    → ((s.task.pending.saved i ≡ true)
        × (s.task.pending.orig_args i ≡ a i)
        × (s.task.pending.active ≡ true))
      ⊎ ((s.task.pending.saved i ≡ false) × (s.regs.args i ≡ a i))

-- What is saved stays saved.
abbrev pub Keeps : {W : Type 0} → State W → State W → Type 0
Keeps s t = (a : Args) → IsSaved a s → IsSaved a t

-- What the arguments and their saved values are is the same.
abbrev pub Same : {W : Type 0} → State W → State W → Type 0
Same s t =
    (t.task.pending.saved ≡ s.task.pending.saved)
    × (t.task.pending.orig_args ≡ s.task.pending.orig_args)
    × (t.regs.args ≡ s.regs.args)
    × (s.task.pending.active ≡ true → t.task.pending.active ≡ true)

pub Keeps-Same : {W : Type 0} (s t : State W) → Same s t → Keeps s t
Keeps-Same s t q a h i = elim (h i) [
  | inl x ↦ inl (rw q.0 x.0, rw q.1 x.1, q.3 x.2)
  | inr x ↦ inr (rw q.0 x.0, rw q.2 x.1)
]

pub Keeps-Quiet : {W : Type 0} (s t : State W) → Quiet s t → Keeps s t
Keeps-Quiet s t q a h i = rw (q.1, q.4) (h i)

pub Keeps-and_then :
    {W A B : Type 0} (s : State W) (m : Reply A × State W) (f : A → Step W B)
    → Keeps s m.1
    → ((a : A) (t : State W) → Keeps s t → Keeps s (f a t).1)
    → Keeps s (and_then m f).1
Keeps-and_then s (ok a, t) f q go = go a t q
Keeps-and_then s (err e, t) f q go = q

module _ {W : Type 0} (k : Kernel W) (c : Setup) where
  pub rewrite_arg-Keeps : (index value : ℕ) (s : State W) → Keeps s (rewrite_arg k c index value s)
  unfolding rewrite_arg
  rewrite_arg-Keeps index value s a h i = elim (Bool-cases (s.task.pending.saved index)) [
    | inl e ↦ rw e (ground (arith, h i, h index))
    | inr e ↦ rw e (ground (arith, h i, h index))
  ]

  warn-Keeps :
      (name message : Bytes) (code : ℕ) (s : State W) → Keeps s (warn k c name message code s)
  warn-Keeps name message code s =
      Keeps-Quiet s (warn k c name message code s) (warn-Quiet k c name message code s)

  use_copy-Keeps :
      (sp : PathSpec) (p : Reply ℕ × StackWriter × W) (s : State W)
      → Keeps s (use_copy k c sp p s).1
  unfolding use_copy
  use_copy-Keeps sp (ok addr, stack, w) s =
      rewrite_arg-Keeps sp.path_arg addr (record (set_world s w) { stack = stack })
  use_copy-Keeps sp (err e, stack, w) s =
      let t : State W = record (set_world s w) { stack = stack } in
      if-elim (λ (u : State W). Keeps s u) (e == enomem) (λ _. warn-Keeps _ _ enomem t) (λ _ a h. h)

  pub apply_translation-Keeps :
      (sp : PathSpec) (tp : Translated) (s : State W) → Keeps s (apply_translation k c sp tp s).1
  unfolding apply_translation
  apply_translation-Keeps sp tp s =
      if-elim (λ (m : Reply Unit × State W). Keeps s m.1) (eq_bytes tp.r.host tp.original)
        (λ _ a h. h) (λ _. use_copy-Keeps sp (push_string k.memory s.stack tp.r.host (world s)) s)

  settle-Keeps :
      (sp : PathSpec) (path : Bytes) (r : Resolved) (s : State W)
      → Keeps s (settle k c sp path r s).1
  unfolding settle
  settle-Keeps sp path r s =
      let tp : Translated = record { r = r; original = path } in
      if-elim (λ (m : Step W (Option Translated)). Keeps s (m s).1) (is_read_only k c sp r)
        (λ _ a h. h)
        (λ _.
          if-elim (λ (m : Step W (Option Translated)). Keeps s (m s).1) sp.resolve_only (λ _ a h. h)
            (λ _.
              Keeps-and_then s (apply_translation k c sp tp s) _ (apply_translation-Keeps sp tp s)
                (λ _ t q. q)))

  translate_text-Keeps :
      (sp : PathSpec) (text : Option Bytes) (s : State W) → Keeps s (translate_text k c sp text s).1
  unfolding translate_text
  translate_text-Keeps sp none s = λ a h. h
  translate_text-Keeps sp (some path) s =
      Keeps-and_then s (full_path k c sp path s) _
        (Keeps-Quiet s (full_path k c sp path s).1 (full_path-Quiet k c sp path s))
        (λ full t q.
          Keeps-and_then s (resolve_path k c sp full t) _
            (λ a h.
              Keeps-Quiet t (resolve_path k c sp full t).1 (resolve_path-Quiet k c sp full t) a
                (q a h))
            (λ r u p a h. settle-Keeps sp path r u a (p a h)))

  pub translate_path-Keeps : (sp : PathSpec) (s : State W) → Keeps s (translate_path k c sp s).1
  unfolding translate_path
  translate_path-Keeps sp s =
      Keeps-and_then s (path_text k c sp s) (translate_text k c sp)
        (Keeps-Quiet s (path_text k c sp s).1 (path_text-Quiet k c sp s))
        (λ text t q a h. translate_text-Keeps sp text t a (q a h))

  -- A handler that goes on from a translated path.
  pub after_path :
      (sp : PathSpec) (s : State W) (f : Option Translated → Step W Action)
      → ((tp : Option Translated) (t : State W) → Keeps t (f tp t).1)
      → Keeps s (and_then (translate_path k c sp s) f).1
  after_path sp s f go =
      Keeps-and_then s (translate_path k c sp s) f (translate_path-Keeps sp s)
        (λ tp t q a h. go tp t a (q a h))

-- ===== src/Supervisor/Translate.antt =====
-- What `translate_path` of engines/rootless/syscall_handlers.cpp hands to the kernel.
use vhdp.Base.{
  if-elim, ◌==◌, is_empty, ◌≢◌, if◌then◌else◌, ◌⊎◌, ℕ, Bool, true, false, [], ◌∷◌, Option, some,
  none, Bytes, ◌≡◌, refl, ◌∙◌, ap, subst, arith, inl, inr, Bool-cases, length, ◌<◌, has_byte,
  eq_bytes, eq_bytes_iff,
}
use vhdp.Path.{path_max}
use vhdp.Mounts.Mapping.{HasCanonicalPaths}
use vhdp.Resolver.{Resolved, Answer, failed, resolved}
use vhdp.Resolver.DirCache.{Cache}
use vhdp.Resolver.Kernel.{enoent, ok-injective, err≢ok, Reply, ok, err, Reply-cases}
use vhdp.Resolver.Confined.{IsConfined}
use vhdp.Resolver.Start.{resolve-IsConfined}
use vhdp.Tracee.{efault, read_cstring}
use vhdp.Tracee.Stack.{StackWriter, push_string}
use vhdp.Tracee.Writes.{Remembers, push_string-text}
use vhdp.Supervisor.State.{Kernel, Setup, State, Step, Translated, world, and_then}
use vhdp.Supervisor.Spec.{PathSpec}
use vhdp.Supervisor.Paths.{
  use_copy, rewrite_arg, path_text, full_path, after_resolve, resolve_path, is_read_only,
  apply_translation, settle, translate_text, translate_path,
}
use vhdp.Supervisor.Quiet.{Quiet, Quiet-trans, path_text-Quiet, full_path-Quiet, resolve_path-Quiet}

-- A step that fails, or whose result and state have a property.
pub data Ends {W A : Type 0} (P : A → State W → Type 0) : Reply A × State W → Type 0 where
  stopped : {e : ℕ} {t : State W} → Ends P (err e, t)
  ended : {a : A} {t : State W} → P a t → Ends P (ok a, t)

pub Ends-of :
    {W A : Type 0} (P : A → State W → Type 0) (m : Reply A × State W)
    → ((a : A) → m.0 ≡ ok a → P a m.1)
    → Ends P m
Ends-of P (err e, t) h = stopped
Ends-of P (ok a, t) h = ended (h a refl)

pub Ends-and_then :
    {W A B : Type 0} (P : A → State W → Type 0) (Q : B → State W → Type 0) {m : Reply A × State W}
    (f : A → Step W B)
    → Ends P m
    → ((a : A) (t : State W) → P a t → Ends Q (f a t))
    → Ends Q (and_then m f)
Ends-and_then P Q f stopped go = stopped
Ends-and_then P Q f (ended {a} {t} p) go = go a t p

pub Ends-value :
    {W A : Type 0} {P : A → State W → Type 0} {m : Reply A × State W} {a : A}
    → Ends P m
    → m.0 ≡ ok a
    → P a m.1
Ends-value stopped e = absurd (err≢ok e)
Ends-value {P} (ended {t} p) e = subst (λ x. P x t) (ok-injective e) p

module _ {W : Type 0} (k : Kernel W) (c : Setup) where
  path_text-read :
      (sp : PathSpec) (s : State W) {path : Bytes}
      → (path_text k c sp s).0 ≡ ok (some path)
      → read_cstring k.memory (world s) s.task.tid (s.regs.args sp.path_arg) path_max ≡ ok path
  unfolding path_text
  path_text-read sp s h =
      let read = read_cstring k.memory (world s) s.task.tid (s.regs.args sp.path_arg) path_max in
      elim (Bool-cases (s.regs.args sp.path_arg == 0)) [
        | inl z ↦ absurd (null efault sp.null_ok (rw (z, path_text) at h))
        | inr z ↦ elim (Reply-cases read) [
          | inl (n, p) ↦ absurd (err≢ok (rw (z, path_text, p) at h))
          | inr (b, p) ↦ p ∙ found enoent b sp.empty_ok (rw (z, path_text, p) at h)
        ]
      ]
    where
      null :
          {path : Bytes} (e : ℕ) (t : Bool)
          → ◌≢◌ {A = Reply (Option Bytes)} (if t then ok none else err e) (ok (some path))
      null e true h = cc
      null e false h = cc

      found :
          {path : Bytes} (e : ℕ) (b : Bytes) (t : Bool)
          → ◌≡◌ {A = Reply (Option Bytes)}
              (if is_empty b then (if t then ok none else err e) else ok (some b))
              (ok (some path))
          → ok b ≡ ok path
      found e [] true h = cc
      found e [] false h = cc
      found e (x ∷ b) t h = cc

  -- The argument names the host path already, or it is the address of a copy of it.
  apply_translation-cases :
      (sp : PathSpec) (tp : Translated) (s : State W)
      → (apply_translation k c sp tp s).0 ≡ ok tt
      → ((tp.r.host ≡ tp.original) × ((apply_translation k c sp tp s).1 ≡ s))
        ⊎ ((addr : ℕ) × ((push_string k.memory s.stack tp.r.host (world s)).0 ≡ ok addr)
            × (world (apply_translation k c sp tp s).1
                ≡ (push_string k.memory s.stack tp.r.host (world s)).2)
            × ((apply_translation k c sp tp s).1.regs.args sp.path_arg ≡ addr))
  unfolding apply_translation
  apply_translation-cases sp tp s h = elim (Bool-cases (eq_bytes tp.r.host tp.original)) [
    | inl e ↦ inl ((eq_bytes_iff tp.r.host tp.original).0 e, rw e refl)
    | inr e ↦ rw e (copied (push_string k.memory s.stack tp.r.host (world s)) (rw e at h))
  ]
    where
      copied :
          (p : Reply ℕ × StackWriter × W)
          → (use_copy k c sp p s).0 ≡ ok tt
          → ((tp.r.host ≡ tp.original) × ((use_copy k c sp p s).1 ≡ s))
            ⊎ ((addr : ℕ) × (p.0 ≡ ok addr)
                × (world (use_copy k c sp p s).1 ≡ p.2)
                × ((use_copy k c sp p s).1.regs.args sp.path_arg ≡ addr))
      copied (ok addr, stack, w) h =
          unfold use_copy rewrite_arg in inr (addr, refl, refl, ground arith)
      copied (err e, stack, w) h = unfold use_copy in absurd (err≢ok h)

  after_resolve-value :
      (full : Bytes) (a : Answer × Cache) (s : State W) {r : Resolved}
      → (after_resolve k c full a s).0 ≡ ok r
      → a.0 ≡ resolved r
  unfolding after_resolve
  after_resolve-value full (failed e, dirs) s h = absurd (err≢ok h)
  after_resolve-value full (resolved r, dirs) s h = ap resolved (ok-injective h)

  resolve_path-IsConfined :
      HasCanonicalPaths c.table
      → (sp : PathSpec) (full : Bytes) (s : State W) {r : Resolved}
      → (resolve_path k c sp full s).0 ≡ ok r
      → IsConfined c.table r
  unfolding resolve_path
  resolve_path-IsConfined paths sp full s h =
      resolve-IsConfined _ c.table full _ _ paths (after_resolve-value full _ _ h)

  -- What the kernel reads at the argument, if the host path is a text for it.
  abbrev Handed : PathSpec → ℕ → Option Translated → State W → Type 0
  Handed sp tid none t = Unit
  Handed sp tid (some tp) t =
      IsConfined c.table tp.r
      × (is_read_only k c sp tp.r ≡ false)
      × (has_byte 0 tp.r.host ≡ false
          → length tp.r.host < path_max
          → read_cstring k.memory (world t) tid (t.regs.args sp.path_arg) path_max ≡ ok tp.r.host)

  module _ (mem : W → ℕ → ℕ → Option ℕ) (rem : Remembers k.memory mem) where
    applied :
        (sp : PathSpec) (tp : Translated) (s : State W)
        → s.stack.tid ≡ s.task.tid
        → read_cstring k.memory (world s) s.task.tid (s.regs.args sp.path_arg) path_max
          ≡ ok tp.original
        → (apply_translation k c sp tp s).0 ≡ ok tt
        → has_byte 0 tp.r.host ≡ false
        → length tp.r.host < path_max
        → let t = (apply_translation k c sp tp s).1 in
          read_cstring k.memory (world t) s.task.tid (t.regs.args sp.path_arg) path_max
          ≡ ok tp.r.host
    applied sp tp s own read h clean fits = elim (apply_translation-cases sp tp s h) [
      | inl (same, e) ↦ rw (e, same) read
      | inr (addr, pushed, w, a) ↦
          rw (w, a, ← own)
            (push_string-text k.memory mem rem s.stack tp.r.host (world s) path_max pushed clean
              fits)
    ]

    settle-Handed :
        (sp : PathSpec) (path : Bytes) (r : Resolved) (s : State W)
        → sp.resolve_only ≡ false
        → IsConfined c.table r
        → s.stack.tid ≡ s.task.tid
        → read_cstring k.memory (world s) s.task.tid (s.regs.args sp.path_arg) path_max ≡ ok path
        → Ends (Handed sp s.task.tid) (settle k c sp path r s)
    unfolding settle
    settle-Handed sp path r s rewrites conf own read =
        let tp : Translated = record { r = r; original = path } in
        if-elim (λ (m : Step W (Option Translated)). Ends (Handed sp s.task.tid) (m s))
          (is_read_only k c sp r) (λ _. stopped)
          (λ ro.
            if-elim (λ (m : Step W (Option Translated)). Ends (Handed sp s.task.tid) (m s))
              sp.resolve_only (λ only. absurd (cc (only, rewrites)))
              (λ _.
                Ends-and_then
                  (λ _ t.
                    t ≡ (apply_translation k c sp tp s).1
                    × ((apply_translation k c sp tp s).0 ≡ ok tt))
                  (Handed sp s.task.tid) _
                  (Ends-of _ (apply_translation k c sp tp s) (λ u e. (refl, e)))
                  (λ _ t (same, e).
                    ended
                      (conf, ro, λ clean fits. rw same (applied sp tp s own read e clean fits)))))

    translate_text-Handed :
        (sp : PathSpec) (text : Option Bytes) (s t : State W)
        → sp.resolve_only ≡ false
        → HasCanonicalPaths c.table
        → s.stack.tid ≡ s.task.tid
        → Quiet s t
        → ((path : Bytes)
            → text ≡ some path
            → read_cstring k.memory (world s) s.task.tid (s.regs.args sp.path_arg) path_max
              ≡ ok path)
        → Ends (Handed sp s.task.tid) (translate_text k c sp text t)
    unfolding translate_text
    translate_text-Handed sp none s t rewrites paths own q read = ended tt
    translate_text-Handed sp (some path) s t rewrites paths own q read =
        Ends-and_then (λ _ u. Quiet s u) (Handed sp s.task.tid) _
          (Ends-of _ (full_path k c sp path t)
            (λ _ _. Quiet-trans s t (full_path k c sp path t).1 q (full_path-Quiet k c sp path t)))
          (λ full u q2.
            Ends-and_then (λ r v. Quiet s v × IsConfined c.table r) (Handed sp s.task.tid) _
              (Ends-of _ (resolve_path k c sp full u) (λ r e. (
                Quiet-trans s u (resolve_path k c sp full u).1 q2
                    (resolve_path-Quiet k c sp full u),
                resolve_path-IsConfined paths sp full u e,
              )))
              (λ r v (q3, conf).
                subst (λ tid. Ends (Handed sp tid) (settle k c sp path r v)) q3.3
                  (settle-Handed sp path r v rewrites conf (rw (q3.2, q3.3) own)
                    (rw (q3.0, q3.1, q3.3) (read path refl)))))

-- In a table of canonical paths, and a memory that keeps what is written into it: where
-- translate_path succeeds with a path and not only resolves it, the resolved path is confined to the
-- session's mounts, the call does not change a read-only mount, and the text that the kernel reads at
-- the argument behind it is the resolved host path, if that is a text shorter than PATH_MAX.
pub translate_path-IsConfined :
    {W : Type 0} (k : Kernel W) (c : Setup) (mem : W → ℕ → ℕ → Option ℕ) (sp : PathSpec)
    (s : State W) {tp : Translated}
    → Remembers k.memory mem
    → HasCanonicalPaths c.table
    → sp.resolve_only ≡ false
    → s.stack.tid ≡ s.task.tid
    → (translate_path k c sp s).0 ≡ ok (some tp)
    → has_byte 0 tp.r.host ≡ false
    → length tp.r.host < path_max
    → let t = (translate_path k c sp s).1 in
      IsConfined c.table tp.r
      × (is_read_only k c sp tp.r ≡ false)
      × (read_cstring k.memory (world t) s.task.tid (t.regs.args sp.path_arg) path_max
          ≡ ok tp.r.host)
unfolding translate_path
translate_path-IsConfined k c mem sp s rem paths rewrites own e clean fits =
    let handed =
      Ends-value
        (Ends-and_then (λ text t. Quiet s t × ((path_text k c sp s).0 ≡ ok text))
          (Handed k c sp s.task.tid) _
          (Ends-of _ (path_text k c sp s) (λ text f. (path_text-Quiet k c sp s, f)))
          (λ text t (q, f).
            translate_text-Handed k c mem rem sp text s t rewrites paths own q
              (λ path g. path_text-read k c sp s (f ∙ ap ok g))))
        e in
    (handed.0, handed.1, handed.2 clean fits)

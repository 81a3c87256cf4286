-- ===== src/Supervisor/Restore.antt =====
-- The argument registers of a call, through the handlers of engines/rootless/syscall_handlers.cpp and
-- the stops of supervisor.cpp.
use vhdp.Base.{
  ◌∙◌, ◌+◌, ◌||◌, ℕ, Bool, true, false, ◌&&◌, Option, some, none, Bytes, ◌≡◌, ◌⊎◌, refl, arith, inl,
  inr, if-elim, Bool-cases, ltb, ◌==◌, subst,
}
use vhdp.Base.Int.{ℤ, negsuc}
use vhdp.Resolver.{Resolved}
use vhdp.Resolver.Kernel.{Reply, ok, err, Reply-cases, read_link}
use vhdp.Identity.{Action, kernel, answer, Args, to_i32}
use vhdp.Syscalls.Handlers.{
  Handler, creat, access, faccessat, faccessat2, chdir, mkdir, mkdirat, mknod, mknodat, rmdir,
  unlink, unlinkat, rename, renameat, renameat2, link, linkat, symlink, symlinkat, chmod, fchmodat,
  fchmodat2, chown, lchown, fchownat, utime, utimes, futimesat, utimensat, truncate, statfs,
  xattr_set, xattr_lset, inotify_add_watch, fanotify_mark, fd_meta_write, fchown_fd,
}
use vhdp.Supervisor.State.{Kernel, Regs, Setup, State, Step, Pending, Translated, world, give}
use vhdp.Supervisor.Spec.{
  PathSpec, has_flag, without, at_eaccess, at_symlink_nofollow, at_empty_path,
}
use vhdp.Supervisor.Paths.{host_queryable, tgid_of, apply_translation, guest_fd_path}
use vhdp.Supervisor.Quiet.{guest_fd_path-Quiet, tgid_of-Quiet}
use vhdp.Supervisor.Handlers.{
  dispatch_path, run, unlink_entry, unlink_like, rename_entries, rename_like, link_file,
  copy_symlink, link_entries, link_like, guest_is_root, chown_like, chown_path, fd_meta,
  handle_fd_meta, query_access, access_path, access2, times_at,
}
use vhdp.Supervisor.Stops.{
  to_u64, set_return, restored, answered, prepare, finish_enter, enter, finish_exit,
}
use vhdp.Supervisor.Saved.{
  IsSaved, Keeps, Same, Keeps-and_then, Keeps-Same, apply_translation-Keeps, after_path,
}

module _ {W : Type 0} (k : Kernel W) (c : Setup) where
  run-Keeps : (sp : PathSpec) (s : State W) → Keeps s (run k c sp s).1
  unfolding run
  run-Keeps sp s = after_path k c sp s (λ _. give kernel) (λ _ _ a h. h)

  unlink_entry-Same :
      (removedir : Bool) (tp : Option Translated) (s : State W)
      → Same s (unlink_entry k c removedir tp s).1
  unfolding unlink_entry
  unlink_entry-Same removedir none s = (refl, refl, refl, λ h. h)
  unlink_entry-Same removedir (some tp) s = ground arith

  unlink_like-Keeps :
      (sp : PathSpec) (removedir : Bool) (s : State W) → Keeps s (unlink_like k c sp removedir s).1
  unfolding unlink_like
  unlink_like-Keeps sp removedir s =
      after_path k c _ s _ (λ tp t.
        Keeps-Same t (unlink_entry k c removedir tp t).1 (unlink_entry-Same removedir tp t))

  rename_entries-Same :
      (flags : ℕ) (p1 p2 : Option Translated) (s : State W)
      → Same s (rename_entries k c flags p1 p2 s).1
  unfolding rename_entries
  rename_entries-Same flags none p2 s = (refl, refl, refl, λ h. h)
  rename_entries-Same flags (some p1) none s = (refl, refl, refl, λ h. h)
  rename_entries-Same flags (some p1) (some p2) s = ground arith

  rename_like-Keeps :
      (s1 s2 : PathSpec) (flags : ℕ) (s : State W) → Keeps s (rename_like k c s1 s2 flags s).1
  unfolding rename_like
  rename_like-Keeps s1 s2 flags s = after_path k c _ s _ (λ p1 t. after_path k c _ t _ (λ p2 u.
      Keeps-Same u (rename_entries k c flags p1 p2 u).1 (rename_entries-Same flags p1 p2 u)))

  copy_symlink-Same : (old new : Bytes) (s : State W) → Same s (copy_symlink k c old new s).1
  unfolding copy_symlink
  copy_symlink-Same old new s = elim (Reply-cases (read_link (k.system (world s)).host old)) [
    | inl x ↦ rw (x.1, copy_symlink) (refl, refl, refl, λ h. h)
    | inr x ↦ rw (x.1, copy_symlink) (refl, refl, refl, λ h. h)
  ]

  link_file-Same : (r1 r2 : Resolved) (s : State W) → Same s (link_file k c r1 r2 s).1
  unfolding link_file
  link_file-Same r1 r2 s = grind (arith, copy_symlink-Same)

  link_entries-Same :
      (p1 p2 : Option Translated) (s : State W) → Same s (link_entries k c p1 p2 s).1
  unfolding link_entries
  link_entries-Same none p2 s = (refl, refl, refl, λ h. h)
  link_entries-Same (some p1) none s = (refl, refl, refl, λ h. h)
  link_entries-Same (some p1) (some p2) s = grind (arith, link_file-Same)

  link_like-Keeps : (old new : PathSpec) (s : State W) → Keeps s (link_like k c old new s).1
  unfolding link_like
  link_like-Keeps old new s = after_path k c _ s _ (λ p1 t.
      after_path k c _ t _
        (λ p2 u. Keeps-Same u (link_entries k c p1 p2 u).1 (link_entries-Same p1 p2 u)))

  tgid_of-Same : (s : State W) → Same s (tgid_of k c s).1
  tgid_of-Same s = let q = tgid_of-Quiet k c s in ground arith

  guest_is_root-Same : (s : State W) → Same s (guest_is_root k c s).1
  unfolding guest_is_root
  guest_is_root-Same s = grind (arith, tgid_of-Same)

  chown_like-Keeps : (sp : PathSpec) (s : State W) → Keeps s (chown_like k c sp s).1
  unfolding chown_like chown_path
  chown_like-Keeps sp s =
      after_path k c _ s _ (λ _ t. Keeps-Same t (guest_is_root k c t).1 (guest_is_root-Same t))

  fd_meta-Same :
      (is_chown : Bool) (m : Reply (Option Bytes) × State W) (s : State W)
      → Same s m.1
      → Same s (fd_meta k c is_chown m).1
  unfolding fd_meta
  fd_meta-Same is_chown (err e, t) s q = q
  fd_meta-Same is_chown (ok guest, t) s q = grind (arith, guest_is_root-Same)

  handle_fd_meta-Keeps :
      (fd : ℤ) (is_chown : Bool) (s : State W) → Keeps s (handle_fd_meta k c fd is_chown s).1
  unfolding handle_fd_meta
  handle_fd_meta-Keeps fd is_chown s =
      let q = guest_fd_path-Quiet k c fd s in
      Keeps-Same s (fd_meta k c is_chown (guest_fd_path k c fd s)).1
        (fd_meta-Same is_chown (guest_fd_path k c fd s) s (ground arith))

  query_access-Keeps :
      (sp : PathSpec) (mode : ℕ) (tp : Option Translated) (s : State W)
      → Keeps s (query_access k c sp mode tp s).1
  unfolding query_access
  query_access-Keeps sp mode none s = λ a h. h
  query_access-Keeps sp mode (some tp) s =
      if-elim (λ (m : Reply Action × State W). Keeps s m.1) (host_queryable k c (some tp))
        (λ _ a h. h)
        (λ _.
          Keeps-and_then s (apply_translation k c sp tp s) _ (apply_translation-Keeps k c sp tp s)
            (λ _ t q. q))

  access_path-Keeps :
      (sp : PathSpec) (mode : ℕ) (s : State W) → Keeps s (access_path k c sp mode s).1
  unfolding access_path
  access_path-Keeps sp mode s =
      if-elim (λ (m : Reply Action × State W). Keeps s m.1) (has_flag mode (without 7)) (λ _ a h. h)
        (λ _. after_path k c _ s _ (query_access-Keeps _ mode))

  access2-Keeps : (b : Args) (s : State W) → Keeps s (access2 k c b s).1
  unfolding access2
  access2-Keeps b s =
      if-elim (λ (m : Reply Action × State W). Keeps s m.1)
        (has_flag (b 3) (without (at_eaccess + at_symlink_nofollow + at_empty_path))
          || has_flag (b 2) (without 7))
        (λ _ a h. h)
        (λ _.
          if-elim (λ (m : Reply Action × State W). Keeps s m.1) (b 3 == 0)
            (λ _. access_path-Keeps _ (b 2) s) (λ _. run-Keeps _ s))

  times_at-Keeps :
      (has_flags : Bool) (b : Args) (s : State W) → Keeps s (times_at k c has_flags b s).1
  unfolding times_at
  times_at-Keeps has_flags b s =
      if-elim (λ (m : Reply Action × State W). Keeps s m.1) (b 1 == 0)
        (λ _. handle_fd_meta-Keeps (to_i32 (b 0)) false s) (λ _. run-Keeps _ s)

  abbrev EachKeeps : Option (Step W Action) → Type 0
  EachKeeps none = Unit
  EachKeeps (some m) = (s : State W) → Keeps s (m s).1

  dispatch_path-Keeps : (h : Handler) (b : Args) → EachKeeps (dispatch_path k c h b)
  unfolding dispatch_path
  dispatch_path-Keeps creat b = run-Keeps _
  dispatch_path-Keeps access b = access_path-Keeps _ _
  dispatch_path-Keeps faccessat b = access_path-Keeps _ _
  dispatch_path-Keeps faccessat2 b = access2-Keeps b
  dispatch_path-Keeps chdir b = run-Keeps _
  dispatch_path-Keeps mkdir b = run-Keeps _
  dispatch_path-Keeps mkdirat b = run-Keeps _
  dispatch_path-Keeps mknod b = run-Keeps _
  dispatch_path-Keeps mknodat b = run-Keeps _
  dispatch_path-Keeps rmdir b = run-Keeps _
  dispatch_path-Keeps unlink b = unlink_like-Keeps _ _
  dispatch_path-Keeps unlinkat b = unlink_like-Keeps _ _
  dispatch_path-Keeps rename b = rename_like-Keeps _ _ _
  dispatch_path-Keeps renameat b = rename_like-Keeps _ _ _
  dispatch_path-Keeps renameat2 b = rename_like-Keeps _ _ _
  dispatch_path-Keeps link b = link_like-Keeps _ _
  dispatch_path-Keeps linkat b = link_like-Keeps _ _
  dispatch_path-Keeps symlink b = run-Keeps _
  dispatch_path-Keeps symlinkat b = run-Keeps _
  dispatch_path-Keeps chmod b = run-Keeps _
  dispatch_path-Keeps fchmodat b = run-Keeps _
  dispatch_path-Keeps fchmodat2 b = run-Keeps _
  dispatch_path-Keeps chown b = chown_like-Keeps _
  dispatch_path-Keeps lchown b = chown_like-Keeps _
  dispatch_path-Keeps fchownat b = chown_like-Keeps _
  dispatch_path-Keeps utime b = run-Keeps _
  dispatch_path-Keeps utimes b = run-Keeps _
  dispatch_path-Keeps futimesat b = times_at-Keeps _ b
  dispatch_path-Keeps utimensat b = times_at-Keeps _ b
  dispatch_path-Keeps truncate b = run-Keeps _
  dispatch_path-Keeps statfs b = run-Keeps _
  dispatch_path-Keeps xattr_set b = run-Keeps _
  dispatch_path-Keeps xattr_lset b = run-Keeps _
  dispatch_path-Keeps inotify_add_watch b = run-Keeps _
  dispatch_path-Keeps fanotify_mark b = run-Keeps _
  dispatch_path-Keeps fd_meta_write b = handle_fd_meta-Keeps _ _
  dispatch_path-Keeps fchown_fd b = handle_fd_meta-Keeps _ _
  dispatch_path-Keeps _ b = tt

-- For each of the six arguments that is not the kept one.
abbrev Restored : {W : Type 0} → Bool → Args → State W → Type 0
Restored keep_first a t =
    (i : ℕ) → ltb i 6 ≡ true → keep_first && i == 0 ≡ false → t.regs.args i ≡ a i

restored-args :
    (p : Pending) (keep_first : Bool) (args a : Args) (i : ℕ)
    → ((p.saved i ≡ true) × (p.orig_args i ≡ a i) × (p.active ≡ true))
      ⊎ ((p.saved i ≡ false) × (args i ≡ a i))
    → ltb i 6 ≡ true
    → keep_first && i == 0 ≡ false
    → restored p keep_first args i ≡ a i
restored-args p keep_first args a i (inl x) lt kept = rw (lt, x.0, kept) (x.1)
restored-args p keep_first args a i (inr x) lt kept = rw (lt, x.0) (x.1)

-- What `enter` leads to: the call is answered, its arguments are put back and its return value is set,
-- in its own register or in that of the first argument; or the kernel runs the call and the stop at
-- its exit puts the arguments back.
abbrev pub Undone : {W : Type 0} → Setup → Args → State W → Type 0
Undone c a t =
    ((t.regs.nr ≡ negsuc 0)
      × Restored c.returns_in_first a t
      × (c.returns_in_first ≡ true → t.regs.args 0 ≡ to_u64 t.regs.ret))
    ⊎ Restored c.returns_in_first a (finish_exit c t)

finish_exit-Restored :
    {W : Type 0} (c : Setup) (a : Args) (s : State W)
    → IsSaved a s
    → Restored c.returns_in_first a (finish_exit c s)
unfolding finish_exit
finish_exit-Restored c a s h i lt kept = elim (Bool-cases s.task.pending.active) [
  | inl e ↦ rw e (restored-args s.task.pending c.returns_in_first s.regs.args a i (h i) lt kept)
  | inr e ↦ rw e (elim (h i) [ inl x ↦ absurd cc | inr x ↦ x.1 ])
]

-- Setting the return value leaves the other registers.
set_return_others :
    (in_first : Bool) (value : ℤ) (r : Regs) (i : ℕ)
    → in_first && i == 0 ≡ false
    → (set_return in_first value r).args i ≡ r.args i
unfolding set_return
set_return_others in_first value r i h = ground arith

set_return_first :
    (in_first : Bool) (value : ℤ) (r : Regs)
    → in_first ≡ true
    → (set_return in_first value r).args 0 ≡ to_u64 (set_return in_first value r).ret
unfolding set_return
set_return_first in_first value r h = rw h refl

set_return_nr : (in_first : Bool) (value : ℤ) (r : Regs) → (set_return in_first value r).nr ≡ r.nr
unfolding set_return
set_return_nr in_first value r = refl

module _ {W : Type 0} (c : Setup) where
  finish_enter-Undone :
      (a : Args) (m : Action × State W) → IsSaved a m.1 → Undone c a (finish_enter c m)
  unfolding finish_enter
  finish_enter-Undone a (kernel, s) h = inr (finish_exit-Restored c a s h)
  finish_enter-Undone a (answer ret, s) h =
      let p : Pending = s.task.pending in
      let r : Regs = record s.regs { args = restored p false s.regs.args; nr = negsuc 0 } in
      inl (
        set_return_nr c.returns_in_first ret r,
        λ i lt kept.
            set_return_others c.returns_in_first ret r i kept
            ∙ restored-args p false s.regs.args a i (h i) lt refl,
        set_return_first c.returns_in_first ret r,
      )

  answered-IsSaved :
      (a : Args) (m : Reply Action × State W) → IsSaved a m.1 → IsSaved a (answered m).1
  answered-IsSaved a (ok x, s) h = h
  answered-IsSaved a (err e, s) h = h

  -- For a handler `m` of a path call, chosen by `dispatch_path` with any arguments `b`, the state `t`
  -- that `on_syscall_enter` leaves is of one of two kinds. The call is answered (its number is set
  -- to -1), and each of the six argument registers is what it was in `s`. Or, after
  -- `on_syscall_exit` from `t`, each of them is what it was in `s`. In both, the first register is an
  -- exception where the architecture returns values in it: an answered call has its return value
  -- there.
  pub enter-Undone :
      (k : Kernel W) (h : Handler) (b : Args) (m : Step W Action) (s : State W)
      → dispatch_path k c h b ≡ some m
      → Undone c s.regs.args (enter c m s)
  unfolding enter prepare
  enter-Undone k h b m s e =
      let keeps : EachKeeps k c (some m) = subst (EachKeeps k c) e (dispatch_path-Keeps k c h b) in
      finish_enter-Undone s.regs.args (answered (m (prepare s))) (
        answered-IsSaved s.regs.args (m (prepare s))
          (keeps (prepare s) s.regs.args (λ i. inr (refl, refl))))

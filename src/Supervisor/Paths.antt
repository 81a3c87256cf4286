-- ===== src/Supervisor/Paths.antt =====
-- From a path of the guest to the path that the kernel gets: `tgid_of` up to `host_queryable` of
-- engines/rootless/syscall_handlers.cpp.
use vhdp.Base.{
  ℕ, Bool, true, false, ◌&&◌, ◌||◌, not, ◌++◌, Option, some, none, Bytes, codes, eq_bytes,
  if◌then◌else◌, ◌==◌, is_empty,
}
use vhdp.Base.Int.{ℤ, pos, negsuc, eq_ℤ}
use vhdp.Base.Decimal.{to_string}
use vhdp.Path.{path_max, is_absolute, is_below, join}
use vhdp.Mounts.{to_guest}
use vhdp.Config.{ProcMode, host_proc}
use vhdp.ProcFiles.{proc_status_field}
use vhdp.Resolver.{Resolved, Answer, failed, resolved, resolve}
use vhdp.Resolver.Kernel.{Host, Reply, ok, err, read_link, enoent, eacces, enotdir}
use vhdp.Resolver.DirCache.{Cache}
use vhdp.Resolver.Links.{Options, is_proc}
use vhdp.Identity.{to_i32}
use vhdp.Tracee.{read_cstring, efault, esrch}
use vhdp.Tracee.Stack.{push_string, enomem, StackWriter}
use vhdp.LinkStore.Scan.{check_stores}
use vhdp.Supervisor.State.{
  Kernel, Setup, State, Step, Regs, Pending, Translated, world, set_world, set_pending, give, fail,
  and_then, ◌>>=◌,
}
use vhdp.Supervisor.Report.{warn, warn_once}
use vhdp.Supervisor.Spec.{PathSpec, ends_with_deleted, proc_link_kind}

-- EBADF and EROFS
abbrev pub ebadf : ℕ
ebadf = 9

abbrev pub erofs : ℕ
erofs = 30

-- `kAtFdcwd`
abbrev pub at_fdcwd : ℤ
at_fdcwd = negsuc 99

abbrev pub is_host_proc : ProcMode → Bool
is_host_proc host_proc = true
is_host_proc _ = false

module _ {W : Type 0} (k : Kernel W) (c : Setup) where
  abbrev pub files : State W → Host
  files s = (k.system (world s)).host

  -- The thread group of the task, which is kept once it is known.
  unfoldable pub tgid_of : State W → ℕ × State W
  unfolding proc_status_field
  tgid_of s =
      if not (s.task.tgid == 0)
      then (s.task.tgid, s)
      else elim (proc_status_field (k.system (world s)) s.task.tid (codes "Tgid")) [
        | none ↦ (s.task.tid, s)
        | some v ↦ elim (k.strtol v) [
          | negsuc n ↦ (s.task.tid, s)
          | pos tg ↦
              if tg == 0
              then (s.task.tid, s)
              else (tg, record s { task = record s.task { tgid = tg } })
        ]
      ]

  abbrev pub has_objects : State W → Bool
  has_objects s = not (is_empty s.links.objects)

  unfoldable pub links_visible : State W → Bool × State W
  unfolding check_stores
  links_visible s =
      if has_objects s
      then (true, s)
      else if not c.links_enabled
      then (false, s)
      else let (present, links) = check_stores k.links c.pid s.links (k.clock (world s)) c.table in
        (present, record s { links = links })

  unfoldable pub resolve_options : Bool → State W → Options × State W
  unfolding tgid_of links_visible
  resolve_options follow s =
      let (visible, s1) = links_visible s in
      let (tgid, s2) = if is_host_proc c.proc then tgid_of s1 else (0, s1) in
      (
        record {
          follow_final = follow;
          max_symlinks = 40;
          proc_tgid = if is_host_proc c.proc then pos tgid else pos 0;
          proc_tid = if is_host_proc c.proc then pos s.task.tid else pos 0;
          see_through_links = visible;
          use_cache = true;
        },
        s2,
      )

  -- A file of the task in /proc.
  abbrev pub task_file : State W → Bytes → Bytes
  task_file s name = codes "/proc/" ++ (to_string s.task.tid ++ name)

  unfoldable pub guest_cwd : Step W Bytes
  unfolding ends_with_deleted to_guest warn_once
  guest_cwd s = elim (read_link (files s) (task_file s (codes "/cwd"))) [
    | err e ↦ (err esrch, s)
    | ok host ↦ if ends_with_deleted host then (err enoent, s) else elim (to_guest c.table host) [
      | some guest ↦ (ok guest, s)
      | none ↦ (
        err eacces,
        warn_once k c (codes "path.cwd_outside") host
            (codes
              "guest working directory is outside every session mount; path lookups relative to it are refused")
            eacces s,
      )
    ]
  ]

  -- `std::to_string` of a descriptor
  abbrev pub fd_path : State W → ℕ → Bytes
  fd_path s fd = task_file s (codes "/fd/" ++ to_string fd)

  -- The guest path of a descriptor, none if it is no file of the file system.
  unfoldable pub guest_fd_path : ℤ → Step W (Option Bytes)
  unfolding ends_with_deleted to_guest warn_once is_absolute
  guest_fd_path (negsuc n) s = (err ebadf, s)
  guest_fd_path (pos fd) s = elim (read_link (files s) (fd_path s fd)) [
    | err e ↦ (err ebadf, s)
    | ok host ↦
        if not (is_absolute host)
        then (ok none, s)
        else if ends_with_deleted host
        then (err enoent, s)
        else elim (to_guest c.table host) [
          | some guest ↦ (ok (some guest), s)
          | none ↦ (
            err eacces,
            warn_once k c (codes "path.fd_outside") host
                (codes "descriptor "
                  ++ (to_string fd
                      ++ codes " refers to a host path outside the session mounts; refused"))
                eacces s,
          )
        ]
  ]

  abbrev pub set_arg : Regs → ℕ → ℕ → Regs
  set_arg r index value = record r { args = λ i. if i == index then value else r.args i }

  unfoldable pub rewrite_arg : ℕ → ℕ → State W → State W
  rewrite_arg index value s =
      let p = s.task.pending in
      let p1 : Pending = if p.saved index then p else record p {
        orig_args = λ i. if i == index then s.regs.args index else p.orig_args i;
        saved = λ i. if i == index then true else p.saved i;
      } in
      record (set_pending s (record p1 { active = true })) { regs = set_arg s.regs index value }

  -- The argument gets the address of the copy.
  unfoldable pub use_copy : PathSpec → Reply ℕ × StackWriter × W → Step W Unit
  use_copy sp (ok addr, stack, w) s =
      (ok tt, rewrite_arg sp.path_arg addr (record (set_world s w) { stack = stack }))
  use_copy sp (err e, stack, w) s =
      let s1 : State W = record (set_world s w) { stack = stack } in
      (
        err e,
        if e == enomem
            then warn k c (codes "path.scratch_unavailable")
                (codes
                  "no writable stack space below the tracee stack pointer for a translated path")
                enomem s1
            else s1,
      )

  -- `apply_translation` of a path that is present.
  unfoldable pub apply_translation : PathSpec → Translated → Step W Unit
  apply_translation sp tp s =
      if eq_bytes tp.r.host tp.original
      then (ok tt, s)
      else use_copy sp (push_string k.memory s.stack tp.r.host (world s)) s

  -- The text of the path argument; none where there is nothing to translate.
  unfoldable pub path_text : PathSpec → Step W (Option Bytes)
  path_text sp s =
      let addr = s.regs.args sp.path_arg in
      if addr == 0
      then (if sp.null_ok then ok none else err efault, s)
      else elim (read_cstring k.memory (world s) s.task.tid addr path_max) [
        | err e ↦ (err e, s)
        | ok path ↦ (
          if is_empty path then (if sp.empty_ok then ok none else err enoent) else ok (some path),
          s,
        )
      ]

  -- A descriptor that is no path is no directory.
  abbrev pub as_path : Option Bytes → Step W Bytes
  as_path none = fail enotdir
  as_path (some b) = give b

  -- The directory that a relative path is taken from.
  unfoldable pub base_of : PathSpec → Step W Bytes
  base_of sp s =
      let dirfd : ℤ = elim sp.dirfd_arg [ none ↦ at_fdcwd | some i ↦ to_i32 (s.regs.args i) ] in
      if eq_ℤ dirfd at_fdcwd then guest_cwd s else and_then (guest_fd_path dirfd s) as_path

  unfoldable pub full_path : PathSpec → Bytes → Step W Bytes
  unfolding base_of is_absolute
  full_path sp path =
      if is_absolute path then give path else (do base ← base_of sp; give (join base path))

  -- The diagnostic of a link of /proc that leads out of the session.
  unfoldable pub warn_magic : Bytes → ℕ → State W → State W
  unfolding warn_once proc_link_kind is_below
  warn_magic full e s =
      if e == eacces && is_host_proc c.proc && is_below full (codes "/proc")
      then warn_once k c (codes "path.magic_link_denied") (proc_link_kind full)
          (codes "/proc magic link target is outside the session mounts: " ++ full) eacces s
      else s

  -- With the directory cache that the resolution leaves.
  unfoldable pub after_resolve : Bytes → Answer × Cache → Step W Resolved
  unfolding warn_magic
  after_resolve full (failed e, dirs) s = (err e, warn_magic full e (record s { dirs = dirs }))
  after_resolve full (resolved r, dirs) s = (ok r, record s { dirs = dirs })

  unfoldable pub resolve_path : PathSpec → Bytes → Step W Resolved
  unfolding resolve_options after_resolve
  resolve_path sp full s =
      let (o, s1) = resolve_options sp.follow s in
      let o' = record o { see_through_links = o.see_through_links && not sp.link_name } in
      after_resolve full (resolve (files s1) c.table full o' s1.dirs) s1

  -- Whether the object may not be changed, or not be made, on a mount that is read-only.
  unfoldable pub is_read_only : PathSpec → Resolved → Bool
  is_read_only sp r =
      r.mount.read_only
      && not r.proc_magic
      && ((sp.erofs_if_exists && r.exists) || (sp.erofs_if_missing && not r.exists))

  -- What is done with a path that has been resolved.
  unfoldable pub settle : PathSpec → Bytes → Resolved → Step W (Option Translated)
  settle sp path r =
      let tp : Translated = record { r = r; original = path } in
      if is_read_only sp r
      then fail erofs
      else if sp.resolve_only
      then give (some tp)
      else (do _ ← apply_translation sp tp; give (some tp))

  unfoldable pub translate_text : PathSpec → Option Bytes → Step W (Option Translated)
  translate_text sp none = give none
  translate_text sp (some path) = do
    full ← full_path sp path
    r ← resolve_path sp full
    settle sp path r

  unfoldable pub translate_path : PathSpec → Step W (Option Translated)
  translate_path sp = do text ← path_text sp; translate_text sp text

  -- `host_queryable`
  unfoldable pub host_queryable : Option Translated → Bool
  host_queryable none = false
  host_queryable (some tp) = not (is_proc tp.r.mount.kind) && not tp.r.proc_magic

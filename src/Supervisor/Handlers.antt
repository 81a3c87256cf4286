-- ===== src/Supervisor/Handlers.antt =====
-- The handlers of path calls in engines/rootless/syscall_handlers.cpp, which make the most part of
-- `dispatch`. A handler that fails with an errno answers the call with it.
use vhdp.Base.{
  ℕ, ◌+◌, Bool, true, false, ◌&&◌, ◌||◌, not, [], Option, some, none, Bytes, eq_bytes,
  if◌then◌else◌, ◌==◌, is_empty,
}
use vhdp.Base.Int.{ℤ, pos}
use vhdp.Mounts.{Mount, mount_for_guest}
use vhdp.Resolver.{Resolved}
use vhdp.Resolver.Kernel.{Reply, ok, err, enoent, read_link, einval}
use vhdp.Syscalls.Handlers.{
  Handler, creat, access, faccessat, faccessat2, chdir, mkdir, mkdirat, mknod, mknodat, rmdir,
  unlink, unlinkat, rename, renameat, renameat2, link, linkat, symlink, symlinkat, chmod, fchmodat,
  fchmodat2, chown, lchown, fchownat, utime, utimes, futimesat, utimensat, truncate, statfs,
  xattr_set, xattr_lset, inotify_add_watch, fanotify_mark, fd_meta_write, fchown_fd,
}
use vhdp.Identity.{Action, kernel, answer, minus, creds_of, to_i32}
use vhdp.LinkStore.Store.{entry_id, link_new, link_existing, eexist}
use vhdp.LinkStore.Release.{unlink_name}
use vhdp.LinkStore.Scan.{hex_id}
use vhdp.Tracee.{eio}
use vhdp.Supervisor.State.{
  Kernel, Setup, State, Step, Pending, rename_links, Translated, world, set_world, set_pending,
  and_then, ◌>>=◌, give,
}
use vhdp.Supervisor.Spec.{
  PathSpec, spec, has_flag, without, at_symlink_nofollow, at_symlink_follow, at_empty_path,
  at_eaccess, at_remove_dir, in_dont_follow, fan_mark_dont_follow,
}
use vhdp.Supervisor.Paths.{
  tgid_of, guest_fd_path, apply_translation, translate_path, host_queryable, ebadf, erofs,
}

-- EXDEV
abbrev pub exdev : ℕ
exdev = 18

-- kRenameNoReplace and kRenameExchange
abbrev pub rename_no_replace : ℕ
rename_no_replace = 1

abbrev pub rename_exchange : ℕ
rename_exchange = 2

-- The answer for what a call returns: 0, or the errno with its sign turned.
abbrev pub returns : Option ℕ → Action
returns none = answer (pos 0)
returns (some e) = minus e

-- The mounts of a table are told apart by their guest paths.
abbrev pub same_mount : Mount → Mount → Bool
same_mount a b = eq_bytes a.guest b.guest

module _ {W : Type 0} (k : Kernel W) (c : Setup) where
  -- The lambda `run`, where the handler goes on with the kernel's call.
  unfoldable pub run : PathSpec → Step W Action
  run sp = do _ ← translate_path k c sp; give kernel

  abbrev entry : State W → Resolved → Bytes
  entry s r = if r.final_is_symlink then entry_id k.links c.pid (world s) r.host else []

  -- A path that may be an emulated hard link has been translated.
  unfoldable pub unlink_entry : Bool → Option Translated → Step W Action
  unlink_entry removedir none s = (ok kernel, s)
  unlink_entry removedir (some tp) s =
      let id = entry s tp.r in
      if removedir || is_empty id
      then (ok kernel, s)
      else let (e, links) = unlink_name k.links c.pid s.links tp.r.mount id tp.r.host in
        (ok (returns e), record s { links = links })

  unfoldable pub unlink_like : PathSpec → Bool → Step W Action
  unlink_like sp removedir = do
    tp ← translate_path k c (record sp { link_name = not removedir })
    unlink_entry removedir tp

  -- What `rename_like` notes for the exit of the call.
  abbrev renaming : Pending → Resolved → Resolved → Bytes → Bytes → Bool → Pending
  renaming p r1 r2 src dst exchange = record p {
    active = true;
    fixup = rename_links;
    link_mount = some r1.mount;
    link_src = src;
    link_dst = dst;
    link_from = r1.host;
    link_to = r2.host;
    link_exchange = exchange;
  }

  unfoldable pub rename_entries : ℕ → Option Translated → Option Translated → Step W Action
  rename_entries flags none p2 s = (ok kernel, s)
  rename_entries flags (some p1) none s = (ok kernel, s)
  rename_entries flags (some p1) (some p2) s =
      let src = entry s p1.r in
      let dst = entry s p2.r in
      let exchange = has_flag flags rename_exchange in
      if not (same_mount p1.r.mount p2.r.mount)
      then (err exdev, s)
      else if is_empty src && is_empty dst
      then (ok kernel, s)
      else if eq_bytes src dst
      then (
        ok (
            if exchange
            then kernel
            else if has_flag flags rename_no_replace
            then minus eexist
            else answer (pos 0)),
        s,
      )
      else (ok kernel, set_pending s (renaming s.task.pending p1.r p2.r src dst exchange))

  unfoldable pub rename_like : PathSpec → PathSpec → ℕ → Step W Action
  rename_like s1 s2 flags = do
    p1 ← translate_path k c (record s1 { link_name = true })
    p2 ← translate_path k c (record s2 { link_name = true })
    rename_entries flags p1 p2

  -- A hard link to a symbolic link itself is a copy of it.
  unfoldable pub copy_symlink : Bytes → Bytes → State W → Action × State W
  copy_symlink old new s = elim (read_link (k.system (world s)).host old) [
    | err e ↦ (minus eio, s)
    | ok target ↦ let (e, w) = k.links.symlink (world s) target new in (returns e, set_world s w)
  ]

  unfoldable pub link_file : Resolved → Resolved → State W → Action × State W
  link_file r1 r2 s =
      let id : Bytes = if is_empty r1.link_id then entry s r1 else r1.link_id in
      if not (is_empty id)
      then (let (e, links) = link_existing k.links c.pid s.links r1.mount id r2.host in
          (returns e, record s { links = links }))
      else if not c.links_enabled || r1.is_dir
      then (kernel, s)
      else if r1.final_is_symlink
      then copy_symlink r1.host r2.host s
      else let (e, links) =
          link_new k.links c.pid s.links r1.mount (hex_id (k.random (world s))) r1.host r2.host in
        (returns e, record s { links = links })

  unfoldable pub link_entries : Option Translated → Option Translated → Step W Action
  link_entries none p2 s = (ok kernel, s)
  link_entries (some p1) none s = (ok kernel, s)
  link_entries (some p1) (some p2) s =
      if not p1.r.exists
      then (ok kernel, s)
      else if p2.r.exists
      then (err eexist, s)
      else if not (same_mount p1.r.mount p2.r.mount)
      then (err exdev, s)
      else let (a, s') = link_file p1.r p2.r s in (ok a, s')

  unfoldable pub link_like : PathSpec → PathSpec → Step W Action
  link_like old new = do
    p1 ← translate_path k c (record old { link_name = not old.follow })
    p2 ← translate_path k c (record new { link_name = true })
    link_entries p1 p2

  abbrev is_zero : Option ℕ → Bool
  is_zero none = false
  is_zero (some n) = n == 0

  -- `guest_is_root`
  unfoldable pub guest_is_root : State W → Bool × State W
  guest_is_root s =
      if not (is_zero c.uid)
      then (false, s)
      else let (tgid, s1) = tgid_of k c s in
        let (cr, creds) = creds_of (c.host_uid, c.host_gid) (c.uid, c.gid) s1.creds tgid in
        (cr.user.effective == 0, record s1 { creds = creds })

  abbrev is_missing : Option Translated → Bool
  is_missing none = false
  is_missing (some tp) = not tp.r.exists

  unfoldable pub chown_path : Option Translated → Step W Action
  chown_path tp s =
      let (root, s') = guest_is_root s in
      (
        if not root then ok kernel else if is_missing tp then err enoent else ok (answer (pos 0)),
        s',
      )

  unfoldable pub chown_like : PathSpec → Step W Action
  chown_like sp = do tp ← translate_path k c sp; chown_path tp

  abbrev is_frozen : Option Bytes → Bool
  is_frozen none = false
  is_frozen (some guest) = elim (mount_for_guest c.table guest) [
    | none ↦ false
    | some m ↦ m.read_only
  ]

  -- `handle_fd_meta`: the kernel itself reports EBADF.
  unfoldable pub fd_meta : Bool → Reply (Option Bytes) × State W → Reply Action × State W
  fd_meta is_chown (err e, s) = (if e == ebadf then ok kernel else err e, s)
  fd_meta is_chown (ok guest, s) =
      if is_frozen guest
      then (err erofs, s)
      else if not is_chown
      then (ok kernel, s)
      else let (root, s') = guest_is_root s in (ok (if root then answer (pos 0) else kernel), s')

  unfoldable pub handle_fd_meta : ℤ → Bool → Step W Action
  handle_fd_meta fd is_chown s = fd_meta is_chown (guest_fd_path k c fd s)

  -- The lambda `access_path`, with `resolve_query` in it: the supervisor asks the kernel itself, or
  -- hands the path over.
  unfoldable pub query_access : PathSpec → ℕ → Option Translated → Step W Action
  query_access sp mode none s = (ok kernel, s)
  query_access sp mode (some tp) s =
      if host_queryable k c (some tp)
      then (ok (returns (k.faccessat (world s) tp.r.host mode)), s)
      else and_then (apply_translation k c sp tp s) (λ _. give kernel)

  unfoldable pub access_path : PathSpec → ℕ → Step W Action
  access_path sp mode s =
      if has_flag mode (without 7)
      then (err einval, s)
      else (do tp ← translate_path k c (record sp { resolve_only = true }); query_access sp mode tp)
          s

  -- W_OK
  abbrev w_ok : ℕ
  w_ok = 2

  abbrev no_follow : ℕ → Bool
  no_follow flags = has_flag flags at_symlink_nofollow

  abbrev empty_path : PathSpec → ℕ → PathSpec
  empty_path sp flags = record sp { empty_ok = has_flag flags at_empty_path }

  -- faccessat2
  unfoldable pub access2 : (ℕ → ℕ) → Step W Action
  access2 a s =
      let sp =
        empty_path (spec 1 (some 0) (not (no_follow (a 3))) (has_flag (a 2) w_ok) false) (a 3) in
      if has_flag (a 3) (without (at_eaccess + at_symlink_nofollow + at_empty_path))
        || has_flag (a 2) (without 7)
      then (err einval, s)
      else if a 3 == 0
      then access_path sp (a 2) s
      else run sp s

  -- utimensat and futimesat without a path change the times of the descriptor.
  unfoldable pub times_at : Bool → (ℕ → ℕ) → Step W Action
  times_at has_flags a s =
      let flags : ℕ = if has_flags then a 3 else 0 in
      if a 1 == 0
      then handle_fd_meta (to_i32 (a 0)) false s
      else run (empty_path (spec 1 (some 0) (not (no_follow flags)) true false) flags) s

  -- The cases of `dispatch` that end in the functions above, with the arguments of the call.
  unfoldable pub dispatch_path : Handler → (ℕ → ℕ) → Option (Step W Action)
  dispatch_path creat a = some (run (spec 0 none true true true))
  dispatch_path access a = some (access_path (spec 0 none true (has_flag (a 1) w_ok) false) (a 1))
  dispatch_path faccessat a =
      some (access_path (spec 1 (some 0) true (has_flag (a 2) w_ok) false) (a 2))
  dispatch_path faccessat2 a = some (access2 a)
  dispatch_path chdir a = some (run (spec 0 none true false false))
  dispatch_path mkdir a = some (run (spec 0 none false false true))
  dispatch_path mkdirat a = some (run (spec 1 (some 0) false false true))
  dispatch_path mknod a = some (run (spec 0 none false false true))
  dispatch_path mknodat a = some (run (spec 1 (some 0) false false true))
  dispatch_path rmdir a = some (run (spec 0 none false true false))
  dispatch_path unlink a = some (unlink_like (spec 0 none false true false) false)
  dispatch_path unlinkat a =
      some (unlink_like (spec 1 (some 0) false true false) (has_flag (a 2) at_remove_dir))
  dispatch_path rename a =
      some (rename_like (spec 0 none false true false) (spec 1 none false true true) 0)
  dispatch_path renameat a =
      some (rename_like (spec 1 (some 0) false true false) (spec 3 (some 2) false true true) 0)
  dispatch_path renameat2 a =
      some (rename_like (spec 1 (some 0) false true false) (spec 3 (some 2) false true true) (a 4))
  dispatch_path link a =
      some (link_like (spec 0 none false false false) (spec 1 none false false true))
  dispatch_path linkat a = some (
      link_like (empty_path (spec 1 (some 0) (has_flag (a 4) at_symlink_follow) false false) (a 4))
        (spec 3 (some 2) false false true))
  dispatch_path symlink a = some (run (spec 1 none false false true))
  dispatch_path symlinkat a = some (run (spec 2 (some 1) false false true))
  dispatch_path chmod a = some (run (spec 0 none true true false))
  dispatch_path fchmodat a = some (run (spec 1 (some 0) true true false))
  dispatch_path fchmodat2 a =
      some (run (empty_path (spec 1 (some 0) (not (no_follow (a 3))) true false) (a 3)))
  dispatch_path chown a = some (chown_like (spec 0 none true true false))
  dispatch_path lchown a = some (chown_like (spec 0 none false true false))
  dispatch_path fchownat a =
      some (chown_like (empty_path (spec 1 (some 0) (not (no_follow (a 4))) true false) (a 4)))
  dispatch_path utime a = some (run (spec 0 none true true false))
  dispatch_path utimes a = some (run (spec 0 none true true false))
  dispatch_path futimesat a = some (times_at false a)
  dispatch_path utimensat a = some (times_at true a)
  dispatch_path truncate a = some (run (spec 0 none true true false))
  dispatch_path statfs a = some (run (spec 0 none true false false))
  dispatch_path xattr_set a = some (run (spec 0 none true true false))
  dispatch_path xattr_lset a = some (run (spec 0 none false true false))
  dispatch_path inotify_add_watch a =
      some (run (spec 1 none (not (has_flag (a 2) in_dont_follow)) false false))
  dispatch_path fanotify_mark a = some (
      run (record (spec 4 (some 3) (not (has_flag (a 1) fan_mark_dont_follow)) false false) {
        null_ok = true;
      }))
  dispatch_path fd_meta_write a = some (handle_fd_meta (to_i32 (a 0)) false)
  dispatch_path fchown_fd a = some (handle_fd_meta (to_i32 (a 0)) true)
  dispatch_path _ a = none

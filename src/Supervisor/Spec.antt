-- ===== src/Supervisor/Spec.antt =====
-- What a handler asks of a path argument, and the tests on flags, names and paths at the head of
-- engines/rootless/syscall_handlers.cpp. Flags have 64 bits.
use Prim.Native.Nat.{bit_and, bit_or}
use vhdp.Base.{
  ℕ, ◌+◌, ◌-◌, ◌*◌, ◌^◌, Bool, true, false, ◌&&◌, ◌||◌, not, List, [], ◌∷◌, ◌++◌, Option, Bytes,
  codes, eq_bytes, starts_with, if◌then◌else◌, length, ltb, leb, ◌==◌, is_empty, drop,
}
use vhdp.Path.{slash, components}
use vhdp.Syscalls.{SyscallInfo, SyscallClass}
use vhdp.Syscalls.Handlers.{Handler}

-- `PathSpec`; no `dirfd_arg` means the working directory.
pub record PathSpec : Type 0 where
  pub path_arg : ℕ
  pub dirfd_arg : Option ℕ
  pub follow : Bool
  pub erofs_if_exists : Bool
  pub erofs_if_missing : Bool
  pub empty_ok : Bool
  pub null_ok : Bool
  pub link_name : Bool
  pub resolve_only : Bool

unfoldable pub spec : ℕ → Option ℕ → Bool → Bool → Bool → PathSpec
spec path_arg dirfd_arg follow erofs_if_exists erofs_if_missing = record {
  path_arg = path_arg;
  dirfd_arg = dirfd_arg;
  follow = follow;
  erofs_if_exists = erofs_if_exists;
  erofs_if_missing = erofs_if_missing;
  empty_ok = false;
  null_ok = false;
  link_name = false;
  resolve_only = false;
}

-- `(flags & bits) != 0`
abbrev pub has_flag : ℕ → ℕ → Bool
has_flag flags bits = not (bit_and flags bits == 0)

-- O_ACCMODE, O_CREAT, O_EXCL, O_TRUNC and O_PATH; __O_TMPFILE is the part of O_TMPFILE that is not
-- O_DIRECTORY.
abbrev pub o_accmode : ℕ
o_accmode = 3

abbrev pub o_creat : ℕ
o_creat = 64

abbrev pub o_excl : ℕ
o_excl = 128

abbrev pub o_trunc : ℕ
o_trunc = 512

abbrev pub o_path : ℕ
o_path = 2097152

abbrev pub tmpfile_bit : ℕ
tmpfile_bit = 4194304

abbrev pub o_tmpfile : ℕ → ℕ
o_tmpfile o_directory = bit_or tmpfile_bit o_directory

-- With the O_NOFOLLOW and the O_DIRECTORY of the architecture.
unfoldable pub open_spec : ℕ → ℕ → ℕ → Option ℕ → ℕ → PathSpec
unfolding spec
open_spec o_nofollow o_directory path_arg dirfd_arg flags =
    let creat = has_flag flags o_creat in
    let excl = has_flag flags o_excl in
    let tmpfile = bit_and flags (o_tmpfile o_directory) == o_tmpfile o_directory in
    spec path_arg dirfd_arg (not (has_flag flags o_nofollow) && not (creat && excl))
      (not (bit_and flags o_accmode == 0) || has_flag flags o_trunc || tmpfile) creat

abbrev pub at_symlink_nofollow : ℕ
at_symlink_nofollow = 0x100

abbrev pub at_symlink_follow : ℕ
at_symlink_follow = 0x400

abbrev pub at_empty_path : ℕ
at_empty_path = 0x1000

abbrev pub at_no_automount : ℕ
at_no_automount = 0x800

abbrev pub at_statx_sync_type : ℕ
at_statx_sync_type = 0x6000

abbrev pub at_eaccess : ℕ
at_eaccess = 0x200

abbrev pub at_remove_dir : ℕ
at_remove_dir = 0x200

abbrev pub statx_reserved : ℕ
statx_reserved = 0x80000000

abbrev pub in_dont_follow : ℕ
in_dont_follow = 0x02000000

abbrev pub fan_mark_dont_follow : ℕ
fan_mark_dont_follow = 0x4

abbrev pub clone_untraced : ℕ
clone_untraced = 0x00800000

-- `~bits`
abbrev pub without : ℕ → ℕ
without bits = 2 ^ 64 - 1 - bits

-- `early_stat_error`: whether it is -EINVAL.
unfoldable pub early_stat_error : Bool → ℕ → ℕ → Bool
early_stat_error is_statx flags mask =
    let base : ℕ = bit_or at_symlink_nofollow (bit_or at_no_automount at_empty_path) in
    if is_statx
      && (bit_and flags at_statx_sync_type == at_statx_sync_type || has_flag mask statx_reserved)
    then true
    else has_flag flags (without (if is_statx then bit_or base at_statx_sync_type else base))

abbrev pub is_digit : ℕ → Bool
is_digit c = leb b'0' c && leb c b'9'

unfoldable pub all_digits : Bytes → Bool
all_digits [] = true
all_digits (c ∷ s) = is_digit c && all_digits s

-- The loop of `proc_exe_owner` over the digits.
unfoldable pub owner_digits : ℕ → Bytes → ℕ
owner_digits n [] = n
owner_digits n (c ∷ s) =
    let rest = owner_digits (n * 10 + (c - b'0')) s in
    if not (is_digit c) || ltb 400000000 n then 0 else rest

-- With the components of the path. The number is not wrapped to 32 bits.
unfoldable pub exe_owner : List Bytes → ℕ → ℕ
unfolding eq_bytes owner_digits
exe_owner (a ∷ b ∷ c ∷ []) self =
    if not (eq_bytes a (codes "proc") && eq_bytes c (codes "exe"))
    then 0
    else if eq_bytes b (codes "self")
    then self
    else owner_digits 0 b
exe_owner (a ∷ b ∷ c ∷ d ∷ e ∷ []) self =
    if not (eq_bytes a (codes "proc") && eq_bytes e (codes "exe") && eq_bytes c (codes "task"))
    then 0
    else if eq_bytes b (codes "self")
    then self
    else owner_digits 0 b
exe_owner _ self = 0

unfoldable pub proc_exe_owner : Bytes → ℕ → ℕ
unfolding exe_owner components
proc_exe_owner guest self = exe_owner (components guest) self

-- The loop of `proc_link_kind` over the components.
unfoldable pub kind_of : List Bytes → Bytes
unfolding all_digits
kind_of [] = []
kind_of (c ∷ parts) =
    slash ∷ ((if not (is_empty c) && all_digits c then b'*' ∷ [] else c) ++ kind_of parts)

unfoldable pub proc_link_kind : Bytes → Bytes
unfolding kind_of components
proc_link_kind guest = kind_of (components guest)

unfoldable pub ends_with_deleted : Bytes → Bool
unfolding eq_bytes
ends_with_deleted s = ltb 10 (length s) && eq_bytes (drop (length s - 10) s) (codes " (deleted)")

abbrev named : Bytes → List Bytes → Bool
named n [] = false
named n (x ∷ xs) = let rest = named n xs in if eq_bytes n x then true else rest

abbrev is_unsupported : SyscallClass → Bool
is_unsupported SyscallClass.unsupported = true
is_unsupported _ = false

unfoldable pub denial_reason : SyscallInfo Handler → Bytes
unfolding eq_bytes starts_with
denial_reason info =
    let n = info.name in
    if eq_bytes n (codes "ptrace")
    then codes "nested ptrace is not supported: the rootless engine is already the tracer"
    else if starts_with (codes "io_uring") n
    then codes "io_uring would execute path operations without syscall translation"
    else if eq_bytes n (codes "clone3")
    then codes
        "clone3 is refused so the C library falls back to clone(2), whose flags can be checked"
    else if eq_bytes n (codes "openat2")
    then codes "openat2 resolution flags are not translated yet; callers fall back to openat"
    else if eq_bytes n (codes "chroot")
    then codes "chroot is not emulated by the rootless engine"
    else if named n (codes "unshare" ∷ codes "setns" ∷ [])
    then codes "namespace changes would invalidate path translation"
    else if named n (
        codes "mount"
        ∷ codes "umount2"
        ∷ codes "pivot_root"
        ∷ codes "open_tree"
        ∷ codes "move_mount"
        ∷ codes "fsopen"
        ∷ codes "fsconfig"
        ∷ codes "fsmount"
        ∷ codes "fspick"
        ∷ codes "mount_setattr"
        ∷ [])
    then codes "mount operations require a rooted or VM backend"
    else if named n (codes "open_by_handle_at" ∷ codes "name_to_handle_at" ∷ [])
    then codes "file handles bypass path translation"
    else if eq_bytes n (codes "pidfd_getfd")
    then codes "copying descriptors out of other processes is refused"
    else if is_unsupported info.class
    then codes "not supported by the rootless engine"
    else codes "refused by the rootless syscall policy"

-- ===== src/Mounts.antt =====
-- vfs/mount_table.hpp and .cpp: the mapping between guest and host paths. A `const Mount*` is the
-- mount itself.
pub mod Best
pub mod Mapping
use vhdp.Base.{
  ℕ, Bool, true, false, ◌&&◌, List, [], ◌∷◌, ◌++◌, Option, some, none, Bytes, codes, eq_bytes,
  if◌then◌else◌, is_empty, length, ltb,
}
use vhdp.Path.{root, is_below, suffix_after}

-- `MountKind`
pub data Kind : Type 0 where
  rootfs bind device proc : Kind

pub record Mount : Type 0 where
  pub guest : Bytes
  pub host : Bytes
  pub read_only : Bool
  pub kind : Kind
  pub source : Bytes

-- `mounts_`, whose first element is the root file system.
pub record MountTable : Type 0 where
  pub front : Mount
  pub added : List Mount

abbrev pub mounts : MountTable → List Mount
mounts t = t.front ∷ t.added

abbrev pub root_mount : Bytes → Bool → Mount
root_mount rootfs_host read_only = record {
  guest = root;
  host = rootfs_host;
  read_only = read_only;
  kind = rootfs;
  source = codes "rootfs";
}

-- The constructor, and `add`.
abbrev pub new_table : Bytes → Bool → MountTable
new_table rootfs_host read_only = record { front = root_mount rootfs_host read_only; added = [] }

abbrev pub add : MountTable → Mount → MountTable
add t m = record t { added = t.added ++ m ∷ [] }

-- One round of the loop of `mount_for_guest` and of `to_guest`, over the one or the other path of
-- a mount, with the mount found so far.
unfoldable pub pick : (Mount → Bytes) → Bytes → Option Mount → Mount → Option Mount
pick side path best m =
    if is_below path (side m)
      && elim best [ none ↦ true | some b ↦ ltb (length (side b)) (length (side m)) ]
    then some m
    else best

unfoldable pub longest : (Mount → Bytes) → Bytes → Option Mount → List Mount → Option Mount
unfolding pick
longest side path best [] = best
longest side path best (m ∷ ms) = longest side path (pick side path best m) ms

unfoldable pub mount_for_guest : MountTable → Bytes → Option Mount
unfolding longest
mount_for_guest t guest = longest (λ m. m.guest) guest none (mounts t)

-- A path moved from one prefix to another, as `to_host` does it.
unfoldable pub append_suffix : Bytes → Bytes → Bytes
append_suffix host rest =
    if is_empty rest then host else if eq_bytes host root then rest else host ++ rest

unfoldable pub to_host : MountTable → Bytes → Mount × Bytes
unfolding mount_for_guest append_suffix
to_host t guest =
    let m : Mount = elim (mount_for_guest t guest) [ none ↦ t.front | some m ↦ m ] in
    (m, append_suffix m.host (suffix_after guest m.guest))

-- What `to_guest` returns once it has found the mount.
unfoldable pub guest_under : Mount → Bytes → Bytes
guest_under m host =
    let rest = suffix_after host m.host in
    if eq_bytes m.guest root then (if is_empty rest then root else rest) else m.guest ++ rest

unfoldable pub mount_for_host : MountTable → Bytes → Option Mount
unfolding longest
mount_for_host t host = longest (λ m. m.host) host none (mounts t)

unfoldable pub to_guest : MountTable → Bytes → Option Bytes
unfolding mount_for_host guest_under
to_guest t host = elim (mount_for_host t host) [ none ↦ none | some m ↦ some (guest_under m host) ]

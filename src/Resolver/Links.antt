-- ===== src/Resolver/Links.antt =====
-- Where a symbolic link leads: `proc_link_target` of vfs/resolver.cpp, and the part of `resolve`
-- that turns a link into the target it follows.
use vhdp.Base.{
  ℕ, suc, ◌-◌, Bool, true, false, ◌&&◌, ◌||◌, not, [], ◌∷◌, ◌++◌, Option, some, none, Bytes, codes,
  eq_bytes, if◌then◌else◌, length, ltb, drop, is_empty, starts_with,
}
use vhdp.Base.Int.{ℤ, pos}
use vhdp.Base.Decimal.{to_string}
use vhdp.Path.{slash, suffix_after, is_absolute}
use vhdp.Mounts.{Mount, MountTable, Kind, proc, to_guest}
use vhdp.LinkMarker.{link_store_path, link_target_id}
use vhdp.Resolver.Kernel.{Host, Reply, ok, err, read_link, eacces, enoent}

-- `ResolveOptions`; `use_cache` is `dir_cache != nullptr`.
pub record Options : Type 0 where
  pub follow_final : Bool
  pub max_symlinks : ℕ
  pub proc_tgid : ℤ
  pub proc_tid : ℤ
  pub see_through_links : Bool
  pub use_cache : Bool

abbrev pub is_proc : Kind → Bool
is_proc proc = true
is_proc _ = false

-- A path to go on with, or an object that only the kernel can name.
pub data Target : Type 0 where
  leads : Bytes → Target
  magic : Target

-- The positive process id, if it is one.
abbrev pub positive : ℤ → Option ℕ
positive (pos (suc n)) = some (suc n)
positive _ = none

-- `s.find(needle) != npos`
unfoldable pub has_infix : Bytes → Bytes → Bool
unfolding starts_with
has_infix needle [] = is_empty needle
has_infix needle (c ∷ s) = starts_with needle (c ∷ s) || has_infix needle s

abbrev pub deleted_mark : Bytes
deleted_mark = codes " (deleted)"

-- The last bytes of `raw` are the mark, with something in front.
unfoldable pub is_deleted : Bytes → Bool
is_deleted raw =
    ltb (length deleted_mark) (length raw)
    && eq_bytes (drop (length raw - length deleted_mark) raw) deleted_mark

-- `proc_link_target` on what readlink returned.
unfoldable pub raw_target : MountTable → Bytes → Reply Target
unfolding has_infix is_deleted is_absolute starts_with
raw_target t raw =
    if is_empty raw
    then err enoent
    else if not (is_absolute raw)
    then (if has_infix (codes ":[") raw || starts_with (codes "anon_inode:") raw
        then ok magic
        else ok (leads raw))
    else if is_deleted raw
    then err enoent
    else elim (to_guest t raw) [ none ↦ err eacces | some g ↦ ok (leads g) ]

unfoldable pub thread_self : Options → Reply Target
thread_self o = elim (positive o.proc_tgid) [
  | none ↦ err eacces
  | some p ↦ elim (positive o.proc_tid) [
    | none ↦ err eacces
    | some q ↦ ok (leads (to_string p ++ (codes "/task/" ++ to_string q)))
  ]
]

unfoldable pub proc_link_target : Host → MountTable → Bytes → Bytes → Mount → Options → Reply Target
unfolding raw_target thread_self
proc_link_target h t guest host mount o =
    let rel = suffix_after guest mount.guest in
    if eq_bytes rel (codes "/self")
    then elim (positive o.proc_tgid) [ none ↦ err eacces | some p ↦ ok (leads (to_string p)) ]
    else if eq_bytes rel (codes "/thread-self")
    then thread_self o
    else elim (read_link h host) [ err e ↦ err e | ok raw ↦ raw_target t raw ]

-- The object of an emulated hard link stands in the store of the mount that holds the link.
unfoldable pub through_store : Mount → Bytes → Bytes
through_store mount target =
    let id = link_target_id target in
    if is_empty id then target else link_store_path mount.guest ++ slash ∷ id

-- The target of a link that is followed; `known` is the target if it has been read already.
unfoldable pub link_target :
    Host → MountTable → Options → Mount → Bytes → Bytes → Option Bytes → Reply Target
unfolding proc_link_target through_store read_link
link_target h t o mount guest host known =
    if is_proc mount.kind then proc_link_target h t guest host mount o else elim known [
      | some target ↦ ok (leads (through_store mount target))
      | none ↦ elim (read_link h host) [
        | err e ↦ err e
        | ok target ↦ ok (leads (through_store mount target))
      ]
    ]

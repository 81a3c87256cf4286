-- ===== src/Tests/Kernel.antt =====
-- The system call filter, and a resolution through a symbolic link.
use vhdp.Base.{
  true, false, [], ◌∷◌, Bytes, codes, ◌≡◌, refl, inl, inr, eq_bytes, if◌then◌else◌, starts_with,
  arith,
}
use vhdp.Base.Int.{pos}
use vhdp.Path.{
  root, is_absolute, emit, scan, components, any_dotdot, concat_slashed, build, apply_dotdots,
  normalize_lexical, is_below, suffix_after, ends_in_slash,
}
use vhdp.Path.Normalize.{IsNormal, normalize_lexical-IsNormal}
use vhdp.Mounts.{
  Mount, MountTable, mounts, new_table, root_mount, pick, longest, mount_for_guest, append_suffix,
  to_host,
}
use vhdp.Mounts.Best.{In}
use vhdp.Mounts.Mapping.{HasCanonicalPaths}
use vhdp.LinkMarker.{
  link_target_id, target_id_of, all_lower_hex, is_link_id, is_store_head, link_store_path,
}
use vhdp.Resolver.{
  Resolved, resolved, resolve, resolve_components, loop, start, look, trailing, take_link,
  target_components, after_error, after_lstat, after_reply, cached_prefix, enter, finish, is_object,
  object_id, only_dots, see_through, visit,
}
use vhdp.Resolver.Kernel.{Host, Reply, ok, Stat, symlink, directory, read_link}
use vhdp.Resolver.Links.{Options, link_target, through_store}
use vhdp.Resolver.Confined.{IsConfined}
use vhdp.Resolver.Start.{resolve-IsConfined}
use vhdp.Seccomp.{Policy, Input, build_seccomp_filter, evaluate_seccomp_filter}
use vhdp.Seccomp.Correct.{FitsWords, IsInput, decide, evaluate-build}

-- A policy of x86-64: socket is 41, clone 56 and sendto 44.
abbrev policy : Policy
policy = record {
  audit_arch = 0xC000003E;
  check_x32 = true;
  network_none = true;
  nr_socket = pos 41;
  nr_clone = pos 56;
  nr_sendto = pos 44;
  allow = pos 0 ∷ pos 1 ∷ pos 3 ∷ [];
}

-- A clone.
abbrev clone_call : Input
clone_call = record {
  nr = pos 56;
  arch = 0xC000003E;
  arg0 = 0x11;
  arg1 = 0;
  arg2 = 0;
  arg3 = 0;
  arg4 = 0;
  arg5 = 0;
}

clone_call-IsInput : IsInput clone_call
clone_call-IsInput = record { arch_is = omega arith; arg0_is = omega arith; arg4_is = omega arith }

policy-FitsWords : FitsWords policy
policy-FitsWords = record {
  arch_fits = omega arith;
  allow_fits = (omega arith, (omega arith, (omega arith, tt)));
  socket_fits = omega arith;
  clone_fits = omega arith;
  sendto_fits = omega arith;
}

evaluate-build_example :
    evaluate_seccomp_filter (build_seccomp_filter policy) clone_call ≡ decide policy clone_call
evaluate-build_example = evaluate-build policy clone_call clone_call-IsInput policy-FitsWords

-- A host where everything is a directory, but for a link /srv/link to /etc.
abbrev lstat_of : Bytes → Reply Stat
lstat_of p =
    if eq_bytes p (codes "/srv/link")
    then ok (record { file_kind = symlink; dev = 1; ino = 2 })
    else ok (record { file_kind = directory; dev = 1; ino = 3 })

abbrev pub host : Host
host = record { lstat = lstat_of; readlink = λ _. ok (codes "/etc") }

abbrev pub options : Options
options = record {
  follow_final = true;
  max_symlinks = 40;
  proc_tgid = pos 0;
  proc_tid = pos 0;
  see_through_links = false;
  use_cache = false;
}

abbrev pub table : MountTable
table = new_table (codes "/srv") false

root-IsNormal : IsNormal root
root-IsNormal = ([], tt, unfold build in refl)

IsNormal-srv : IsNormal (codes "/srv")
unfolding normalize_lexical components scan emit apply_dotdots build concat_slashed eq_bytes
IsNormal-srv = normalize_lexical-IsNormal (codes "/srv")

table-IsNormal : (m : Mount) → In m (mounts table) → IsNormal m.guest × IsNormal m.host
table-IsNormal m (inl e) = rw e (root-IsNormal, IsNormal-srv)
table-IsNormal m (inr x) = elim x [ ]

pub table_canonical : HasCanonicalPaths table
table_canonical = record {
  front_root = refl;
  guest_normal = λ m i. (table-IsNormal m i).0;
  host_normal = λ m i. (table-IsNormal m i).1;
}

abbrev pub etc : Resolved
etc = record {
  guest = codes "/etc";
  host = codes "/srv/etc";
  mount = root_mount (codes "/srv") false;
  exists = true;
  is_dir = true;
  final_is_symlink = false;
  proc_magic = false;
  link_id = [];
}

link_resolves : (resolve host table (codes "/link") options []).0 ≡ resolved etc
unfolding resolve is_absolute resolve_components loop start components eq_bytes look to_host
    suffix_after is_below build trailing ends_in_slash take_link link_target link_target_id
    target_components starts_with all_lower_hex is_link_id is_store_head link_store_path
    target_id_of append_suffix longest mount_for_guest pick concat_slashed emit scan read_link
    through_store after_error after_lstat after_reply cached_prefix enter finish is_object object_id
    only_dots see_through visit any_dotdot
link_resolves = refl

resolve-IsConfined_example : IsConfined table etc
resolve-IsConfined_example =
    resolve-IsConfined host table (codes "/link") options [] table_canonical link_resolves

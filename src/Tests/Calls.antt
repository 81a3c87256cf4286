-- ===== src/Tests/Calls.antt =====
-- A system call with the path of a symbolic link, in a process whose memory is mapped below 2 ^ 64.
use vhdp.Base.{
  ◌==◌, if◌then◌else◌, ℕ, ◌<◌, ◌^◌, true, false, [], ◌∷◌, some, none, codes, ◌≡◌, refl, arith, inl,
  inr, length, has_byte, eq_bytes,
}
use vhdp.Base.Int.{pos}
use vhdp.Path.{path_max}
use vhdp.Config.{no_proc}
use vhdp.Elf.{x86_64}
use vhdp.Resolver.Kernel.{ok, err, enoent}
use vhdp.Resolver.Confined.{IsConfined}
use vhdp.LinkStore.Calls.{Calls}
use vhdp.Exec.Calls.{System}
use vhdp.Tracee.{read_cstring}
use vhdp.Tracee.Stack.{stack_writer}
use vhdp.Syscalls.Handlers.{chdir}
use vhdp.Identity.{Args}
use vhdp.Supervisor.State.{Kernel, Setup, State, Translated, no_pending, world}
use vhdp.Supervisor.Spec.{PathSpec, spec}
use vhdp.Supervisor.Paths.{translate_path, is_read_only}
use vhdp.Supervisor.Translate.{translate_path-IsConfined}
use vhdp.Supervisor.Handlers.{run, dispatch_path}
use vhdp.Supervisor.Stops.{enter}
use vhdp.Supervisor.Restore.{Undone, enter-Undone}
use vhdp.Tests.Kernel.{host, table, table_canonical, etc}
use vhdp.Tests.Memory.{Ram, ram, mapped, crossing, ram-Remembers}

abbrev calls : Calls Ram
calls = record {
  symlink = λ fs t p. (none, fs);
  unlink = λ fs p. (none, fs);
  rename = λ fs a b. (none, fs);
  mkdir = λ fs p. (none, fs);
  lock = λ fs p. fs;
  readlink = λ fs p. err enoent;
  lstat = λ fs p. err enoent;
  readdir = λ fs p. [];
  mkostemp = λ fs p. (none, fs);
  hard_link = λ fs a b. (none, fs);
  strtoul = λ b. none;
}

abbrev system : System
system = record {
  host = host;
  access = λ p. none;
  noexec = λ p. false;
  open_file = λ p. err enoent;
  stat = λ p. err enoent;
  architecture = x86_64;
}

abbrev kernel : Kernel Ram
kernel = record {
  memory = ram;
  links = calls;
  system = λ w. system;
  clock = λ w. 0;
  random = λ w. [];
  faccessat = λ w p m. none;
  strtol = λ b. pos 0;
}

abbrev setup : Setup
setup = record {
  table = table;
  proc = no_proc;
  uid = some 0;
  gid = none;
  host_uid = 1000;
  host_gid = 1000;
  session_id = 1;
  wants = λ severity. false;
  loader_path = codes "/tmp/loader";
  use_seccomp = true;
  links_enabled = false;
  red_zone = 128;
  o_directory = 65536;
  o_nofollow = 131072;
  returns_in_first = false;
  pid = 5;
}

-- The path stands in the memory at 8190.
abbrev args : Args
args = λ i. if i == 0 then 8190 else 0

abbrev stopped : State Ram
stopped = record {
  links = record {
    fs = crossing;
    counter = 0;
    objects = [];
    by_path = [];
    stores_checked = 0;
    stores_present = false;
  };
  dirs = [];
  argv0 = [];
  creds = [];
  reported = [];
  denials = [];
  events = [];
  guest_filtered = [];
  task = record {
    tid = 7;
    tgid = 7;
    bootstrap = false;
    exec_seen = false;
    pending = no_pending;
    load_request = [];
    load_exe = [];
  };
  regs = record { nr = pos 80; args = args; ret = pos 0; sp = 65536; native_abi = true };
  stack = stack_writer 128 7 65536;
}

abbrev followed : PathSpec
followed = spec 0 none true false false

abbrev link_to_etc : Translated
link_to_etc = record { r = etc; original = codes "/link" }

link_translated : (translate_path kernel setup followed stopped).0 ≡ ok (some link_to_etc)
unfolding translate_path vhdp.Supervisor.Paths.path_text spec read_cstring vhdp.Tracee.Stored.stored
    vhdp.Tests.Memory.put vhdp.Supervisor.Paths.translate_text vhdp.Supervisor.Paths.full_path
    vhdp.Supervisor.Paths.resolve_path vhdp.Resolver.resolve vhdp.Path.is_absolute
    vhdp.Resolver.resolve_components vhdp.Resolver.loop vhdp.Resolver.start vhdp.Path.components
    eq_bytes vhdp.Resolver.look vhdp.Mounts.to_host vhdp.Path.suffix_after vhdp.Path.is_below
    vhdp.Path.build vhdp.Resolver.trailing vhdp.Path.ends_in_slash vhdp.Resolver.take_link
    vhdp.Resolver.Links.link_target vhdp.LinkMarker.link_target_id vhdp.Resolver.target_components
    vhdp.Base.starts_with vhdp.LinkMarker.all_lower_hex vhdp.LinkMarker.is_link_id
    vhdp.LinkMarker.is_store_head vhdp.LinkMarker.link_store_path vhdp.LinkMarker.target_id_of
    vhdp.Mounts.append_suffix vhdp.Mounts.longest vhdp.Mounts.mount_for_guest vhdp.Mounts.pick
    vhdp.Path.concat_slashed vhdp.Path.emit vhdp.Path.scan vhdp.Resolver.Kernel.read_link
    vhdp.Resolver.Links.through_store vhdp.Resolver.after_error vhdp.Resolver.after_lstat
    vhdp.Resolver.after_reply vhdp.Resolver.cached_prefix vhdp.Resolver.enter vhdp.Resolver.finish
    vhdp.Resolver.is_object vhdp.Resolver.object_id vhdp.Resolver.only_dots
    vhdp.Resolver.see_through vhdp.Resolver.visit vhdp.Path.any_dotdot
    vhdp.Supervisor.Paths.resolve_options vhdp.Supervisor.Paths.after_resolve
    vhdp.Supervisor.Paths.settle vhdp.Supervisor.Paths.apply_translation
    vhdp.Supervisor.Paths.use_copy vhdp.Supervisor.Paths.rewrite_arg vhdp.Tracee.Stack.push_string
    vhdp.Tracee.read_rounds vhdp.Tracee.wanted vhdp.Tracee.read_mem vhdp.Tracee.until_nul
    vhdp.Tracee.overflows stack_writer vhdp.Tracee.Stack.push vhdp.Tracee.write_mem is_read_only
link_translated = refl

stack_of_task : stopped.stack.tid ≡ stopped.task.tid
unfolding stack_writer
stack_of_task = refl

translate_path-IsConfined_example :
    let t = (translate_path kernel setup followed stopped).1 in
    IsConfined setup.table link_to_etc.r
    × (is_read_only kernel setup followed link_to_etc.r ≡ false)
    × (read_cstring kernel.memory
          (world t)
          stopped.task.tid
          (t.regs.args followed.path_arg)
          path_max
        ≡ ok link_to_etc.r.host)
unfolding has_byte spec
translate_path-IsConfined_example =
    translate_path-IsConfined kernel setup mapped followed stopped ram-Remembers table_canonical
      refl stack_of_task link_translated refl (omega arith)

chdir_dispatched : dispatch_path kernel setup chdir args ≡ some (run kernel setup followed)
unfolding dispatch_path
chdir_dispatched = refl

enter-Undone_example :
    Undone setup stopped.regs.args (enter setup (run kernel setup followed) stopped)
enter-Undone_example =
    enter-Undone setup kernel chdir args (run kernel setup followed) stopped chdir_dispatched

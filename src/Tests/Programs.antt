-- ===== src/Tests/Programs.antt =====
-- A script that an ELF program interprets, and the program's loader.
use vhdp.Base.{
  ℕ, true, false, [], ◌∷◌, ◌++◌, some, none, Bytes, codes, ◌≡◌, refl, arith, eq_bytes,
  if◌then◌else◌, starts_with, has_byte, length, take, drop, is_empty,
}
use vhdp.Mounts.{to_host, longest, mount_for_guest, pick, append_suffix}
use vhdp.Path.{
  is_absolute, components, build, ends_in_slash, concat_slashed, emit, scan, any_dotdot, join,
  suffix_after, is_below,
}
use vhdp.Resolver.{
  resolve, resolve_components, loop, start, look, trailing, finish, after_error, after_lstat,
  after_reply, cached_prefix, is_object, object_id, only_dots, see_through, visit,
}
use vhdp.Resolver.Kernel.{Host, ok, err, other, enoent, einval}
use vhdp.Resolver.Links.{has_infix}
use vhdp.Elf
use vhdp.Elf.{
  Status, Info, parse_header, scan_phdrs, rd16, rd32, rd64, check_table, range_ok, scan_phdr,
  read_interp, store_interp, validate_interp,
}
use vhdp.Elf.Bounds.{Reads, parse_header-Reads}
use vhdp.Elf.Interp.{Scanned}
use vhdp.Elf.Header.{scan_phdrs-Fits}
use vhdp.Exec.Calls.{interrupted, bytes, File, System, pread_full}
use vhdp.Exec.Argv0.{scan_loader, loader_supports_argv0}
use vhdp.Exec.Argv0.Scan.{end_of_file, again, piece, scan_loader-has_infix}
use vhdp.Exec.Shebang.{parse_shebang, take_while, drop_while, trim_end, shebang_arg}
use vhdp.Exec.Shebang.Line.{all, script_line, parse_shebang-line}
use vhdp.Exec.Examine.{
  done, examine, refuse, allowed, asked, defined, open_program, check_header, read_phdrs,
  read_loader,
}
use vhdp.Exec.Holds.{Holds}
use vhdp.Exec.{
  ExecPlan, Caches, plan, from_cwd, script_argv, check_loader, loader_argv, first_or, loader_plan,
}
use vhdp.Exec.Plan.{IsPlan, absolute}
use vhdp.Exec.Plan.Rounds.{plan-IsPlan}
use vhdp.Exec.Plan.Arguments.{EndsWith, plan-EndsWith}
use vhdp.Exec.Defined.{Defined}
use vhdp.Exec.Defined.Rounds.{plan-Defined}
use vhdp.Tests.Kernel.{table, table_canonical, options}

-- A number of 8 bytes below 256.
abbrev word : ℕ → Bytes
word n = n ∷ 0 ∷ 0 ∷ 0 ∷ 0 ∷ 0 ∷ 0 ∷ 0 ∷ []

-- An x86-64 executable with one program header behind it.
abbrev elf_header : Bytes
elf_header =
    0x7F ∷ codes "ELF"
    ++ (2 ∷ 1 ∷ 1 ∷ 0 ∷ word 0)
    ++ (2 ∷ 0 ∷ 62 ∷ 0 ∷ 1 ∷ 0 ∷ 0 ∷ 0 ∷ [])
    ++ word 0
    ++ word 64
    ++ word 0
    ++ (0 ∷ 0 ∷ 0 ∷ 0 ∷ 64 ∷ 0 ∷ 56 ∷ 0 ∷ 1 ∷ 0 ∷ 0 ∷ 0 ∷ 0 ∷ 0 ∷ 0 ∷ 0 ∷ [])

-- A program header of some type, with the interpreter's name behind it.
abbrev program_header : ℕ → Bytes
program_header kind =
    (kind ∷ 0 ∷ 0 ∷ 0 ∷ 0 ∷ 0 ∷ 0 ∷ 0 ∷ word 120) ++ word 0 ++ word 0 ++ word 4 ++ word 4 ++ word 0

abbrev dynamic_elf : Bytes
dynamic_elf = elf_header ++ program_header 3 ++ codes "/ld" ++ 0 ∷ []

abbrev static_elf : Bytes
static_elf = elf_header ++ program_header 1

abbrev info : Info
info = record Elf.zeroed {
  elf_class = 64;
  machine = 62;
  elf_type = 2;
  phoff = 64;
  phentsize = 56;
  phnum = 1;
}

parse_header-Reads_example : Reads (parse_header (take 60 dynamic_elf) 124)
parse_header-Reads_example = parse_header-Reads (take 60 dynamic_elf) 124

scan_phdrs-Fits_example : Scanned 124 56 (scan_phdrs (program_header 3) 124 info)
unfolding parse_header starts_with rd16 rd32 rd64 check_table range_ok
scan_phdrs-Fits_example = scan_phdrs-Fits dynamic_elf 124 info (program_header 3) refl refl

abbrev script_text : Bytes
script_text = codes "#!/prog -x y" ++ 10 ∷ codes "echo"

abbrev content : Bytes → Bytes
content path =
    if eq_bytes path (codes "/srv/run")
    then script_text
    else if eq_bytes path (codes "/srv/prog")
    then dynamic_elf
    else if eq_bytes path (codes "/srv/ld")
    then static_elf
    else []

-- A file that is read in two calls, the first one interrupted.
abbrev file : Bytes → File
file s = record {
  fstat = ok (record { regular = true; size = length s });
  pread = λ off len. interrupted ∷ bytes (take len (drop off s)) ∷ [];
  read = interrupted ∷ bytes s ∷ [];
}

abbrev kernel : Host
kernel = record {
  lstat = λ p.
      if is_empty (content p)
      then err enoent
      else ok (record { file_kind = other; dev = 1; ino = 2 });
  readlink = λ _. err einval;
}

abbrev system : System
system = record {
  host = kernel;
  access = λ _. none;
  noexec = λ _. false;
  open_file = λ p. ok (file (content p));
  stat = λ _. err enoent;
  architecture = Elf.x86_64;
}

abbrev caches : Caches
caches = record { dirs = []; argv0 = [] }

abbrev planned : ExecPlan
planned = record {
  host_exec = codes "/srv/ld";
  argv = codes "/prog" ∷ codes "/prog" ∷ codes "-x y" ∷ codes "/run" ∷ codes "more" ∷ [];
  guest_program = codes "/prog";
  guest_loader = codes "/ld";
  program_argv = codes "/prog" ∷ codes "-x y" ∷ codes "/run" ∷ codes "more" ∷ [];
  via_loader = true;
  loader_argv0 = false;
  shebang_depth = 1;
}

run_planned :
    (plan system table
      (codes "/run")
      (codes "run" ∷ codes "more" ∷ [])
      (codes "/")
      options
      caches).0
    ≡ done planned
unfolding plan resolve is_absolute resolve_components loop start components eq_bytes look to_host
    suffix_after is_below build trailing ends_in_slash finish examine refuse allowed asked defined
    open_program pread_full parse_shebang starts_with take_while drop_while trim_end shebang_arg
    longest mount_for_guest pick append_suffix concat_slashed emit scan after_error after_lstat
    after_reply cached_prefix is_object object_id only_dots see_through visit any_dotdot from_cwd
    join script_argv parse_header rd16 rd32 rd64 check_table range_ok scan_phdrs Elf.scan scan_phdr
    read_interp store_interp validate_interp has_byte check_header read_phdrs read_loader
    check_loader loader_supports_argv0 loader_argv first_or loader_plan
run_planned = refl

plan-IsPlan_example :
    Holds
      (IsPlan system table options (codes "/") 0 (codes "/run") (codes "run" ∷ codes "more" ∷ []))
      (plan system table
        (codes "/run")
        (codes "run" ∷ codes "more" ∷ [])
        (codes "/")
        options
        caches).0
unfolding is_absolute
plan-IsPlan_example =
    plan-IsPlan system table options (codes "/") table_canonical (codes "/run")
      (codes "run" ∷ codes "more" ∷ []) caches (absolute refl)

plan-EndsWith_example :
    EndsWith planned.argv (codes "more" ∷ []) × EndsWith planned.program_argv (codes "more" ∷ [])
plan-EndsWith_example =
    plan-EndsWith system table options (codes "/") (codes "/run") (codes "run") (codes "more" ∷ [])
      caches table_canonical run_planned

plan-Defined_example :
    Defined
      (plan system table
        (codes "/run")
        (codes "run" ∷ codes "more" ∷ [])
        (codes "/")
        options
        caches).0
plan-Defined_example =
    plan-Defined system table (codes "/run") (codes "run" ∷ codes "more" ∷ []) (codes "/") options
      caches

parse_shebang-line_example :
    parse_shebang (
      script_line
        (b' ' ∷ [])
        (codes "/bin/sh")
        (9 ∷ b' ' ∷ [])
        (codes "-e -x")
        (13 ∷ [])
        (codes "exit"))
    ≡ some (codes "/bin/sh", some (codes "-e -x"))
parse_shebang-line_example =
    parse_shebang-line (b' ' ∷ []) (codes "/bin/sh") (b' ' ∷ []) (codes "-e -x") (13 ∷ [])
      (codes "exit") 9 (unfold all in refl)
      (record { not_empty = refl; one_word = unfold all in refl; one_line = unfold all in refl })
      refl (unfold all in refl)
      (record {
        first = b'-';
        others = codes "e -x";
        starts = refl;
        no_blank = refl;
        last = b'x';
        ends = refl;
        not_trimmed = refl;
        no_nul = unfold all in refl;
        one_line = unfold all in refl;
      })
      (unfold all in refl)

-- A loader that is read in two pieces that cut the needle.
scan_loader-has_infix_example :
    scan_loader [] 0 (bytes (codes "x--ar") ∷ interrupted ∷ bytes (codes "gv0y") ∷ [])
    ≡ has_infix (codes "--argv0") (codes "x--ar" ++ (codes "gv0y" ++ []))
scan_loader-has_infix_example =
    scan_loader-has_infix (codes "x--ar" ++ (codes "gv0y" ++ []))
      (piece (codes "x--ar") refl (again (piece (codes "gv0y") refl end_of_file))) (omega arith)

-- ===== src/Exec/Examine.antt =====
-- What `plan` of engines/rootless/exec_resolver.cpp finds out about one program, from its permission
-- to run up to the interpreter that its ELF file names.
use vhdp.Base.{
  ℕ, Bool, true, false, ◌&&◌, ◌||◌, not, [], ◌++◌, Option, some, none, Bytes, codes, if◌then◌else◌,
  length, ltb, ◌==◌, take, ◌*◌,
}
use vhdp.Elf.{
  host_machine, Status, Info, parse_header, scan_phdrs, validate_interp, machine_name, error_name,
  is_ok, is_not_elf, is_truncated,
}
use vhdp.Resolver.{Resolved}
use vhdp.Resolver.Kernel.{Reply, ok, err, enoent, eacces}
use vhdp.Exec.Calls.{File, System, pread_full}
use vhdp.Exec.Shebang.{parse_shebang, take_while, is_not_nul}

-- `ENOEXEC`
abbrev pub enoexec : ℕ
enoexec = 8

-- `ExecDiag`
pub record Diag : Type 0 where
  pub name : Bytes
  pub message : Bytes

-- A step of `plan`: its result, the errno that is returned and the diagnosis if one is written, or a
-- read outside a buffer.
pub data Try {ℓ} (A : Type ℓ) : Type ℓ where
  done : A → Try A
  fail : ℕ → Option Diag → Try A
  undefined : Try A

infixl 5 ◌>>=◌
abbrev pub ◌>>=◌ {ℓ κ} : {A : Type ℓ} {B : Type κ} → Try A → (A → Try B) → Try B
done a >>= f = f a
fail e d >>= f = fail e d
undefined >>= f = undefined

-- `if (n < 0) return errno;`
unfoldable pub asked {ℓ} : {A : Type ℓ} → Reply A → Try A
asked (ok a) = done a
asked (err e) = fail e none

-- `if (test) return e;`
unfoldable pub refuse {ℓ} : {A : Type ℓ} → Bool → ℕ → Option Diag → Try A → Try A
refuse true e d go = fail e d
refuse false e d go = go

-- `if (access(...) != 0) return errno;`
unfoldable pub allowed {ℓ} : {A : Type ℓ} → Option ℕ → Try A → Try A
allowed none go = go
allowed (some e) go = fail e none

abbrev pub diagnosis : Bytes → Bytes → Option Diag
diagnosis n m = some (record { name = n; message = m })

-- The file of a program that may run, with its size.
unfoldable pub open_program : System → Resolved → Try (File × ℕ)
open_program s r = refuse (not r.exists) enoent none (
    refuse r.is_dir eacces none (
      allowed (s.access r.host) (
        refuse (s.noexec r.host) eacces
          (diagnosis (codes "exec.noexec_mount")
            (codes "program is on a noexec mount: " ++ r.guest))
          (do
            f ← asked (s.open_file r.host)
            st ← asked f.fstat
            refuse (not st.regular) eacces none (done (f, st.size))))))

-- What a program is: a script, with its interpreter and its argument, a program without an
-- interpreter, or one with the path of its dynamic loader.
pub data Program : Type 0 where
  script : Bytes → Option Bytes → Program
  static_program : Program
  dynamic_program : Bytes → Program

abbrev pub malformed : Bytes → Option Diag
malformed message = diagnosis (codes "exec.bad_elf") message

unfoldable pub abi_message : Bytes → Info → ℕ → Bytes
unfolding machine_name
abi_message guest i host_machine =
    codes "ABI mismatch: "
    ++ guest
    ++ codes " is "
    ++ machine_name i.machine
    ++ (if i.elf_class == 32 then codes " (32-bit)" else [])
    ++ codes ", host engine runs "
    ++ machine_name host_machine
    ++ codes " guests only; cross-architecture execution needs an emulator backend"

-- A header that has been read, in `got` bytes, is one that this host can run.
unfoldable pub check_header : ℕ → Bytes → ℕ → Status × Info → Try Info
unfolding abi_message error_name
check_header host_machine guest got (status, i) =
    refuse (is_not_elf status || (is_truncated status && ltb got 4)) enoexec
      (diagnosis (codes "exec.format") (codes "not an ELF executable or #! script: " ++ guest))
      (refuse (not (i.machine == 0) && (not (i.machine == host_machine) || i.elf_class == 32))
        enoexec (diagnosis (codes "exec.abi_mismatch") (abi_message guest i host_machine))
        (refuse (not (is_ok status)) enoexec
          (malformed (codes "malformed ELF (" ++ error_name status ++ codes "): " ++ guest))
          (done i)))

-- A read that stays in its buffer.
unfoldable pub defined {ℓ} : {A : Type ℓ} → Option A → Try A
defined (some a) = done a
defined none = undefined

-- The program headers are read and scanned.
unfoldable pub read_phdrs : File → ℕ → Bytes → Info → Try Info
read_phdrs f size guest i =
    let table = i.phnum * i.phentsize in
    let bad : Option Diag = malformed (codes "malformed ELF program headers: " ++ guest) in
    do
      got ← asked (pread_full table [] (f.pread i.phoff table))
      refuse (not (length got == table)) enoexec bad (do
        scanned ← defined (scan_phdrs got size i)
        refuse (not (is_ok scanned.0)) enoexec bad (done scanned.1))

-- The path of the interpreter is read and validated; it ends at its NUL.
unfoldable pub read_loader : File → Bytes → Info → Try Bytes
unfolding take_while
read_loader f guest i =
    let bad : Option Diag = malformed (codes "malformed PT_INTERP in " ++ guest) in
    do
      got ← asked (pread_full i.interp_size [] (f.pread i.interp_offset i.interp_size))
      refuse (not (length got == i.interp_size)) enoexec bad (do
        status ← defined (validate_interp got)
        refuse (not (is_ok status)) enoexec bad (done (take_while is_not_nul got)))

-- `head` and what it is read into; `kShebangMax` bytes of it count for a script.
abbrev pub head_size : ℕ
head_size = 512

abbrev pub shebang_max : ℕ
shebang_max = 256

-- An ELF file whose first bytes are `head`.
unfoldable pub examine_elf : ℕ → Bytes → File → ℕ → Bytes → Try Program
unfolding check_header read_phdrs read_loader
examine_elf host_machine guest f size head = do
  header ← defined (parse_header head size)
  i ← check_header host_machine guest (length head) header
  i' ← read_phdrs f size guest i
  if i'.has_interp
      then (do loader ← read_loader f guest i'; done (dynamic_program loader))
      else done static_program

unfoldable pub examine : System → Resolved → Try Program
unfolding open_program examine_elf
examine s r = do
  (f, size) ← open_program s r
  head ← asked (pread_full head_size [] (f.pread 0 head_size))
  elim (parse_shebang (take shebang_max head)) [
    | some (interp, arg) ↦ done (script interp arg)
    | none ↦ examine_elf (host_machine s.architecture) r.guest f size head
  ]

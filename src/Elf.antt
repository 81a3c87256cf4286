-- ===== src/Elf.antt =====
-- linux_abi/elf.h and elf.c: the decoder of ELF headers. A buffer is the list of its bytes and `len`
-- its length. A read answers `none` outside the buffer, where the C code's behaviour is undefined,
-- and so does each function that reads. The `uint64_t` product and sums do not wrap: a header's
-- counts have 16 bits, and `range_ok` subtracts. No caller passes a null pointer.
pub mod Bounds
pub mod Interp
pub mod Header
use vhdp.Base.{
  ◌>>=◌, ℕ, zero, suc, ◌+◌, ◌-◌, ◌*◌, Bool, true, false, not, ◌&&◌, ◌||◌, List, [], ◌∷◌, Option,
  some, none, String, Bytes, codes, has_byte, starts_with, if◌then◌else◌, length, get_elem?, take,
  drop, ltb, leb, ◌==◌,
}

-- The results, `VHDP_ELF_OK` and the errors.
pub data Status : Type 0 where
  ok truncated not_elf unsupported_class unsupported_encoding : Status
  bad_version bad_type bad_phdr bad_interp : Status

-- `vhdp_elf_info`
pub record Info : Type 0 where
  pub elf_class : ℕ
  pub machine : ℕ
  pub elf_type : ℕ
  pub osabi : ℕ
  pub entry : ℕ
  pub phoff : ℕ
  pub phentsize : ℕ
  pub phnum : ℕ
  pub has_interp : Bool
  pub interp_offset : ℕ
  pub interp_size : ℕ

abbrev pub zeroed : Info
zeroed = record {
  elf_class = 0;
  machine = 0;
  elf_type = 0;
  osabi = 0;
  entry = 0;
  phoff = 0;
  phentsize = 0;
  phnum = 0;
  has_interp = false;
  interp_offset = 0;
  interp_size = 0;
}

-- `VHDP_ELF_MAX_PHDR_BYTES`
abbrev pub max_phdr_bytes : ℕ
max_phdr_bytes = 65536

-- `VHDP_ELF_MAX_INTERP`
abbrev pub max_interp : ℕ
max_interp = 4096

-- `ELF64_EHDR_SIZE`, `ELF32_EHDR_SIZE` and `ELF64_PHDR_SIZE`
abbrev pub ehdr_size : ℕ
ehdr_size = 64

abbrev pub ehdr32_size : ℕ
ehdr32_size = 52

abbrev pub phdr_size : ℕ
phdr_size = 56

-- "\177ELF"
abbrev pub elf_magic : Bytes
elf_magic = 0x7F ∷ codes "ELF"

unfoldable pub rd16 : Bytes → ℕ → Option ℕ
rd16 b i = do x ← get_elem? b i; y ← get_elem? b (i + 1); some (x + y * 256)

unfoldable pub rd32 : Bytes → ℕ → Option ℕ
rd32 b i = do x ← rd16 b i; y ← rd16 b (i + 2); some (x + y * 65536)

unfoldable pub rd64 : Bytes → ℕ → Option ℕ
rd64 b i = do x ← rd32 b i; y ← rd32 b (i + 4); some (x + y * 4294967296)

unfoldable pub range_ok : ℕ → ℕ → ℕ → Bool
range_ok a b limit = leb a limit && leb b (limit - a)

-- What `parse_header` does with the table's numbers.
unfoldable pub check_table : ℕ → ℕ → Info → Status
check_table ehsize file_size i =
    let table = i.phnum * i.phentsize in
    if ltb ehsize ehdr_size
    then bad_version
    else if i.phnum == 0
    then bad_phdr
    else if i.phnum == 0xFFFF || ltb i.phentsize phdr_size
    then bad_phdr
    else if ltb max_phdr_bytes table || not (range_ok i.phoff table file_size)
    then bad_phdr
    else ok

-- The fields behind the type, and the table.
unfoldable pub read_table : Bytes → ℕ → Info → Option (Status × Info)
read_table buf file_size i = do
  entry ← rd64 buf 24
  phoff ← rd64 buf 32
  ehsize ← rd16 buf 52
  phentsize ← rd16 buf 54
  phnum ← rd16 buf 56
  let i' = record i { entry = entry; phoff = phoff; phentsize = phentsize; phnum = phnum }
  some (check_table ehsize file_size i', i')

-- A header of the class ELF64 that is long enough.
unfoldable pub read_class64 : Bytes → ℕ → Info → Option (Status × Info)
unfolding read_table
read_class64 buf file_size i = do
  ident_version ← get_elem? buf 6
  version ← rd32 buf 20
  if not (ident_version == 1) || not (version == 1)
      then some (bad_version, i)
      else if not (i.elf_type == 2) && not (i.elf_type == 3)
      then some (bad_type, i)
      else read_table buf file_size i

-- What follows the class, when the encoding is the one supported.
unfoldable pub read_class : Bytes → ℕ → ℕ → Info → Option (Status × Info)
unfolding read_class64
read_class buf file_size cls i =
    let i64 : Info = record i { elf_class = 64 } in
    if cls == 1
    then some (
      if ltb (length buf) ehdr32_size then truncated else unsupported_class,
      record i { elf_class = 32 },
    )
    else if not (cls == 2)
    then some (not_elf, i)
    else if ltb (length buf) ehdr_size
    then some (truncated, i64)
    else read_class64 buf file_size i64

-- The identification, in a buffer of 20 bytes or more that starts with the magic number.
unfoldable pub read_ident : Bytes → ℕ → Option (Status × Info)
unfolding read_class
read_ident buf file_size = do
  cls ← get_elem? buf 4
  encoding ← get_elem? buf 5
  osabi ← get_elem? buf 7
  elf_type ← rd16 buf 16
  machine ← rd16 buf 18
  if not (encoding == 1)
      then some (unsupported_encoding, record zeroed { osabi = osabi })
      else read_class buf file_size cls
          (record zeroed { osabi = osabi; elf_type = elf_type; machine = machine })

-- `vhdp_elf_parse_header`, with the `out` that it leaves.
unfoldable pub parse_header : Bytes → ℕ → Option (Status × Info)
unfolding read_ident
parse_header buf file_size =
    if ltb (length buf) 20
    then some (
      if leb 4 (length buf) && not (starts_with elf_magic buf) then not_elf else truncated,
      zeroed,
    )
    else if not (starts_with elf_magic buf)
    then some (not_elf, zeroed)
    else read_ident buf file_size

-- The segment of a header of the type PT_INTERP, checked and stored.
unfoldable pub store_interp : ℕ → ℕ → ℕ → Info → Status × Info
store_interp file_size off filesz i =
    if ltb filesz 2 || ltb max_interp filesz || not (range_ok off filesz file_size)
    then (bad_interp, i)
    else (ok, record i { has_interp = true; interp_offset = off; interp_size = filesz })

-- A header of that type, at the offset `at`.
unfoldable pub read_interp : Bytes → ℕ → ℕ → Info → Option (Status × Info)
unfolding store_interp
read_interp phdrs file_size at i = do
  off ← rd64 phdrs (at + 8)
  filesz ← rd64 phdrs (at + 32)
  some (store_interp file_size off filesz i)

-- One round of the loop of `vhdp_elf_scan_phdrs`, for the header at `at`: `ok` where it goes on.
unfoldable pub scan_phdr : Bytes → ℕ → ℕ → Info → Option (Status × Info)
unfolding read_interp
scan_phdr phdrs file_size at i = do
  p_type ← rd32 phdrs at
  if not (p_type == 3)
      then some (ok, i)
      else if i.has_interp
      then some (bad_interp, i)
      else read_interp phdrs file_size at i

-- The loop from the header at `at` on; the number counts the headers left.
unfoldable pub scan : Bytes → ℕ → ℕ → ℕ → Info → Option (Status × Info)
unfolding scan_phdr
scan phdrs file_size zero at i = some (ok, i)
scan phdrs file_size (suc n) at i = do
  (status, i') ← scan_phdr phdrs file_size at i
  elim status [ ok ↦ scan phdrs file_size n (at + i.phentsize) i' | other ↦ some (other, i') ]

-- `vhdp_elf_scan_phdrs`, with the `info` that it leaves.
unfoldable pub scan_phdrs : Bytes → ℕ → Info → Option (Status × Info)
unfolding scan
scan_phdrs phdrs file_size i =
    let table = i.phnum * i.phentsize in
    if not (i.elf_class == 64)
    then some (bad_phdr, i)
    else if ltb (length phdrs) table || ltb max_phdr_bytes table
    then some (truncated, i)
    else scan phdrs file_size i.phnum 0
        (record i { has_interp = false; interp_offset = 0; interp_size = 0 })

-- `vhdp_elf_validate_interp`
unfoldable pub validate_interp : Bytes → Option Status
validate_interp s = if ltb (length s) 2 || ltb max_interp (length s) then some bad_interp else do
  end ← get_elem? s (length s - 1)
  first ← get_elem? s 0
  if not (end == 0) || not (first == b'/')
      then some bad_interp
      else some (if has_byte 0 (take (length s - 1) s) then bad_interp else ok)

-- `vhdp_elf_machine_name`
unfoldable pub machine_name : ℕ → Bytes
machine_name machine =
    if machine == 62
    then codes "x86_64"
    else if machine == 183
    then codes "aarch64"
    else if machine == 40
    then codes "arm"
    else if machine == 3
    then codes "i386"
    else if machine == 243
    then codes "riscv64"
    else codes "unknown"

-- The architecture that the library is compiled for, and its `vhdp_elf_host_machine`.
pub data Architecture : Type 0 where
  x86_64 aarch64 other_architecture : Architecture

abbrev pub host_machine : Architecture → ℕ
host_machine x86_64 = 62
host_machine aarch64 = 183
host_machine other_architecture = 0

-- `vhdp_elf_error_name`; every status has a name here.
unfoldable pub error_name : Status → Bytes
error_name ok = codes "ok"
error_name truncated = codes "truncated"
error_name not_elf = codes "not-elf"
error_name unsupported_class = codes "unsupported-class"
error_name unsupported_encoding = codes "unsupported-encoding"
error_name bad_version = codes "bad-version"
error_name bad_type = codes "bad-type"
error_name bad_phdr = codes "bad-phdr"
error_name bad_interp = codes "bad-interp"

-- `== VHDP_ELF_OK`, `== VHDP_ELF_E_NOT_ELF` and `== VHDP_ELF_E_TRUNCATED`
abbrev pub is_ok : Status → Bool
is_ok ok = true
is_ok _ = false

abbrev pub is_not_elf : Status → Bool
is_not_elf not_elf = true
is_not_elf _ = false

abbrev pub is_truncated : Status → Bool
is_truncated truncated = true
is_truncated _ = false

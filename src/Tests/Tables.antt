-- ===== src/Tests/Tables.antt =====
-- A table in which two system calls have one number, and the name of an errno.
use vhdp.Base.{ℕ, List, [], ◌∷◌, some, Bytes, codes, ◌≡◌, refl}
use vhdp.Base.Int.{pos}
use vhdp.Errno.{errno_name}
use vhdp.Syscalls.{SyscallInfo, SyscallClass, emulated, denied, lookup_syscall}
use vhdp.Syscalls.Index.{last_with, lookup_syscall-last_with}

abbrev info : ℕ → Bytes → SyscallClass → SyscallInfo ℕ
info nr name class = record { nr = nr; name = name; class = class; handler = 0 }

abbrev table : List (SyscallInfo ℕ)
table =
    info 102 (codes "getuid") emulated
    ∷ info 41 (codes "socket") denied
    ∷ info 102 (codes "getuid32") emulated
    ∷ []

lookup_syscall-last_with_example : lookup_syscall table (pos 102) ≡ last_with 102 table
lookup_syscall-last_with_example = lookup_syscall-last_with table (pos 102)

last_getuid : last_with 102 table ≡ some (info 102 (codes "getuid32") emulated)
unfolding last_with
last_getuid = refl

name_of_busy : errno_name 16 ≡ codes "EBUSY"
unfolding errno_name
name_of_busy = refl

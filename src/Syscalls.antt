-- ===== src/Syscalls.antt =====
-- linux_abi/syscall_table.hpp and .cpp: the table of system calls. Its entries come from
-- linux_abi/syscalls.def with the numbers of <asm/unistd.h>: the table is an argument of the functions.
-- It has fewer than 2^15 entries, so that an index fits into the array's numbers. `H` is the type of
-- the handlers.
pub mod Index
pub mod Handlers
use vhdp.Base.{
  ℕ, zero, suc, Bool, List, [], ◌∷◌, Option, some, none, Bytes, codes, if◌then◌else◌, get_elem?,
  ltb, leb, ◌==◌, eq_bytes,
}
use vhdp.Base.Int.{ℤ, pos, negsuc}

pub data SyscallClass : Type 0 where
  pass_through translated emulated denied unsupported : SyscallClass

pub record SyscallInfo (H : Type 0) : Type 0 where
  pub nr : ℕ
  pub name : Bytes
  pub class : SyscallClass
  pub handler : H

-- `kMaxNr`
abbrev pub max_nr : ℕ
max_nr = 1024

-- An array of that many elements, and one with an element changed; the index is in range.
unfoldable pub filled : {A : Type 0} → ℕ → A → List A
filled zero a = []
filled (suc n) a = a ∷ filled n a

unfoldable pub set_at : {A : Type 0} → List A → ℕ → A → List A
set_at [] i a = []
set_at (x ∷ xs) zero a = a ∷ xs
set_at (x ∷ xs) (suc i) a = x ∷ set_at xs i a

module _ {H : Type 0} where
  -- The loop of `build_index` from the entry with the number `i` on; -1 is `none`.
  unfoldable pub index_from : ℕ → List (SyscallInfo H) → List (Option ℕ) → List (Option ℕ)
  unfolding set_at
  index_from i [] idx = idx
  index_from i (e ∷ table) idx =
      index_from (suc i) table (if ltb e.nr max_nr then set_at idx e.nr (some i) else idx)

  unfoldable pub build_index : List (SyscallInfo H) → List (Option ℕ)
  unfolding index_from filled
  build_index table = index_from 0 table (filled max_nr none)

  unfoldable pub lookup_syscall : List (SyscallInfo H) → ℤ → Option (SyscallInfo H)
  unfolding build_index
  lookup_syscall table (negsuc _) = none
  lookup_syscall table (pos n) =
      if leb max_nr n then none else elim (get_elem? (build_index table) n) [
        | none ↦ none
        | some none ↦ none
        | some (some i) ↦ get_elem? table i
      ]

  -- `lookup_nr`, with -1 as in the source.
  unfoldable pub lookup_nr : List (SyscallInfo H) → Bytes → ℤ
  unfolding eq_bytes
  lookup_nr [] wanted = negsuc 0
  lookup_nr (e ∷ table) wanted =
      let rest = lookup_nr table wanted in if eq_bytes wanted e.name then pos e.nr else rest

unfoldable pub class_name : SyscallClass → Bytes
class_name pass_through = codes "pass-through"
class_name translated = codes "translated"
class_name emulated = codes "emulated"
class_name denied = codes "denied"
class_name unsupported = codes "unsupported"

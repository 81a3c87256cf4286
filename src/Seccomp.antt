-- ===== src/Seccomp.antt =====
-- engines/rootless/seccomp_filter.hpp and .cpp: the policy, the classic-BPF program built from it
-- (`build_seccomp_filter`) and the reference interpreter (`evaluate_seccomp_filter`). The numeric
-- constants are those of <linux/filter.h>, <linux/seccomp.h>, <sys/socket.h> and <errno.h>.
mod Exec
mod Ranges
pub mod Correct
use vhdp.Base.{
  ℕ, zero, suc, ◌+◌, ◌*◌, ◌/◌, ◌%◌, ◌^◌, Bool, true, false, not, ◌&&◌, List, [], ◌∷◌, ◌++◌, some,
  Option, none, leb, ltb, ◌==◌, if◌then◌else◌, length, get_elem?, drop, Bytes,
}
use vhdp.Base.Int.{ℤ, pos, negsuc, leb_ℤ, eq_ℤ, to_u32}
use Prim.Native.Nat.{bit_and}

-- `sock_filter`
pub record Insn : Type 0 where
  pub opcode : ℕ
  pub jt : ℕ
  pub jf : ℕ
  pub k : ℕ

-- BPF_LD | BPF_W | BPF_ABS, BPF_JMP | BPF_J.. | BPF_K, BPF_RET | BPF_K
abbrev pub op_ld : ℕ
op_ld = 0x20

abbrev pub op_jeq : ℕ
op_jeq = 0x15

abbrev pub op_jgt : ℕ
op_jgt = 0x25

abbrev pub op_jge : ℕ
op_jge = 0x35

abbrev pub op_jset : ℕ
op_jset = 0x45

abbrev pub op_ret : ℕ
op_ret = 0x06

abbrev pub off_nr : ℕ
off_nr = 0

abbrev pub off_arch : ℕ
off_arch = 4

abbrev pub off_args : ℕ
off_args = 16

abbrev pub x32_bit : ℕ
x32_bit = 0x40000000

abbrev pub clone_untraced : ℕ
clone_untraced = 0x00800000

abbrev pub ret_allow : ℕ
ret_allow = 0x7fff0000

-- SECCOMP_RET_TRACE | kSeccompTraceMarker
abbrev pub trace_action : ℕ
trace_action = 0x7ff07648

-- SECCOMP_RET_ERRNO | EACCES
abbrev pub ret_eacces : ℕ
ret_eacces = 0x0005000d

abbrev pub af_unix : ℕ
af_unix = 1

abbrev pub stmt : ℕ → ℕ → Insn
stmt code k = record { opcode = code; jt = 0; jf = 0; k = k }

abbrev pub jump : ℕ → ℕ → ℕ → ℕ → Insn
jump code k jt jf = record { opcode = code; jt = jt; jf = jf; k = k }

-- `FilterPolicy`
pub record Policy : Type 0 where
  pub audit_arch : ℕ
  pub check_x32 : Bool
  pub allow : List ℤ
  pub network_none : Bool
  pub nr_socket : ℤ
  pub nr_clone : ℤ
  pub nr_sendto : ℤ

abbrev pub nonneg : ℤ → Bool
nonneg (pos _) = true
nonneg (negsuc _) = false

-- `std::sort` and `std::unique` with `erase`
unfoldable pub insert_sorted : ℤ → List ℤ → List ℤ
insert_sorted x [] = x ∷ []
insert_sorted x (y ∷ ys) = if leb_ℤ x y then x ∷ y ∷ ys else y ∷ insert_sorted x ys

unfoldable pub sort : List ℤ → List ℤ
unfolding insert_sorted
sort [] = []
sort (x ∷ xs) = insert_sorted x (sort xs)

unfoldable pub unique : List ℤ → List ℤ
unique [] = []
unique (x ∷ []) = x ∷ []
unique (x ∷ y ∷ ys) = let rest = unique (y ∷ ys) in if eq_ℤ x y then rest else x ∷ rest

-- A range that is being extended, if any, in front of the ranges that follow.
abbrev pub close : Option (ℕ × ℕ) → List (ℕ × ℕ) → List (ℕ × ℕ)
close none rs = rs
close (some r) rs = r ∷ rs

-- The loop over `nrs`: the ranges [lo, hi] of consecutive numbers, negative numbers skipped. The
-- first argument is the range that the inner loop is extending.
unfoldable pub runs : Option (ℕ × ℕ) → List ℤ → List (ℕ × ℕ)
runs range [] = close range []
runs range (negsuc n ∷ xs) = close range (runs none xs)
runs none (pos x ∷ xs) = runs (some (x, x)) xs
runs (some (lo, hi)) (pos x ∷ xs) =
    let next = x == hi + 1 in
    let rest = runs (some (if next then lo else x, x)) xs in if next then rest else (lo, hi) ∷ rest

-- What the loop pushes for one range, and for all of them.
abbrev pub allow_range : ℕ → ℕ → List Insn → List Insn
allow_range lo hi rest =
    jump op_jge (lo % 2 ^ 32) 0 2 ∷ jump op_jgt (hi % 2 ^ 32) 1 0 ∷ stmt op_ret ret_allow ∷ rest

unfoldable pub allow_ranges : List (ℕ × ℕ) → List Insn → List Insn
allow_ranges [] rest = rest
allow_ranges ((lo, hi) ∷ rs) rest = allow_range lo hi (allow_ranges rs rest)

-- The optional blocks of the program, each in front of what is pushed after it.
unfoldable pub x32_block : Policy → List Insn → List Insn
x32_block p rest =
    if p.check_x32 then jump op_jge x32_bit 0 1 ∷ stmt op_ret trace_action ∷ rest else rest

unfoldable pub socket_block : Policy → List Insn → List Insn
socket_block p rest =
    if p.network_none && nonneg p.nr_socket
    then jump op_jeq (to_u32 p.nr_socket) 0 4
      ∷ stmt op_ld off_args
      ∷ jump op_jeq af_unix 0 1
      ∷ stmt op_ret ret_allow
      ∷ stmt op_ret ret_eacces
      ∷ rest
    else rest

unfoldable pub clone_block : Policy → List Insn → List Insn
clone_block p rest =
    if nonneg p.nr_clone
    then jump op_jeq (to_u32 p.nr_clone) 0 4
      ∷ stmt op_ld off_args
      ∷ jump op_jset clone_untraced 0 1
      ∷ stmt op_ret trace_action
      ∷ stmt op_ret ret_allow
      ∷ rest
    else rest

unfoldable pub sendto_block : Policy → List Insn → List Insn
sendto_block p rest =
    if nonneg p.nr_sendto
    then jump op_jeq (to_u32 p.nr_sendto) 0 6
      ∷ stmt op_ld (off_args + 4 * 8)
      ∷ jump op_jeq 0 0 3
      ∷ stmt op_ld (off_args + 4 * 8 + 4)
      ∷ jump op_jeq 0 0 1
      ∷ stmt op_ret ret_allow
      ∷ stmt op_ret trace_action
      ∷ rest
    else rest

unfoldable pub build_seccomp_filter : Policy → List Insn
unfolding sort unique runs allow_ranges x32_block socket_block clone_block sendto_block
build_seccomp_filter p =
    stmt op_ld off_arch
    ∷ jump op_jeq p.audit_arch 1 0
    ∷ stmt op_ret trace_action
    ∷ stmt op_ld off_nr
    ∷ x32_block p (
        socket_block p (
          clone_block p (
            sendto_block p
              (allow_ranges (runs none (unique (sort p.allow))) (stmt op_ret trace_action ∷ [])))))

-- `FilterInput`
pub record Input : Type 0 where
  pub nr : ℤ
  pub arch : ℕ
  pub arg0 : ℕ
  pub arg1 : ℕ
  pub arg2 : ℕ
  pub arg3 : ℕ
  pub arg4 : ℕ
  pub arg5 : ℕ

-- The four bytes that `put32` stores.
abbrev pub put32 : ℕ → Bytes → Bytes
put32 v rest = v % 256 ∷ v / 256 % 256 ∷ v / 65536 % 256 ∷ v / 16777216 % 256 ∷ rest

abbrev pub put64 : ℕ → Bytes → Bytes
put64 v rest = put32 (v % 2 ^ 32) (put32 (v / 2 ^ 32) rest)

-- `data`, the 64 bytes of the `seccomp_data`; bytes 8 to 15 stay zero.
abbrev pub seccomp_data : Input → Bytes
seccomp_data i = put32 (to_u32 i.nr) (
    put32 i.arch (
      0
      ∷ 0
      ∷ 0
      ∷ 0
      ∷ 0
      ∷ 0
      ∷ 0
      ∷ 0
      ∷ put64 i.arg0 (put64 i.arg1 (put64 i.arg2 (put64 i.arg3 (put64 i.arg4 (put64 i.arg5 [])))))))

-- The four bytes at the front as a little-endian number: the bytes are disjoint, so `|` is `+`.
abbrev pub get32 : Bytes → ℕ
get32 (b0 ∷ b1 ∷ b2 ∷ b3 ∷ _) = b0 + b1 * 256 + b2 * 65536 + b3 * 16777216
get32 _ = 0

-- What one instruction does: the program returns, or goes on `n` instructions past the next.
pub data Outcome : Type 0 where
  returns : ℕ → Outcome
  goes : ℕ → ℕ → Outcome

unfoldable pub step : Bytes → Insn → ℕ → Outcome
step mem ins acc =
    if ins.opcode == op_ld
    then (if ltb 60 ins.k then returns 0 else goes 0 (get32 (drop ins.k mem)))
    else if ins.opcode == op_jeq
    then goes (if acc == ins.k then ins.jt else ins.jf) acc
    else if ins.opcode == op_jge
    then goes (if leb ins.k acc then ins.jt else ins.jf) acc
    else if ins.opcode == op_jgt
    then goes (if ltb ins.k acc then ins.jt else ins.jf) acc
    else if ins.opcode == op_jset
    then goes (if not (bit_and acc ins.k == 0) then ins.jt else ins.jf) acc
    else if ins.opcode == op_ret
    then returns ins.k
    else returns 0

-- The loop, with the steps that its counter leaves, the program counter and the accumulator.
unfoldable pub run : Bytes → List Insn → ℕ → ℕ → ℕ → ℕ
run mem prog zero pc acc = 0
run mem prog (suc left) pc acc = elim (get_elem? prog pc) [
  | none ↦ 0
  | some ins ↦ elim (step mem ins acc) [
    | returns r ↦ r
    | goes n acc' ↦ run mem prog left (pc + (1 + n)) acc'
  ]
]

unfoldable pub evaluate_seccomp_filter : List Insn → Input → ℕ
unfolding run step
evaluate_seccomp_filter prog i = run (seccomp_data i) prog (length prog + 1) 0 0

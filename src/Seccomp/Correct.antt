-- ===== src/Seccomp/Correct.antt =====
-- `build_seccomp_filter` against a decision procedure that reads the policy directly.
use Prim.Native.Nat.{bit_and}
use vhdp.Base.{
  ℕ, ◌+◌, ◌*◌, ◌%◌, ◌/◌, ◌<◌, ◌^◌, Bool, true, false, ◌&&◌, List, [], ◌∷◌, none, ◌≡◌, refl, ◌∙◌,
  arith, leb, ◌==◌, if◌then◌else◌, All, Bool-cases, inl, inr, Bytes, drop, length,
}
use vhdp.Base.Int.{ℤ, pos, negsuc, to_u32}
use vhdp.Seccomp.{
  Insn, Policy, Input, step, off_arch, off_nr, off_args, op_ld, op_jeq, op_ret, stmt, jump, x32_bit,
  clone_untraced, ret_allow, trace_action, ret_eacces, af_unix, seccomp_data, get32, nonneg,
  allow_ranges, x32_block, socket_block, clone_block, sendto_block, build_seccomp_filter,
  evaluate_seccomp_filter, runs, unique, sort,
}
use vhdp.Seccomp.Exec.{exec, run-exec}
use vhdp.Seccomp.Ranges.{
  is_number, contains, in_ranges, in_ranges-compressed, Fits, FitsRange, compressed-FitsRange,
}

-- Every system call number of the policy fits a 32-bit word, as does the architecture.
pub record FitsWords (p : Policy) : Type 0 where
  pub arch_fits : p.audit_arch < 2 ^ 32
  pub allow_fits : All Fits p.allow
  pub socket_fits : Fits p.nr_socket
  pub clone_fits : Fits p.nr_clone
  pub sendto_fits : Fits p.nr_sendto

-- The arguments are 64-bit words.
pub record IsInput (i : Input) : Type 0 where
  pub arch_is : i.arch < 2 ^ 32
  pub arg0_is : i.arg0 < 2 ^ 64
  pub arg4_is : i.arg4 < 2 ^ 64

-- What the policy says of a system call.
unfoldable pub decide_number : Policy → Input → ℕ → ℕ
unfolding contains
decide_number p i n =
    if p.check_x32 && leb x32_bit n
    then trace_action
    else if p.network_none && is_number n p.nr_socket
    then (if i.arg0 % 2 ^ 32 == af_unix then ret_allow else ret_eacces)
    else if is_number n p.nr_clone
    then (if bit_and (i.arg0 % 2 ^ 32) clone_untraced == 0 then ret_allow else trace_action)
    else if is_number n p.nr_sendto
    then (if i.arg4 == 0 then ret_allow else trace_action)
    else if contains n p.allow
    then ret_allow
    else trace_action

unfoldable pub decide : Policy → Input → ℕ
unfolding decide_number
decide p i = if i.arch == p.audit_arch then decide_number p i (to_u32 i.nr) else trace_action

exec-allow_ranges :
    (mem : Bytes) (rs : List (ℕ × ℕ)) (acc : ℕ)
    → All FitsRange rs
    → exec mem 0 (allow_ranges rs (stmt op_ret trace_action ∷ [])) acc
      ≡ (if in_ranges acc rs then ret_allow else trace_action)
unfolding exec allow_ranges step in_ranges
exec-allow_ranges mem [] acc h = refl
exec-allow_ranges mem ((lo, hi) ∷ rs) acc h = ground (arith, exec-allow_ranges mem rs acc h.1)

exec-x32_block :
    (mem : Bytes) (p : Policy) (rest : List Insn) (acc : ℕ)
    → exec mem 0 (x32_block p rest) acc
      ≡ (if p.check_x32 && leb x32_bit acc then trace_action else exec mem 0 rest acc)
unfolding exec x32_block step
exec-x32_block mem p rest acc = elim (Bool-cases p.check_x32) [
  | inl e ↦ rw e (ground arith)
  | inr e ↦ rw e refl
]

-- A block is entered on its number; otherwise it is jumped over.
exec-socket_block :
    (mem : Bytes) (p : Policy) (rest : List Insn) (acc a : ℕ)
    → Fits p.nr_socket
    → get32 (drop off_args mem) ≡ a
    → exec mem 0 (socket_block p rest) acc ≡ (
        if p.network_none && is_number acc p.nr_socket
        then (if a == af_unix then ret_allow else ret_eacces)
        else exec mem 0 rest acc)
unfolding exec socket_block step
exec-socket_block mem p rest acc a f e = ground arith

exec-clone_block :
    (mem : Bytes) (p : Policy) (rest : List Insn) (acc a : ℕ)
    → Fits p.nr_clone
    → get32 (drop off_args mem) ≡ a
    → exec mem 0 (clone_block p rest) acc ≡ (
        if is_number acc p.nr_clone
        then (if bit_and a clone_untraced == 0 then ret_allow else trace_action)
        else exec mem 0 rest acc)
unfolding exec clone_block step
exec-clone_block mem p rest acc a f e = ground arith

-- The code of the sendto block behind its first load.
abbrev null_tests : List Insn → List Insn
null_tests rest =
    jump op_jeq 0 0 3
    ∷ stmt op_ld (off_args + 4 * 8 + 4)
    ∷ jump op_jeq 0 0 1
    ∷ stmt op_ret ret_allow
    ∷ stmt op_ret trace_action
    ∷ rest

exec-null_tests :
    (mem : Bytes) (rest : List Insn) (lo hi : ℕ)
    → get32 (drop (off_args + 4 * 8 + 4) mem) ≡ hi
    → exec mem 0 (null_tests rest) lo ≡ (if lo == 0 && hi == 0 then ret_allow else trace_action)
unfolding exec step
exec-null_tests mem rest lo hi e = ground arith

-- A block of seven instructions that starts by a test of the number and a load.
exec-enter :
    (mem : Bytes) (b1 b2 b3 b4 b5 : Insn) (rest : List Insn) (acc k : ℕ)
    → exec mem 0
        (jump op_jeq k 0 6 ∷ stmt op_ld (off_args + 4 * 8) ∷ b1 ∷ b2 ∷ b3 ∷ b4 ∷ b5 ∷ rest)
        acc
      ≡ (if acc == k
          then exec mem 0 (b1 ∷ b2 ∷ b3 ∷ b4 ∷ b5 ∷ rest) (get32 (drop (off_args + 4 * 8) mem))
          else exec mem 0 rest acc)
unfolding exec step
exec-enter mem b1 b2 b3 b4 b5 rest acc k = ground arith

sendto_cases :
    (nr : ℤ) (acc a b : ℕ)
    → Fits nr
    → (if nonneg nr then (if acc == to_u32 nr then a else b) else b)
      ≡ (if is_number acc nr then a else b)
sendto_cases (pos n) acc a b f = ground arith
sendto_cases (negsuc n) acc a b f = refl

exec-if :
    (mem : Bytes) (t : Bool) (x y : List Insn) (acc : ℕ)
    → exec mem 0 (if t then x else y) acc ≡ (if t then exec mem 0 x acc else exec mem 0 y acc)
exec-if mem true x y acc = refl
exec-if mem false x y acc = refl

exec-sendto_block :
    (mem : Bytes) (p : Policy) (rest : List Insn) (acc lo hi : ℕ)
    → Fits p.nr_sendto
    → get32 (drop (off_args + 4 * 8) mem) ≡ lo
    → get32 (drop (off_args + 4 * 8 + 4) mem) ≡ hi
    → exec mem 0 (sendto_block p rest) acc ≡ (
        if is_number acc p.nr_sendto
        then (if lo == 0 && hi == 0 then ret_allow else trace_action)
        else exec mem 0 rest acc)
unfolding sendto_block
exec-sendto_block mem p rest acc lo hi f e e' =
    rw
      (
        exec-if mem (nonneg p.nr_sendto),
        exec-enter mem _ _ _ _ _ rest acc (to_u32 p.nr_sendto),
        e,
        exec-null_tests mem rest lo hi e',
      )
      (sendto_cases p.nr_sendto acc _ _ f)

-- A 64-bit word is zero when both its halves are.
zero_halves : (a : ℕ) → ((a % 2 ^ 32 == 0) && (a / 2 ^ 32 == 0)) ≡ (a == 0)
zero_halves a = ground arith

exec-head :
    (mem : Bytes) (p : Policy) (rest : List Insn)
    → exec mem 0
        (stmt op_ld off_arch
          ∷ jump op_jeq p.audit_arch 1 0
          ∷ stmt op_ret trace_action
          ∷ stmt op_ld off_nr
          ∷ rest)
        0
      ≡ (if get32 (drop off_arch mem) == p.audit_arch
          then exec mem 0 rest (get32 (drop off_nr mem))
          else trace_action)
unfolding exec step
exec-head mem p rest = ground arith

to_u32-lt : (x : ℤ) → to_u32 x < 2 ^ 32
to_u32-lt (pos n) = omega arith
to_u32-lt (negsuc n) = omega arith

module _ (p : Policy) (i : Input) (v : IsInput i) where
  load_arch : get32 (drop off_arch (seccomp_data i)) ≡ i.arch
  load_arch = omega (arith, v.arch_is)

  load_nr : get32 (drop off_nr (seccomp_data i)) ≡ to_u32 i.nr
  load_nr = omega (arith, to_u32-lt i.nr)

  load_arg0 : get32 (drop off_args (seccomp_data i)) ≡ i.arg0 % 2 ^ 32
  load_arg0 = omega arith

  load_arg4 : get32 (drop (off_args + 4 * 8) (seccomp_data i)) ≡ i.arg4 % 2 ^ 32
  load_arg4 = omega arith

  load_arg4_high : get32 (drop (off_args + 4 * 8 + 4) (seccomp_data i)) ≡ i.arg4 / 2 ^ 32
  load_arg4_high = omega (arith, v.arg4_is)

  exec-blocks :
      (n : ℕ)
      → FitsWords p
      → exec
          (seccomp_data i)
          0
          (x32_block p (
            socket_block p (
              clone_block p (
                sendto_block p (
                  allow_ranges
                    (runs none (unique (sort p.allow)))
                    (stmt op_ret trace_action ∷ []))))))
          n
        ≡ decide_number p i n
  unfolding decide_number
  exec-blocks n w = rw (
    exec-x32_block (seccomp_data i) p _ n,
    exec-socket_block (seccomp_data i) p _ n _ w.socket_fits load_arg0,
    exec-clone_block (seccomp_data i) p _ n _ w.clone_fits load_arg0,
    exec-sendto_block (seccomp_data i) p _ n _ _ w.sendto_fits load_arg4 load_arg4_high,
    exec-allow_ranges (seccomp_data i) _ n (compressed-FitsRange p.allow w.allow_fits),
    in_ranges-compressed n p.allow,
    zero_halves i.arg4,
  )

  -- The program built from a policy, run by the reference interpreter on any system call, returns
  -- what the policy says of that call: the step counter never cuts a run short, no jump lands wrong,
  -- and the compressed ranges allow exactly the listed numbers. The numbers and the architecture of
  -- the policy fit 32 bits, and the input is one the kernel can hand over.
  pub evaluate-build : FitsWords p → evaluate_seccomp_filter (build_seccomp_filter p) i ≡ decide p i
  unfolding evaluate_seccomp_filter build_seccomp_filter decide
  evaluate-build w =
      run-exec (seccomp_data i) (build_seccomp_filter p) (length (build_seccomp_filter p) + 1) 0 0
        (omega arith)
      ∙ exec-head (seccomp_data i) p _
      ∙ rw (load_arch, load_nr, exec-blocks (to_u32 i.nr) w)

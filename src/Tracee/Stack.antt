-- ===== src/Tracee/Stack.antt =====
-- `StackWriter` of engines/rootless/supervisor.cpp: scratch space below the stack pointer of a traced
-- process. The red zone of the architecture is an argument; its stack alignment is 16 on both.
use vhdp.Base.{
  ℕ, ◌+◌, ◌-◌, ◌*◌, ◌%◌, ◌^◌, ◌||◌, [], ◌∷◌, ◌++◌, some, none, Bytes, if◌then◌else◌, length, ltb,
  ◌==◌,
}
use vhdp.Resolver.Kernel.{Reply, ok, err}
use vhdp.Tracee.{MemoryCalls, write_mem, esrch}

-- `ENOMEM`
abbrev pub enomem : ℕ
enomem = 12

-- `kMaxStackScratch`
abbrev pub max_stack_scratch : ℕ
max_stack_scratch = 1024 * 1024

pub record StackWriter : Type 0 where
  pub tid : ℕ
  pub base : ℕ
  pub top : ℕ

-- `a - b` on 64 bits
abbrev pub sub64 : ℕ → ℕ → ℕ
sub64 a b = (a + (2 ^ 64 - b % 2 ^ 64)) % 2 ^ 64

-- `x & ~(16 - 1)`
abbrev pub align_down : ℕ → ℕ
align_down x = x - x % 16

-- The constructor.
unfoldable pub stack_writer : ℕ → ℕ → ℕ → StackWriter
stack_writer red_zone tid sp = record {
  tid = tid;
  base = sp;
  top = align_down (sub64 (sub64 sp red_zone) 64);
}

-- `skip`
abbrev pub skip : StackWriter → ℕ → StackWriter
skip sw len = record sw { top = if ltb len sw.top then sw.top - len else 0 }

module _ {W : Type 0} (k : MemoryCalls W) where
  -- The address of the copy, or the errno, with the writer and the memory.
  unfoldable pub push : StackWriter → Bytes → W → Reply ℕ × StackWriter × W
  unfolding write_mem
  push sw buf w =
      let next = align_down (sw.top - length buf) in
      if ltb max_stack_scratch (length buf) || ltb sw.top (length buf + 4096)
      then (err enomem, sw, w)
      else if ltb max_stack_scratch (sub64 sw.base next)
      then (err enomem, sw, w)
      else let (e, w') = write_mem k w sw.tid next buf in
        elim e [
          | some e ↦ (err (if e == esrch then esrch else enomem), sw, w')
          | none ↦ (ok next, record sw { top = next }, w')
        ]

  unfoldable pub push_string : StackWriter → Bytes → W → Reply ℕ × StackWriter × W
  unfolding push
  push_string sw s w = push sw (s ++ 0 ∷ []) w

-- ===== src/Tracee.antt =====
-- engines/rootless/tracee_mem.cpp: the memory of a traced process. process_vm_readv(2),
-- process_vm_writev(2) and the file /proc/<tid>/mem belong to the kernel: they are the record
-- `MemoryCalls`, with `W` for the state of the world.
pub mod Stored
pub mod Text
pub mod Stack
pub mod Writes
pub mod Scratch
use vhdp.Base.{
  ℕ, zero, suc, ◌+◌, ◌-◌, ◌%◌, ◌^◌, Bool, true, false, ◌&&◌, not, List, [], ◌∷◌, ◌++◌, Option, some,
  none, Bytes, if◌then◌else◌, length, ltb, leb, ◌==◌, is_empty,
}
use vhdp.Base.Int.{ℤ, pos, negsuc}
use vhdp.Resolver.Kernel.{Reply, ok, err, enoent, einval, enametoolong}
use vhdp.Exec.Calls.{Chunk, interrupted, broken, bytes}

-- EFAULT, ESRCH and EIO
abbrev pub efault : ℕ
efault = 14

abbrev pub esrch : ℕ
esrch = 3

abbrev pub eio : ℕ
eio = 5

-- What one pwrite(2) answers: EINTR, another errno, or how many bytes it has written.
pub data Written : Type 0 where
  again : Written
  refused : ℕ → Written
  wrote : ℕ → Written

-- `vm_read` and `vm_write` answer what they have moved, which may be less than asked for. `open_mem`
-- opens the file for writing or for reading. `pread` and `pwrite` tell what successive calls answer
-- that start at an address; where a list ends they answer 0.
pub record MemoryCalls (W : Type 0) : Type 0 where
  pub page_size : ℤ
  pub vm_read : W → ℕ → ℕ → ℕ → Reply Bytes
  pub vm_write : W → ℕ → ℕ → Bytes → Reply ℕ × W
  pub open_mem : W → ℕ → Bool → Option ℕ
  pub pread : W → ℕ → ℕ → ℕ → List Chunk
  pub pwrite : W → ℕ → ℕ → Bytes → List Written × W

-- 2 ^ 64 - 1
abbrev pub uint64_max : ℕ
uint64_max = 2 ^ 64 - 1

unfoldable pub overflows : ℕ → ℕ → Bool
overflows addr len = ltb 0 len && ltb (uint64_max - (len - 1)) addr

abbrev io_error : ℕ → ℕ
io_error e = if e == eio then efault else e

-- The loop of `proc_mem_io` that reads, with the bytes read so far.
unfoldable pub read_loop : ℕ → Bytes → List Chunk → Reply Bytes
read_loop len got [] = if leb len (length got) then ok got else err efault
read_loop len got (a ∷ chunks) = if leb len (length got) then ok got else elim a [
  | interrupted ↦ read_loop len got chunks
  | broken e ↦ err (io_error e)
  | bytes b ↦ if is_empty b then err efault else read_loop len (got ++ b) chunks
]

-- The loop that writes, with how much is done: the error, if there is one.
unfoldable pub write_loop : ℕ → ℕ → List Written → Option ℕ
write_loop len done [] = if leb len done then none else some efault
write_loop len done (a ∷ answers) = if leb len done then none else elim a [
  | again ↦ write_loop len done answers
  | refused e ↦ some (io_error e)
  | wrote n ↦ if n == 0 then some efault else write_loop len (done + n) answers
]

abbrev open_error : ℕ → ℕ
open_error e = if e == enoent then esrch else e

module _ {W : Type 0} (k : MemoryCalls W) where
  unfoldable pub proc_mem_read : W → ℕ → ℕ → ℕ → Reply Bytes
  unfolding read_loop
  proc_mem_read w tid addr len = elim (k.open_mem w tid false) [
    | some e ↦ err (open_error e)
    | none ↦ read_loop len [] (k.pread w tid addr len)
  ]

  unfoldable pub proc_mem_write : W → ℕ → ℕ → Bytes → Option ℕ × W
  unfolding write_loop
  proc_mem_write w tid addr buf = elim (k.open_mem w tid true) [
    | some e ↦ (some (open_error e), w)
    | none ↦ let (answers, w') = k.pwrite w tid addr buf in (write_loop (length buf) 0 answers, w')
  ]

  unfoldable pub read_mem : W → ℕ → ℕ → ℕ → Reply Bytes
  unfolding overflows proc_mem_read
  read_mem w tid addr len =
      if len == 0
      then ok []
      else if overflows addr len
      then err efault
      else elim (k.vm_read w tid addr len) [
        | ok b ↦ if length b == len then ok b else err efault
        | err e ↦ if e == esrch then err esrch else proc_mem_read w tid addr len
      ]

  -- The error, if there is one, and the memory behind it.
  unfoldable pub write_mem : W → ℕ → ℕ → Bytes → Option ℕ × W
  unfolding overflows proc_mem_write
  write_mem w tid addr buf =
      if length buf == 0
      then (none, w)
      else if overflows addr (length buf)
      then (some efault, w)
      else let (moved, w') = k.vm_write w tid addr buf in
        elim moved [
          | ok n ↦ if n == length buf then (none, w') else proc_mem_write w' tid addr buf
          | err e ↦ if e == esrch then (some esrch, w') else proc_mem_write w' tid addr buf
        ]

-- `page_size()` on what sysconf(3) answers.
abbrev pub page_of : ℤ → ℕ
page_of (pos (suc n)) = suc n
page_of _ = 4096

abbrev pub page : {W : Type 0} → MemoryCalls W → ℕ
page k = page_of k.page_size

-- What stands in front of the first NUL, and whether there is one.
unfoldable pub until_nul : Bytes → Bytes × Bool
until_nul [] = ([], false)
until_nul (c ∷ s) =
    let (head, found) = until_nul s in if c == 0 then ([], true) else (c ∷ head, found)

abbrev pub smaller : ℕ → ℕ → ℕ
smaller a b = if ltb b a then b else a

module _ {W : Type 0} (k : MemoryCalls W) where
  -- How much one round reads: up to the end of the page, of the buffer and of what is asked for.
  unfoldable pub wanted : ℕ → ℕ → ℕ → ℕ
  wanted max addr got = smaller (smaller (page k - addr % page k) 4096) (max - got)

  -- The loop of `read_cstring`. Each round reads a byte at least, so `max` rounds are enough.
  unfoldable pub read_rounds : W → ℕ → ℕ → ℕ → ℕ → Bytes → Reply Bytes
  unfolding read_mem until_nul wanted
  read_rounds w tid max zero addr got = err enametoolong
  read_rounds w tid max (suc n) addr got =
      let want = wanted max addr (length got) in
      elim (ltb (length got) max) [
        | false ↦ err enametoolong
        | true ↦ elim (read_mem k w tid addr want) [
          | err e ↦ err e
          | ok chunk ↦
              let (head, found) = until_nul chunk in
              elim found [
                | true ↦ ok (got ++ head)
                | false ↦ read_rounds w tid max n ((addr + want) % 2 ^ 64) (got ++ chunk)
              ]
        ]
      ]

  unfoldable pub read_cstring : W → ℕ → ℕ → ℕ → Reply Bytes
  unfolding read_rounds
  read_cstring w tid addr max = if addr == 0 then err efault else read_rounds w tid max max addr []

-- ===== src/Tracee/Writes.antt =====
-- What is written into the memory of a process by engines/rootless/tracee_mem.cpp, and by the
-- `StackWriter` of supervisor.cpp, is read there again.
use vhdp.Base.{
  subst, ◌∙◌, ap, ℕ, ◌+◌, ◌≤◌, ◌<◌, false, [], ◌∷◌, ◌++◌, Option, some, none, Bytes, length, ◌≡◌,
  arith, has_byte, length-append,
}
use vhdp.Resolver.Kernel.{ok}
use vhdp.Tracee.{MemoryCalls, write_mem, write_loop, proc_mem_write, read_cstring}
use vhdp.Tracee.Stack.{StackWriter, push, push_string}
use vhdp.Tracee.Stored.{stored}
use vhdp.Tracee.Text.{Holds, read_cstring-text}

-- The memory of each process in each state of the world: it is mapped by pages, and what
-- process_vm_writev(2) or the calls of pwrite(2) have written as a whole is there.
pub record Remembers {W : Type 0} (k : MemoryCalls W) (mem : W → ℕ → ℕ → Option ℕ) : Type 0 where
  pub holds : (w : W) (tid : ℕ) → Holds k w tid (mem w tid)
  pub writes :
      (w : W) (tid addr : ℕ) (buf : Bytes)
      → (k.vm_write w tid addr buf).0 ≡ ok (length buf)
      → stored (mem (k.vm_write w tid addr buf).1 tid) addr (length buf) ≡ some buf
  pub file_writes :
      (w : W) (tid addr : ℕ) (buf : Bytes)
      → write_loop (length buf) 0 (k.pwrite w tid addr buf).0 ≡ none
      → stored (mem (k.pwrite w tid addr buf).1 tid) addr (length buf) ≡ some buf

module _ {W : Type 0} (k : MemoryCalls W) (mem : W → ℕ → ℕ → Option ℕ) (m : Remembers k mem) where
  file-stored :
      (w : W) (tid addr : ℕ) (buf : Bytes)
      → (proc_mem_write k w tid addr buf).0 ≡ none
      → stored (mem (proc_mem_write k w tid addr buf).1 tid) addr (length buf) ≡ some buf
  unfolding proc_mem_write
  file-stored w tid addr buf h = ground (arith, m.file_writes w tid addr buf)

  pub write_mem-stored :
      (w : W) (tid addr : ℕ) (buf : Bytes)
      → 1 ≤ length buf
      → (write_mem k w tid addr buf).0 ≡ none
      → stored (mem (write_mem k w tid addr buf).1 tid) addr (length buf) ≡ some buf
  unfolding write_mem
  write_mem-stored w tid addr buf le h =
      let later = file-stored (k.vm_write w tid addr buf).1 tid addr buf in
      ground (arith, m.writes w tid addr buf, later)

  -- Where a copy is, and what the call has written.
  push-value :
      (sw : StackWriter) (b : Bytes) (w : W) {addr : ℕ}
      → (push k sw b w).0 ≡ ok addr
      → ((write_mem k w sw.tid addr b).0 ≡ none)
        × ((push k sw b w).2 ≡ (write_mem k w sw.tid addr b).1)
        × (1 ≤ addr)
  unfolding push
  push-value sw b w h = ground arith

  -- A text without a NUL that has been pushed is read at the address that comes back.
  pub push_string-text :
      (sw : StackWriter) (s : Bytes) (w : W) (max : ℕ) {addr : ℕ}
      → (push_string k sw s w).0 ≡ ok addr
      → has_byte 0 s ≡ false
      → length s < max
      → read_cstring k (push_string k sw s w).2 sw.tid addr max ≡ ok s
  unfolding push_string push
  push_string-text sw s w max {addr} h clean fits =
      let size : length (s ++ 0 ∷ []) ≡ length s + 1 = length-append s (0 ∷ []) in
      let (done, after, high) = push-value sw (s ++ 0 ∷ []) w h in
      let w' = (write_mem k w sw.tid addr (s ++ 0 ∷ [])).1 in
      let there = write_mem-stored w sw.tid addr (s ++ 0 ∷ []) (omega (arith, size)) done in
      ap (λ v. read_cstring k v sw.tid addr max) after
      ∙ (read_cstring-text k w' sw.tid (mem w' sw.tid) (m.holds w' sw.tid) addr max s
            (λ e. omega arith) clean).0
          (subst (λ n. stored (mem w' sw.tid) addr n ≡ some (s ++ 0 ∷ [])) size there) fits

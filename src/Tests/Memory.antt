-- ===== src/Tests/Memory.antt =====
-- A memory that is mapped below 2 ^ 64, and texts in it.
use vhdp.Base.{
  List, ℕ, zero, suc, ◌+◌, ◌-◌, ◌%◌, ◌^◌, ◌≤◌, ◌<◌, true, [], ◌∷◌, ◌++◌, Option, some, none, Bytes,
  codes, ◌≡◌, refl, arith, inl, inr, if◌then◌else◌, length, ltb, leb, ◌==◌, has_byte, Bool-cases,
  ◌∙◌,
}
use vhdp.Base.Int.{pos}
use vhdp.Path.{path_max}
use vhdp.Resolver.Kernel.{Reply, ok, err, err≢ok, enametoolong}
use vhdp.Tracee.{MemoryCalls, refused, efault, read_cstring, write_loop, overflows, write_mem}
use vhdp.Tracee.Stored.{stored}
use vhdp.Tracee.Text.{Holds, read_cstring-text}
use vhdp.Tracee.Writes.{Remembers}
use vhdp.Tracee.Stack.{stack_writer, push}
use vhdp.Tracee.Scratch.{push_all, push_all-Stacked, Stacked}

-- The byte at each address.
abbrev pub Ram : Type 0
Ram = ℕ → ℕ

abbrev pub mapped : Ram → ℕ → ℕ → Option ℕ
mapped w tid a = if ltb a (2 ^ 64) then some (w a) else none

unfoldable pub put : ℕ → Bytes → Ram → Ram
put addr [] w = w
put addr (c ∷ s) w = let w' = put (suc addr) s w in λ a. if a == addr then c else w' a

abbrev pub vm_read : Ram → ℕ → ℕ → ℕ → Reply Bytes
vm_read w tid addr len = elim (stored (mapped w tid) addr len) [ none ↦ err efault | some b ↦ ok b ]

abbrev pub vm_write : Ram → ℕ → ℕ → Bytes → Reply ℕ × Ram
vm_write w tid addr buf =
    if leb (addr + length buf) (2 ^ 64) then (ok (length buf), put addr buf w) else (err efault, w)

abbrev pub ram : MemoryCalls Ram
ram = record {
  page_size = pos 4096;
  vm_read = vm_read;
  vm_write = vm_write;
  open_mem = λ w tid writing. none;
  pread = λ w tid addr len. [];
  pwrite = λ w tid addr buf. (refused efault ∷ [], w);
}

stored_none : (m : ℕ → Option ℕ) (addr : ℕ) → stored m addr 0 ≡ some []
unfolding stored
stored_none m addr = refl

stored-suc :
    (m : ℕ → Option ℕ) (addr n : ℕ) {c : ℕ} {b : Bytes}
    → m addr ≡ some c
    → stored m (suc addr) n ≡ some b
    → stored m addr (suc n) ≡ some (c ∷ b)
unfolding stored
stored-suc m addr n e f = ground (arith, e, f)

is_mapped : (w : Ram) (tid a : ℕ) → a < 2 ^ 64 → mapped w tid a ≡ some (w a)
is_mapped w tid a lt = ground (arith, lt)

mapped-stored :
    (w : Ram) (tid addr n : ℕ)
    → addr + n ≤ 2 ^ 64
    → (b : Bytes) × (stored (mapped w tid) addr n ≡ some b)
mapped-stored w tid addr zero fits = ([], stored_none (mapped w tid) addr)
mapped-stored w tid addr (suc n) fits =
    let (b, e) = mapped-stored w tid (suc addr) n (omega (arith, fits)) in
    (w addr ∷ b, stored-suc (mapped w tid) addr n (is_mapped w tid addr (omega (arith, fits))) e)

-- What a memory shows from an address on depends on the bytes from there on.
stored-above :
    (m m' : ℕ → Option ℕ) (addr n : ℕ)
    → ((a : ℕ) → addr ≤ a → m a ≡ m' a)
    → stored m addr n ≡ stored m' addr n
unfolding stored
stored-above m m' addr zero same = refl
stored-above m m' addr (suc n) same =
    let here = same addr (omega arith) in
    let rest = stored-above m m' (suc addr) n (λ a le. same a (omega (arith, le))) in
    ground (arith, here, rest)

stored-put :
    (w : Ram) (tid addr : ℕ) (buf : Bytes)
    → addr + length buf ≤ 2 ^ 64
    → stored (mapped (put addr buf w) tid) addr (length buf) ≡ some buf
unfolding stored put
stored-put w tid addr [] fits = refl
stored-put w tid addr (c ∷ s) fits =
    let ih = stored-put w tid (suc addr) s (omega (arith, fits)) in
    let lt : ltb addr (2 ^ 64) ≡ true = ground arith in
    let same =
      stored-above (mapped (put addr (c ∷ s) w) tid) (mapped (put (suc addr) s w) tid) (suc addr)
        (length s) (λ a le. ground (arith, le)) in
    stored-suc (mapped (put addr (c ∷ s) w) tid) addr (length s) (ground arith) (same ∙ ih)

ram-reads :
    (w : Ram) (tid addr len : ℕ) (b : Bytes)
    → stored (mapped w tid) addr len ≡ some b
    → vm_read w tid addr len ≡ ok b
ram-reads w tid addr len b e = ground (arith, e)

inside : (w : Ram) (tid addr c : ℕ) → mapped w tid addr ≡ some c → addr < 2 ^ 64
inside w tid addr c e = ground (arith, e)

in_page : (addr len : ℕ) → addr < 2 ^ 64 → len ≤ 4096 - addr % 4096 → addr + len ≤ 2 ^ 64
in_page addr len lt le = omega (arith, lt, le)

ram-Holds : (w : Ram) (tid : ℕ) → Holds ram w tid (mapped w tid)
ram-Holds w tid = record {
  reads = ram-reads w tid;
  inside = inside w tid;
  paged =
      λ addr len c e le. mapped-stored w tid addr len (in_page addr len (inside w tid addr c e) le);
}

ram-writes :
    (w : Ram) (tid addr : ℕ) (buf : Bytes)
    → (vm_write w tid addr buf).0 ≡ ok (length buf)
    → stored (mapped (vm_write w tid addr buf).1 tid) addr (length buf) ≡ some buf
ram-writes w tid addr buf e = elim (Bool-cases (leb (addr + length buf) (2 ^ 64))) [
  | inl t ↦ rw t (stored-put w tid addr buf (ground arith))
  | inr f ↦ absurd (err≢ok (rw f at e))
]

ram-file :
    (w : Ram) (tid addr : ℕ) (buf : Bytes)
    → write_loop (length buf) 0 (refused efault ∷ []) ≡ none
    → stored (mapped w tid) addr (length buf) ≡ some buf
unfolding write_loop stored
ram-file w tid addr [] e = refl
ram-file w tid addr (c ∷ s) e = absurd (ground (arith, e))

pub ram-Remembers : Remembers ram mapped
ram-Remembers = record { holds = ram-Holds; writes = ram-writes; file_writes = ram-file }

-- A text that crosses the end of a page.
abbrev pub crossing : Ram
crossing = put 8190 (codes "/link" ++ 0 ∷ []) (λ a. 1)

crossing-stored :
    stored (mapped crossing 7) 8190 (length (codes "/link") + 1) ≡ some (codes "/link" ++ 0 ∷ [])
unfolding stored put
crossing-stored = refl

read_cstring-text_example :
    (stored (mapped crossing 7) 8190 (length (codes "/link") + 1) ≡ some (codes "/link" ++ 0 ∷ [])
      → length (codes "/link") < path_max
      → read_cstring ram crossing 7 8190 path_max ≡ ok (codes "/link"))
    × (stored (mapped crossing 7) 8190 path_max ≡ some (codes "/link")
        → read_cstring ram crossing 7 8190 path_max ≡ err enametoolong)
unfolding has_byte
read_cstring-text_example =
    read_cstring-text ram crossing 7 (mapped crossing 7) (ram-Holds crossing 7) 8190 path_max
      (codes "/link") (omega arith) refl

abbrev texts : List Bytes
texts = codes "/srv/etc" ∷ codes "sh" ∷ []

abbrev places : List ℕ
places = 65392 ∷ 65376 ∷ []

texts_pushed : (push_all ram (stack_writer 64 7 65536) texts crossing).0 ≡ ok places
unfolding push_all push stack_writer write_mem overflows
texts_pushed = refl

push_all-Stacked_example : Stacked 65536 (65536 - (64 + 64)) places texts
push_all-Stacked_example =
    push_all-Stacked ram 64 7 65536 texts crossing (omega arith) (omega arith) texts_pushed

-- ===== src/Elf/Interp.antt =====
-- What the program headers of an accepted file lead to.
use vhdp.Base.{
  subst, ℕ, zero, suc, ◌+◌, ◌*◌, ◌≤◌, true, not, ◌||◌, Bytes, Option, some, length, ◌≡◌, refl, ltb,
  arith, ◌==◌, if-elim, ◌>>=◌,
}
use vhdp.Elf.{
  Status, Info, ok, bad_interp, truncated, read_interp, scan_phdr, scan, store_interp, not_elf,
  unsupported_class, unsupported_encoding, bad_version, bad_type, bad_phdr, range_ok, max_interp,
}
use vhdp.Elf.Bounds.{Reads, reads, rd32-Reads, rd64-Reads}

-- An interpreter that an `Info` names lies in the file, and its name has room for one character and
-- is no longer than PATH_MAX.
pub record Fits (file_size : ℕ) (i : Info) : Type 0 where
  pub inside : i.has_interp ≡ true → i.interp_offset + i.interp_size ≤ file_size
  pub at_least : i.has_interp ≡ true → 2 ≤ i.interp_size
  pub at_most : i.has_interp ≡ true → i.interp_size ≤ 4096

-- A scan that reads nothing outside its buffer and leaves such an `Info`.
pub data Scanned (file_size phentsize : ℕ) : Option (Status × Info) → Type 0 where
  scanned :
      (s : Status) (i : Info)
      → Fits file_size i
      → i.phentsize ≡ phentsize
      → Scanned file_size phentsize (some (s, i))

Scanned-bind :
    {A : Type 0} (file_size phentsize : ℕ) (o : Option A) (f : A → Option (Status × Info))
    → Reads o
    → ((a : A) → Scanned file_size phentsize (f a))
    → Scanned file_size phentsize (o >>= f)
Scanned-bind file_size phentsize _ f (reads a) g = g a

store_interp-Scanned :
    (file_size off filesz : ℕ) (i : Info)
    → Fits file_size i
    → Scanned file_size i.phentsize (some (store_interp file_size off filesz i))
unfolding store_interp range_ok
store_interp-Scanned file_size off filesz i f =
    if-elim (λ r. Scanned file_size i.phentsize (some r))
      (ltb filesz 2 || ltb max_interp filesz || not (range_ok off filesz file_size))
      (λ _. scanned bad_interp i f refl)
      (λ e.
        scanned ok _
          (record {
            inside = λ _. ground arith;
            at_least = λ _. ground arith;
            at_most = λ _. ground arith;
          })
          refl)

module _ (phdrs : Bytes) (file_size : ℕ) where
  read_interp-Scanned :
      (at : ℕ) (i : Info)
      → at + 56 ≤ length phdrs
      → Fits file_size i
      → Scanned file_size i.phentsize (read_interp phdrs file_size at i)
  unfolding read_interp
  read_interp-Scanned at i h f =
      Scanned-bind file_size i.phentsize _ _ (rd64-Reads phdrs (at + 8) (omega arith)) (λ off.
        Scanned-bind file_size i.phentsize _ _ (rd64-Reads phdrs (at + 32) (omega arith))
          (λ filesz. store_interp-Scanned file_size off filesz i f))

  scan_phdr-Scanned :
      (at : ℕ) (i : Info)
      → at + 56 ≤ length phdrs
      → Fits file_size i
      → Scanned file_size i.phentsize (scan_phdr phdrs file_size at i)
  unfolding scan_phdr
  scan_phdr-Scanned at i h f =
      Scanned-bind file_size i.phentsize _ _ (rd32-Reads phdrs at (omega arith)) (λ p_type.
        if-elim (Scanned file_size i.phentsize) (not (p_type == 3)) (λ _. scanned ok i f refl)
          (λ _.
            if-elim (Scanned file_size i.phentsize) i.has_interp (λ _. scanned bad_interp i f refl)
              (λ _. read_interp-Scanned at i h f)))

  go_on :
      (n at : ℕ) {size : ℕ} {o : Option (Status × Info)}
      → Scanned file_size size o
      → ((i : Info)
          → Fits file_size i
          → i.phentsize ≡ size
          → Scanned file_size size (scan phdrs file_size n at i))
      → Scanned file_size size
          (o >>= λ r. elim r.0 [ ok ↦ scan phdrs file_size n at r.1 | other ↦ some (other, r.1) ])
  go_on n at (scanned ok i f e) go = go i f e
  go_on n at (scanned truncated i f e) go = scanned _ i f e
  go_on n at (scanned not_elf i f e) go = scanned _ i f e
  go_on n at (scanned unsupported_class i f e) go = scanned _ i f e
  go_on n at (scanned unsupported_encoding i f e) go = scanned _ i f e
  go_on n at (scanned bad_version i f e) go = scanned _ i f e
  go_on n at (scanned bad_type i f e) go = scanned _ i f e
  go_on n at (scanned bad_phdr i f e) go = scanned _ i f e
  go_on n at (scanned bad_interp i f e) go = scanned _ i f e

  pub scan-Scanned :
      (n at size : ℕ) (i : Info)
      → 56 ≤ size
      → at + n * size ≤ length phdrs
      → Fits file_size i
      → i.phentsize ≡ size
      → Scanned file_size size (scan phdrs file_size n at i)
  unfolding scan
  scan-Scanned zero at size i l h f e = scanned ok i f e
  scan-Scanned (suc n) at size i l h f e =
      go_on n (at + i.phentsize)
        (subst (λ k. Scanned file_size k (scan_phdr phdrs file_size at i)) e
          (scan_phdr-Scanned at i (omega arith) f))
        (λ i' f' e'. scan-Scanned n (at + i.phentsize) size i' l (omega arith) f' e')

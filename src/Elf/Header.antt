-- ===== src/Elf/Header.antt =====
-- What an accepted ELF header promises.
use vhdp.Base.{
  subst, ℕ, ◌+◌, ◌*◌, ◌<◌, ◌≤◌, not, ◌&&◌, ◌||◌, Bytes, Option, some, none, length, get_elem?, ◌≡◌,
  refl, ltb, leb, arith, ◌==◌, if-elim, ◌>>=◌, ◌≢◌, starts_with,
}
use vhdp.Elf.{
  Status, Info, ok, rd16, rd32, rd64, check_table, read_table, read_class64, read_class, read_ident,
  parse_header, scan_phdrs, max_phdr_bytes, phdr_size, range_ok, ehdr_size, elf_magic, ehdr32_size,
}
use vhdp.Elf.Interp.{Scanned, scan-Scanned}

-- A table of program headers of a class ELF64 file, that lies in the file and is not too large.
pub record HasTable (file_size : ℕ) (i : Info) : Type 0 where
  pub class64 : i.elf_class ≡ 64
  pub headers_hold : 56 ≤ i.phentsize
  pub not_empty : 0 < i.phnum
  pub not_too_large : i.phnum * i.phentsize ≤ max_phdr_bytes
  pub inside : i.phoff + i.phnum * i.phentsize ≤ file_size

-- The results that are no acceptance, or the acceptance of such a table.
data Judged (file_size : ℕ) : Option (Status × Info) → Type 0 where
  unread : Judged file_size none
  refused : (s : Status) (i : Info) → s ≢ ok → Judged file_size (some (s, i))
  accepted : (i : Info) → HasTable file_size i → Judged file_size (some (ok, i))

Judged-bind :
    {A : Type 0} (file_size : ℕ) (o : Option A) (f : A → Option (Status × Info))
    → ((a : A) → Judged file_size (f a))
    → Judged file_size (o >>= f)
Judged-bind file_size none f g = unread
Judged-bind file_size (some a) f g = g a

module _ (buf : Bytes) (file_size : ℕ) where
  check_table-Judged :
      (ehsize : ℕ) (i : Info)
      → i.elf_class ≡ 64
      → Judged file_size (some (check_table ehsize file_size i, i))
  unfolding check_table range_ok
  check_table-Judged ehsize i c =
      let J : Status → Type 0 = λ s. Judged file_size (some (s, i)) in
      if-elim J (ltb ehsize ehdr_size) (λ _. refused _ i (λ e. cc))
        (λ _.
          if-elim J (i.phnum == 0) (λ _. refused _ i (λ e. cc))
            (λ n.
              if-elim J (i.phnum == 0xFFFF || ltb i.phentsize phdr_size)
                (λ _. refused _ i (λ e. cc))
                (λ p.
                  if-elim J
                    (ltb max_phdr_bytes (i.phnum * i.phentsize)
                      || not (range_ok i.phoff (i.phnum * i.phentsize) file_size))
                    (λ _. refused _ i (λ e. cc))
                    (λ t. accepted i (record {
                      class64 = c;
                      headers_hold = ground arith;
                      not_empty = ground arith;
                      not_too_large = ground arith;
                      inside = ground arith;
                    })))))

  read_table-Judged : (i : Info) → i.elf_class ≡ 64 → Judged file_size (read_table buf file_size i)
  unfolding read_table
  read_table-Judged i c = Judged-bind file_size (rd64 buf 24) _ (λ entry.
      Judged-bind file_size (rd64 buf 32) _ (λ phoff.
        Judged-bind file_size (rd16 buf 52) _ (λ ehsize.
          Judged-bind file_size (rd16 buf 54) _ (λ phentsize.
            Judged-bind file_size (rd16 buf 56) _ (λ phnum. check_table-Judged ehsize _ c)))))

  read_class64-Judged :
      (i : Info) → i.elf_class ≡ 64 → Judged file_size (read_class64 buf file_size i)
  unfolding read_class64
  read_class64-Judged i c = Judged-bind file_size (get_elem? buf 6) _ (λ ident_version.
      Judged-bind file_size (rd32 buf 20) _ (λ version.
        if-elim (Judged file_size) (not (ident_version == 1) || not (version == 1))
          (λ _. refused _ i (λ e. cc))
          (λ _.
            if-elim (Judged file_size) (not (i.elf_type == 2) && not (i.elf_type == 3))
              (λ _. refused _ i (λ e. cc)) (λ _. read_table-Judged i c))))

  read_class-Judged : (cls : ℕ) (i : Info) → Judged file_size (read_class buf file_size cls i)
  unfolding read_class
  read_class-Judged cls i =
      if-elim (Judged file_size) (cls == 1)
        (λ _.
          refused _ _
            (if-elim (λ s. s ≢ ok) (ltb (length buf) ehdr32_size) (λ _ e. cc) (λ _ e. cc)))
        (λ _.
          if-elim (Judged file_size) (not (cls == 2)) (λ _. refused _ _ (λ e. cc))
            (λ _.
              if-elim (Judged file_size) (ltb (length buf) ehdr_size) (λ _. refused _ _ (λ e. cc))
                (λ _. read_class64-Judged _ refl)))

  read_ident-Judged : Judged file_size (read_ident buf file_size)
  unfolding read_ident
  read_ident-Judged = Judged-bind file_size (get_elem? buf 4) _ (λ cls.
      Judged-bind file_size (get_elem? buf 5) _ (λ encoding.
        Judged-bind file_size (get_elem? buf 7) _ (λ osabi.
          Judged-bind file_size (rd16 buf 16) _ (λ elf_type.
            Judged-bind file_size (rd16 buf 18) _ (λ machine.
              if-elim (Judged file_size) (not (encoding == 1)) (λ _. refused _ _ (λ e. cc))
                (λ _. read_class-Judged cls _))))))

  parse_header-Judged : Judged file_size (parse_header buf file_size)
  unfolding parse_header
  parse_header-Judged =
      if-elim (Judged file_size) (ltb (length buf) 20)
        (λ _. refused _ _ (
          if-elim (λ s. s ≢ ok) (leb 4 (length buf) && not (starts_with elf_magic buf)) (λ _ e. cc)
            (λ _ e. cc)))
        (λ _.
          if-elim (Judged file_size) (not (starts_with elf_magic buf)) (λ _. refused _ _ (λ e. cc))
            (λ _. read_ident-Judged))

  Judged-ok :
      {o : Option (Status × Info)} (i : Info)
      → Judged file_size o
      → o ≡ some (ok, i)
      → HasTable file_size i
  Judged-ok i unread e = absurd (cc e)
  Judged-ok i (refused s j n) e = absurd (n (cc e))
  Judged-ok i (accepted j t) e = subst (HasTable file_size) (cc e) t

  -- A header that `vhdp_elf_parse_header` accepts is of the class ELF64, and its table of one or more
  -- program headers has 56 bytes or more for each, at most 64 KiB in all, and ends inside the file.
  pub parse_header-HasTable :
      (i : Info) → parse_header buf file_size ≡ some (ok, i) → HasTable file_size i
  parse_header-HasTable i = Judged-ok i parse_header-Judged

  -- When the header has been accepted and as many bytes have been read as its table has,
  -- `vhdp_elf_scan_phdrs` reads none outside them and returns, and an interpreter that the `info` then
  -- names lies inside the file and is 2 to 4096 bytes long, its NUL included.
  pub scan_phdrs-Fits :
      (i : Info) (phdrs : Bytes)
      → parse_header buf file_size ≡ some (ok, i)
      → length phdrs ≡ i.phnum * i.phentsize
      → Scanned file_size i.phentsize (scan_phdrs phdrs file_size i)
  unfolding scan_phdrs
  scan_phdrs-Fits i phdrs h l =
      let t = parse_header-HasTable i h in
      if-elim (Scanned file_size i.phentsize) (not (i.elf_class == 64)) (λ e. absurd (ground arith))
        (λ _.
          if-elim (Scanned file_size i.phentsize)
            (ltb (length phdrs) (i.phnum * i.phentsize)
              || ltb max_phdr_bytes (i.phnum * i.phentsize))
            (λ e. absurd (ground arith))
            (λ _.
              scan-Scanned phdrs file_size i.phnum 0 i.phentsize _ t.headers_hold (omega arith)
                (record { inside = λ e. cc; at_least = λ e. cc; at_most = λ e. cc }) refl))

-- ===== src/Elf/Bounds.antt =====
-- No read of the ELF decoder leaves its buffer.
use vhdp.Base.{
  starts_with, ℕ, zero, suc, ◌+◌, ◌<◌, ◌≤◌, not, ◌&&◌, ◌||◌, Bytes, List, [], ◌∷◌, Option, some,
  length, get_elem?, ltb, arith, ◌==◌, if-elim, ◌>>=◌,
}
use vhdp.Elf.{
  elf_magic, Info, rd16, rd32, rd64, read_table, read_class64, read_class, read_ident, parse_header,
}

-- A read that answers.
pub data Reads {A : Type 0} : Option A → Type 0 where
  reads : (a : A) → Reads (some a)

pub Reads-bind :
    {A B : Type 0} (o : Option A) (f : A → Option B)
    → Reads o
    → ((a : A) → Reads (f a))
    → Reads (o >>= f)
Reads-bind _ f (reads a) g = g a

pub get_elem?-Reads : {A : Type 0} (b : List A) (i : ℕ) → i < length b → Reads (get_elem? b i)
get_elem?-Reads [] i h = absurd (omega arith)
get_elem?-Reads (x ∷ b) zero h = reads x
get_elem?-Reads (x ∷ b) (suc i) h = get_elem?-Reads b i (omega arith)

rd16-Reads : (b : Bytes) (i : ℕ) → i + 2 ≤ length b → Reads (rd16 b i)
unfolding rd16
rd16-Reads b i h =
    Reads-bind _ _ (get_elem?-Reads b i (omega arith))
      (λ x. Reads-bind _ _ (get_elem?-Reads b (i + 1) (omega arith)) (λ y. reads _))

pub rd32-Reads : (b : Bytes) (i : ℕ) → i + 4 ≤ length b → Reads (rd32 b i)
unfolding rd32
rd32-Reads b i h =
    Reads-bind _ _ (rd16-Reads b i (omega arith))
      (λ x. Reads-bind _ _ (rd16-Reads b (i + 2) (omega arith)) (λ y. reads _))

pub rd64-Reads : (b : Bytes) (i : ℕ) → i + 8 ≤ length b → Reads (rd64 b i)
unfolding rd64
rd64-Reads b i h =
    Reads-bind _ _ (rd32-Reads b i (omega arith))
      (λ x. Reads-bind _ _ (rd32-Reads b (i + 4) (omega arith)) (λ y. reads _))

module _ (buf : Bytes) (file_size : ℕ) where
  read_table-Reads : (i : Info) → 64 ≤ length buf → Reads (read_table buf file_size i)
  unfolding read_table
  read_table-Reads i h = Reads-bind _ _ (rd64-Reads buf 24 (omega arith)) (λ entry.
      Reads-bind _ _ (rd64-Reads buf 32 (omega arith)) (λ phoff.
        Reads-bind _ _ (rd16-Reads buf 52 (omega arith)) (λ ehsize.
          Reads-bind _ _ (rd16-Reads buf 54 (omega arith))
            (λ phentsize. Reads-bind _ _ (rd16-Reads buf 56 (omega arith)) (λ phnum. reads _)))))

  read_class64-Reads : (i : Info) → 64 ≤ length buf → Reads (read_class64 buf file_size i)
  unfolding read_class64
  read_class64-Reads i h = Reads-bind _ _ (get_elem?-Reads buf 6 (omega arith)) (λ ident_version.
      Reads-bind _ _ (rd32-Reads buf 20 (omega arith)) (λ version.
        if-elim Reads (not (ident_version == 1) || not (version == 1)) (λ _. reads _)
          (λ _.
            if-elim Reads (not (i.elf_type == 2) && not (i.elf_type == 3)) (λ _. reads _)
              (λ _. read_table-Reads i h))))

  read_class-Reads : (cls : ℕ) (i : Info) → Reads (read_class buf file_size cls i)
  unfolding read_class
  read_class-Reads cls i =
      if-elim Reads (cls == 1) (λ _. reads _)
        (λ _.
          if-elim Reads (not (cls == 2)) (λ _. reads _)
            (λ _.
              if-elim Reads (ltb (length buf) 64) (λ _. reads _)
                (λ l. read_class64-Reads _ (ground arith))))

  read_ident-Reads : 20 ≤ length buf → Reads (read_ident buf file_size)
  unfolding read_ident
  read_ident-Reads h = Reads-bind _ _ (get_elem?-Reads buf 4 (omega arith)) (λ cls.
      Reads-bind _ _ (get_elem?-Reads buf 5 (omega arith)) (λ encoding.
        Reads-bind _ _ (get_elem?-Reads buf 7 (omega arith)) (λ osabi.
          Reads-bind _ _ (rd16-Reads buf 16 (omega arith)) (λ elf_type.
            Reads-bind _ _ (rd16-Reads buf 18 (omega arith)) (λ machine.
              if-elim Reads (not (encoding == 1)) (λ _. reads _) (λ _. read_class-Reads cls _))))))

  -- Whatever the bytes of the buffer are and however few, `vhdp_elf_parse_header` reads none outside
  -- it and returns.
  pub parse_header-Reads : Reads (parse_header buf file_size)
  unfolding parse_header
  parse_header-Reads =
      if-elim Reads (ltb (length buf) 20) (λ _. reads _)
        (λ l.
          if-elim Reads (not (starts_with elf_magic buf)) (λ _. reads _)
            (λ _. read_ident-Reads (ground arith)))

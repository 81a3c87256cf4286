-- ===== src/Exec/Calls.antt =====
-- What the resolver of programs asks the kernel for, and `pread_full` of
-- engines/rootless/exec_resolver.cpp.
use vhdp.Base.{ℕ, Bool, List, [], ◌∷◌, ◌++◌, Option, Bytes, if◌then◌else◌, length, leb, is_empty}
use vhdp.Elf.{Architecture}
use vhdp.Resolver.Kernel.{Host, Reply, ok, err}

-- What one read(2) or pread(2) answers: EINTR, another errno, or the bytes read, none of them at the
-- end of the file.
pub data Chunk : Type 0 where
  interrupted : Chunk
  broken : ℕ → Chunk
  bytes : Bytes → Chunk

-- `struct stat` of an open file: `S_ISREG` of its mode, and its size.
pub record FileStat : Type 0 where
  pub regular : Bool
  pub size : ℕ

-- The device, the inode, the size and the time that `argv0_cache_` is keyed by.
pub record Key : Type 0 where
  pub dev : ℕ
  pub ino : ℕ
  pub size : ℕ
  pub mtime : ℕ

-- An open file: fstat(2), what successive calls of pread(2) answer that start at an offset and ask
-- for a length in all, and what successive calls of read(2) answer from the start. Where a list
-- ends the file does.
pub record File : Type 0 where
  pub fstat : Reply FileStat
  pub pread : ℕ → ℕ → List Chunk
  pub read : List Chunk

-- The kernel: lstat and readlink, access(X_OK), whether statvfs finds ST_NOEXEC, open(2) for reading,
-- and stat(2). `architecture` is what the library is compiled for.
pub record System : Type 0 where
  pub host : Host
  pub access : Bytes → Option ℕ
  pub noexec : Bytes → Bool
  pub open_file : Bytes → Reply File
  pub stat : Bytes → Reply Key
  pub architecture : Architecture

-- The loop of `pread_full`, with the bytes read so far.
unfoldable pub pread_full : ℕ → Bytes → List Chunk → Reply Bytes
pread_full len got [] = ok got
pread_full len got (a ∷ chunks) = if leb len (length got) then ok got else elim a [
  | interrupted ↦ pread_full len got chunks
  | broken e ↦ err e
  | bytes b ↦ if is_empty b then ok got else pread_full len (got ++ b) chunks
]

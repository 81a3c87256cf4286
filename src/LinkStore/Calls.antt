-- ===== src/LinkStore/Calls.antt =====
-- What the link store asks the kernel for. `F` is the state of the file system.
use vhdp.Base.{ℕ, List, Option, Bytes}
use vhdp.Resolver.Kernel.{Reply}

-- The device and the inode of a file: `Key`.
abbrev pub Key : Type 0
Key = ℕ × ℕ

-- A call that may fail answers its errno. `lock` opens the lock file of a store and waits for its
-- lock; `readdir` lists the names in a directory, none where it cannot be opened.
-- mkostemp(3) makes a file whose name starts with a text; `hard_link` is link(2). strtoul(3) reads a
-- whole text, or fails.
pub record Calls (F : Type 0) : Type 0 where
  pub symlink : F → Bytes → Bytes → Option ℕ × F
  pub unlink : F → Bytes → Option ℕ × F
  pub rename : F → Bytes → Bytes → Option ℕ × F
  pub mkdir : F → Bytes → Option ℕ × F
  pub lock : F → Bytes → F
  pub readlink : F → Bytes → Reply Bytes
  pub lstat : F → Bytes → Reply Key
  pub readdir : F → Bytes → List Bytes
  pub mkostemp : F → Bytes → Option Bytes × F
  pub hard_link : F → Bytes → Bytes → Option ℕ × F
  pub strtoul : Bytes → Option ℕ

-- ===== src/Resolver/Kernel.antt =====
-- What vfs/resolver.cpp asks of the host kernel, and its errno values.
use vhdp.Base.{refl, inl, inr, ◌⊎◌, ◌≢◌, ◌≡◌, ℕ, Bytes, if◌then◌else◌, length, leb}
use vhdp.Path.{path_max}

abbrev pub enoent : ℕ
enoent = 2

abbrev pub eacces : ℕ
eacces = 13

abbrev pub enotdir : ℕ
enotdir = 20

abbrev pub einval : ℕ
einval = 22

abbrev pub enametoolong : ℕ
enametoolong = 36

abbrev pub eloop : ℕ
eloop = 40

-- A result, or an errno.
pub data Reply {ℓ} (A : Type ℓ) : Type ℓ where
  ok : A → Reply A
  err : ℕ → Reply A

pub ok-injective {ℓ} : {A : Type ℓ} {a b : A} → ok a ≡ ok b → a ≡ b
ok-injective h = cc

pub err≢ok {ℓ} : {A : Type ℓ} {e : ℕ} {a : A} → err e ≢ ok a
err≢ok h = cc

pub Reply-cases {ℓ} : {A : Type ℓ} (r : Reply A) → ((e : ℕ) × (r ≡ err e)) ⊎ ((a : A) × (r ≡ ok a))
Reply-cases (ok a) = inr (a, refl)
Reply-cases (err e) = inl (e, refl)

-- What `S_ISLNK` and `S_ISDIR` tell of `st_mode`.
pub data FileKind : Type 0 where
  symlink directory other : FileKind

-- The fields of `struct stat` that are read.
pub record Stat : Type 0 where
  pub file_kind : FileKind
  pub dev : ℕ
  pub ino : ℕ

-- lstat(2) and readlink(2), the latter with its whole result.
pub record Host : Type 0 where
  pub lstat : Bytes → Reply Stat
  pub readlink : Bytes → Reply Bytes

-- `read_link`: a target that fills the buffer is refused.
unfoldable pub read_link : Host → Bytes → Reply Bytes
read_link h path = elim (h.readlink path) [
  | err e ↦ err e
  | ok s ↦ if leb path_max (length s) then err enametoolong else ok s
]

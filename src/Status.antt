-- ===== src/Status.antt =====
-- common/status.hpp and .cpp: error codes with their names, and a status.
use vhdp.Base.{ℕ, ◌++◌, Bytes, codes}
use vhdp.Errno.{errno_name, errno_description}

pub data Code : Type 0 where
  ok invalid_argument abi_mismatch no_memory invalid_state unsupported : Code
  engine_unavailable rootfs_invalid bind_invalid exec_failed permission_denied : Code
  timeout buffer_too_small io busy cancelled not_found host_environment internal : Code

-- `code_name`; an enumerator has no other value here.
unfoldable pub code_name : Code → Bytes
code_name ok = codes "VHDP_OK"
code_name invalid_argument = codes "VHDP_E_INVALID_ARGUMENT"
code_name abi_mismatch = codes "VHDP_E_ABI_MISMATCH"
code_name no_memory = codes "VHDP_E_NO_MEMORY"
code_name invalid_state = codes "VHDP_E_INVALID_STATE"
code_name unsupported = codes "VHDP_E_UNSUPPORTED"
code_name engine_unavailable = codes "VHDP_E_ENGINE_UNAVAILABLE"
code_name rootfs_invalid = codes "VHDP_E_ROOTFS_INVALID"
code_name bind_invalid = codes "VHDP_E_BIND_INVALID"
code_name exec_failed = codes "VHDP_E_EXEC_FAILED"
code_name permission_denied = codes "VHDP_E_PERMISSION_DENIED"
code_name timeout = codes "VHDP_E_TIMEOUT"
code_name buffer_too_small = codes "VHDP_E_BUFFER_TOO_SMALL"
code_name io = codes "VHDP_E_IO"
code_name busy = codes "VHDP_E_BUSY"
code_name cancelled = codes "VHDP_E_CANCELLED"
code_name not_found = codes "VHDP_E_NOT_FOUND"
code_name host_environment = codes "VHDP_E_HOST_ENVIRONMENT"
code_name internal = codes "VHDP_E_INTERNAL"

pub record Status : Type 0 where
  pub code : Code
  pub message : Bytes

abbrev pub ok_status : Status
ok_status = record { code = ok; message = codes "" }

abbrev pub fail_with : Code → Bytes → Status
fail_with c m = record { code = c; message = m }

unfoldable pub errno_status : Code → Bytes → ℕ → Status
unfolding errno_name errno_description
errno_status code what err =
    fail_with code
      (what ++ codes ": " ++ errno_name err ++ codes " (" ++ errno_description err ++ codes ")")

-- common/result.hpp: `Result<T>`
pub data Result {ℓ} (A : Type ℓ) : Type ℓ where
  value : A → Result A
  failure : Status → Result A

infixl 5 ◌>>=◌
abbrev pub ◌>>=◌ {ℓ κ} : {A : Type ℓ} {B : Type κ} → Result A → (A → Result B) → Result B
value a >>= f = f a
failure s >>= f = failure s

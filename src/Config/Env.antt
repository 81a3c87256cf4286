-- ===== src/Config/Env.antt =====
-- The environment as a map from keys to entries.
use vhdp.Base.{
  Bytes, List, [], ◌∷◌, Option, some, none, true, false, ◌≡◌, ◌≢◌, refl, arith, if◌then◌else◌,
  has_byte, starts_with, Bool-cases, inl, inr, sym, ◌∙◌,
}
use vhdp.Config.{env_key, has_env_key, replace_env, set_env}

-- The entry that `getenv` finds.
unfoldable pub find_env : Bytes → List Bytes → Option Bytes
find_env key [] = none
find_env key (e ∷ env) = let rest = find_env key env in if has_env_key key e then some e else rest

-- An entry with a "=" has its own key.
has_env_key-env_key : (e : Bytes) → has_byte b'=' e ≡ true → has_env_key (env_key e) e ≡ true
unfolding has_env_key env_key has_byte starts_with
has_env_key-env_key [] h = cc
has_env_key-env_key (c ∷ e) h = ground (arith, has_env_key-env_key e)

-- A key without a "=" is a key of one kind of entries.
env_key_unique :
    (key e : Bytes) → has_byte b'=' key ≡ false → has_env_key key e ≡ true → env_key e ≡ key
unfolding has_env_key env_key has_byte starts_with
env_key_unique [] [] n h = cc
env_key_unique (k ∷ key) [] n h = cc
env_key_unique [] (c ∷ e) n h = ground arith
env_key_unique (k ∷ key) (c ∷ e) n h = ground (arith, env_key_unique key e)

find_env-replaced :
    (key kv : Bytes) (env : List Bytes)
    → has_env_key key kv ≡ true
    → find_env key (replace_env key kv env) ≡ some kv
unfolding find_env replace_env
find_env-replaced key kv [] h = ground arith
find_env-replaced key kv (e ∷ env) h = ground (arith, find_env-replaced key kv env h)

find_env-other :
    (key other kv : Bytes) (env : List Bytes)
    → ((e : Bytes) → has_env_key key e ≡ true → has_env_key other e ≡ false)
    → has_env_key key kv ≡ true
    → find_env other (replace_env key kv env) ≡ find_env other env
unfolding find_env replace_env
find_env-other key other kv [] d h = ground (arith, d kv)
find_env-other key other kv (e ∷ env) d h =
    ground (arith, d kv, d e, find_env-other key other kv env d h)

env_key-HasNo : (e : Bytes) → has_byte b'=' (env_key e) ≡ false
unfolding env_key has_byte
env_key-HasNo [] = refl
env_key-HasNo (c ∷ e) = ground (arith, env_key-HasNo e)

env_key_disjoint :
    (key other e : Bytes)
    → has_byte b'=' key ≡ false
    → has_byte b'=' other ≡ false
    → key ≢ other
    → has_env_key key e ≡ true
    → has_env_key other e ≡ false
env_key_disjoint key other e nk o d h = elim (Bool-cases (has_env_key other e)) [
  | inl t ↦ absurd (d (sym (env_key_unique key e nk h) ∙ env_key_unique other e o t))
  | inr f ↦ f
]

-- After an entry KEY=VALUE is set, its key finds it, and any other key without a "=" finds what it
-- found before.
pub set_env-find_env :
    (env : List Bytes) (kv : Bytes)
    → has_byte b'=' kv ≡ true
    → (find_env (env_key kv) (set_env env kv) ≡ some kv)
      × ((other : Bytes)
          → has_byte b'=' other ≡ false
          → env_key kv ≢ other
          → find_env other (set_env env kv) ≡ find_env other env)
unfolding set_env
set_env-find_env env kv h = (
  find_env-replaced (env_key kv) kv env (has_env_key-env_key kv h),
  λ other n d.
      find_env-other (env_key kv) other kv env
        (λ e. env_key_disjoint (env_key kv) other e (env_key-HasNo kv) n d)
        (has_env_key-env_key kv h),
)

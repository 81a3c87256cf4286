-- ===== src/Identity/Errors.antt =====
-- A refused identity call.
use vhdp.Base.{ℕ, ◌≡◌, refl, arith, Option, some, none}
use vhdp.Base.Int.{ℤ, pos, negsuc}
use vhdp.Identity.{
  Creds, Ids, Who, Call, getuid, geteuid, getgid, getegid, getresuid, getresgid, getgroups,
  setgroups, setid, setreid, setresid, setfsid, answer, Memory, Args, settle, to_i32, set_groups,
  change, handle_identity,
}

settle_refused :
    {M : Type 0} (k : Memory M) (a : Args) (w : Who) (c : Creds) (o : Option Ids) {n : ℕ}
    → (settle k a w c o).0 ≡ answer (negsuc n)
    → (settle k a w c o).1 ≡ c
settle_refused k a w c none h = refl
settle_refused k a w c (some ids) h = cc

set_groups_refused :
    {M : Type 0} (k : Memory M) (a : Args) (n : ℤ) (c : Creds) (m : M) {e : ℕ}
    → (set_groups k a n c m).0 ≡ answer (negsuc e)
    → (set_groups k a n c m).1 ≡ c
unfolding set_groups
set_groups_refused k a (negsuc _) c m h = refl
set_groups_refused k a (pos n) c m h = ground arith

change_refused :
    {M : Type 0} (k : Memory M) (a : Args) (call : Call) (c : Creds) (m : M) {e : ℕ}
    → (change k a call c m).0 ≡ answer (negsuc e)
    → (change k a call c m).1 ≡ c
unfolding change
change_refused k a setgroups c m h = ground (arith, set_groups_refused k a (to_i32 (a 0)) c m)
change_refused k a (setid w) c m h = settle_refused k a w c _ h
change_refused k a (setreid w) c m h = settle_refused k a w c _ h
change_refused k a (setresid w) c m h = settle_refused k a w c _ h
change_refused k a (setfsid w) c m h = cc
change_refused k a _ c m h = refl

-- A call that is answered by an error leaves the credentials as they were.
pub handle_identity_refused :
    {M : Type 0} (k : Memory M) (a : Args) (call : Call) (c : Creds) (m : M) {e : ℕ}
    → (handle_identity k a call c m).0 ≡ answer (negsuc e)
    → (handle_identity k a call c m).1 ≡ c
unfolding handle_identity
handle_identity_refused k a getresuid c m h = refl
handle_identity_refused k a getresgid c m h = refl
handle_identity_refused k a getgroups c m h = refl
handle_identity_refused k a getuid c m h = refl
handle_identity_refused k a geteuid c m h = refl
handle_identity_refused k a getgid c m h = refl
handle_identity_refused k a getegid c m h = refl
handle_identity_refused k a call c m h = change_refused k a call c m h

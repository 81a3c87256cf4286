-- ===== src/Identity/Drop.antt =====
-- A process that has given up user id 0.
use vhdp.Base.{
  ℕ, ◌<◌, ◌≡◌, refl, arith, Bool, true, false, ◌||◌, List, [], ◌∷◌, Option, some, none, ◌==◌, ◌∙◌,
}
use vhdp.Identity.{
  Creds, Ids, Who, user, group, Call, getuid, geteuid, getgid, getegid, getresuid, getresgid,
  getgroups, setgroups, setid, setreid, setresid, setfsid, Memory, Args, half, set_half, settle,
  is_privileged, arg_id, set_id, set_re_id, set_res_id, set_fs_id, change, handle_identity, in3,
}

-- Whether one of four ids is that one.
abbrev in4 : ℕ → Ids → Bool
in4 x ids = in3 x ids || x == ids.fs

-- All new ids are among the old ones.
pub record Within (old new : Ids) : Type 0 where
  pub real_old : in4 new.real old ≡ true
  pub effective_old : in4 new.effective old ≡ true
  pub saved_old : in4 new.saved old ≡ true
  pub fs_old : in4 new.fs old ≡ true

-- None of the ids is 0.
pub record IsRootless (ids : Ids) : Type 0 where
  pub real_set : 0 < ids.real
  pub effective_set : 0 < ids.effective
  pub saved_set : 0 < ids.saved
  pub fs_set : 0 < ids.fs

Within-refl : (ids : Ids) → Within ids ids
Within-refl ids = ground arith

in4_trans : (x : ℕ) (a b : Ids) → Within a b → in4 x b ≡ true → in4 x a ≡ true
in4_trans x a b w h = ground arith

Within-trans : (a b c : Ids) → Within a b → Within b c → Within a c
Within-trans a b c v w = record {
  real_old = in4_trans c.real a b v w.real_old;
  effective_old = in4_trans c.effective a b v w.effective_old;
  saved_old = in4_trans c.saved a b v w.saved_old;
  fs_old = in4_trans c.fs a b v w.fs_old;
}

in4-pos : (x : ℕ) (ids : Ids) → IsRootless ids → in4 x ids ≡ true → 0 < x
in4-pos x ids r h = ground arith

Within-IsRootless : (a b : Ids) → IsRootless a → Within a b → IsRootless b
Within-IsRootless a b r w = record {
  real_set = in4-pos b.real a r w.real_old;
  effective_set = in4-pos b.effective a r w.effective_old;
  saved_set = in4-pos b.saved a r w.saved_old;
  fs_set = in4-pos b.fs a r w.fs_old;
}

set_id-Within : (u : ℕ) (a : Ids) {b : Ids} → set_id false u a ≡ some b → Within a b
unfolding set_id
set_id-Within u a h = ground arith

set_re_id-Within : (r e : ℕ) (a : Ids) {b : Ids} → set_re_id false r e a ≡ some b → Within a b
unfolding set_re_id
set_re_id-Within r e a h = ground arith

set_res_id-Within : (r e s : ℕ) (a : Ids) {b : Ids} → set_res_id false r e s a ≡ some b → Within a b
unfolding set_res_id
set_res_id-Within r e s a h = ground arith

set_fs_id-Within : (f : ℕ) (a : Ids) → Within a (set_fs_id false f a)
unfolding set_fs_id
set_fs_id-Within f a = ground arith

-- What a call without privilege may do to the credentials.
pub record IsNarrowed (old new : Creds) : Type 0 where
  pub users : Within old.user new.user
  pub groups_of : Within old.group new.group
  pub same_groups : new.groups ≡ old.groups

IsNarrowed-refl : (c : Creds) → IsNarrowed c c
IsNarrowed-refl c = record {
  users = Within-refl c.user;
  groups_of = Within-refl c.group;
  same_groups = refl;
}

IsNarrowed-half :
    (w : Who) (c : Creds) (ids : Ids) → Within (half w c) ids → IsNarrowed c (set_half w c ids)
IsNarrowed-half user c ids h = record {
  users = h;
  groups_of = Within-refl c.group;
  same_groups = refl;
}
IsNarrowed-half group c ids h = record {
  users = Within-refl c.user;
  groups_of = h;
  same_groups = refl;
}

settle-IsNarrowed :
    {M : Type 0} (k : Memory M) (a : Args) (w : Who) (c : Creds) (o : Option Ids)
    → ((ids : Ids) → o ≡ some ids → Within (half w c) ids)
    → IsNarrowed c (settle k a w c o).1
settle-IsNarrowed k a w c none h = IsNarrowed-refl c
settle-IsNarrowed k a w c (some ids) h = IsNarrowed-half w c ids (h ids refl)

change-IsNarrowed :
    {M : Type 0} (k : Memory M) (a : Args) (call : Call) (c : Creds) (m : M)
    → is_privileged c ≡ false
    → IsNarrowed c (change k a call c m).1
unfolding change
change-IsNarrowed k a setgroups c m e = rw e (IsNarrowed-refl c)
change-IsNarrowed k a (setid w) c m e =
    rw e (settle-IsNarrowed k a w c _ (λ ids h. set_id-Within (arg_id a 0) (half w c) h))
change-IsNarrowed k a (setreid w) c m e =
    rw e (
      settle-IsNarrowed k a w c _
        (λ ids h. set_re_id-Within (arg_id a 0) (arg_id a 1) (half w c) h))
change-IsNarrowed k a (setresid w) c m e = rw e (
    settle-IsNarrowed k a w c _
      (λ ids h. set_res_id-Within (arg_id a 0) (arg_id a 1) (arg_id a 2) (half w c) h))
change-IsNarrowed k a (setfsid w) c m e =
    rw e (IsNarrowed-half w c _ (set_fs_id-Within (arg_id a 0) (half w c)))
change-IsNarrowed k a _ c m e = IsNarrowed-refl c

handle_identity-IsNarrowed :
    {M : Type 0} (k : Memory M) (a : Args) (call : Call) (c : Creds) (m : M)
    → is_privileged c ≡ false
    → IsNarrowed c (handle_identity k a call c m).1
unfolding handle_identity
handle_identity-IsNarrowed k a getresuid c m e = IsNarrowed-refl c
handle_identity-IsNarrowed k a getresgid c m e = IsNarrowed-refl c
handle_identity-IsNarrowed k a getgroups c m e = IsNarrowed-refl c
handle_identity-IsNarrowed k a getuid c m e = IsNarrowed-refl c
handle_identity-IsNarrowed k a geteuid c m e = IsNarrowed-refl c
handle_identity-IsNarrowed k a getgid c m e = IsNarrowed-refl c
handle_identity-IsNarrowed k a getegid c m e = IsNarrowed-refl c
handle_identity-IsNarrowed k a call c m e = change-IsNarrowed k a call c m e

-- A sequence of identity calls of one process, the guest's memory changing on the way.
unfoldable pub calls : {M : Type 0} → Memory M → List (Args × Call) → Creds → M → Creds
calls k [] c m = c
calls k ((a, call) ∷ rest) c m =
    let (_, c', m') = handle_identity k a call c m in calls k rest c' m'

-- A process whose four user ids are all different from 0 never gets it back: after any sequence of
-- identity calls its user ids are among those that it had, as are its group ids, its supplementary
-- groups are the same, and it is not privileged.
pub calls-IsNarrowed :
    {M : Type 0} (k : Memory M) (sequence : List (Args × Call)) (c : Creds) (m : M)
    → IsRootless c.user
    → IsNarrowed c (calls k sequence c m) × (is_privileged (calls k sequence c m) ≡ false)
unfolding calls
calls-IsNarrowed k [] c m r = (IsNarrowed-refl c, ground arith)
calls-IsNarrowed k ((a, call) ∷ rest) c m r =
    let e : is_privileged c ≡ false = ground arith in
    let n = handle_identity-IsNarrowed k a call c m e in
    let c' = (handle_identity k a call c m).1 in
    let m' = (handle_identity k a call c m).2 in
    let ih = calls-IsNarrowed k rest c' m' (Within-IsRootless c.user c'.user r n.users) in
    (
      record {
        users = Within-trans c.user c'.user _ n.users ih.0.users;
        groups_of = Within-trans c.group c'.group _ n.groups_of ih.0.groups_of;
        same_groups = ih.0.same_groups ∙ n.same_groups;
      },
      ih.1,
    )

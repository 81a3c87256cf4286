-- ===== src/Config/Guest.antt =====
-- What `check_guest_path` accepts.
use vhdp.Base.{
  ℕ, [], ◌∷◌, ◌++◌, Bytes, Bool, true, false, ◌||◌, ◌≡◌, ◌≢◌, ◌⊎◌, ◌↔◌, ◌<◌, length, is_empty,
  arith, refl, inl, inr, ◌∙◌, sym, ap, eq_bytes, eq_bytes_iff, eq_bytes_refl, Bool-cases,
  append_assoc, List, All, ◌==◌, subst,
}
use vhdp.Path.{slash, dotdot, is_absolute, has_dotdot, any_dotdot, components, scan, emit}
use vhdp.Path.Normalize.{components-append_slash, components-dotdot}
use vhdp.Strings.{contains_nul}
use vhdp.Status.{ok}
use vhdp.Config.{check_guest_path}

-- What may stand behind a name in a path: nothing, or a slash and the rest.
pub data Ends : Bytes → Type 0 where
  at_end : Ends []
  at_slash : (rest : Bytes) → Ends (slash ∷ rest)

-- Somewhere in the path there is a "/..", with nothing or a slash behind it.
pub record Climbs (p : Bytes) : Type 0 where
  pub front : Bytes
  pub behind : Bytes
  pub is_path : p ≡ front ++ slash ∷ (dotdot ++ behind)
  pub ends : Ends behind

-- It starts with a slash, is shorter than 4096 bytes, has no byte 0 and never climbs.
pub record IsGuestPath (p : Bytes) : Type 0 where
  pub has_no_nul : All (λ c. c ≢ 0) p
  pub rest : Bytes
  pub starts_at_root : p ≡ slash ∷ rest
  pub fits : length p < 4096
  pub has_no_dotdot : ¬ Climbs p

any_dotdot-append : (a b : List Bytes) → any_dotdot (a ++ b) ≡ (any_dotdot a || any_dotdot b)
unfolding any_dotdot
any_dotdot-append [] b = refl
any_dotdot-append (c ∷ a) b = ground (arith, any_dotdot-append a b)

any_dotdot_one : any_dotdot (dotdot ∷ []) ≡ true
unfolding any_dotdot eq_bytes
any_dotdot_one = refl

either_true : (b : Bool) → (b || true) ≡ true
either_true true = refl
either_true false = refl

Climbs-has_dotdot : (p : Bytes) → Climbs p → has_dotdot p ≡ true
unfolding has_dotdot
Climbs-has_dotdot p c = rw c.is_path (up c.front c.behind c.ends)
  where
    up : (a b : Bytes) → Ends b → any_dotdot (components (a ++ slash ∷ (dotdot ++ b))) ≡ true
    up a _ at_end =
        rw (components-append_slash a dotdot, components-dotdot, any_dotdot-append, any_dotdot_one)
          (either_true (any_dotdot (components a)))
    up a _ (at_slash rest) =
        rw
          (
            components-append_slash a (dotdot ++ slash ∷ rest),
            components-append_slash dotdot rest,
            components-dotdot,
            any_dotdot-append (components a),
            any_dotdot-append (dotdot ∷ []) (components rest),
            any_dotdot_one,
          )
          (either_true (any_dotdot (components a)))

-- The bytes read so far have become a component "..".
emit-dotdot : (r : Bytes) → any_dotdot (emit r) ≡ true → r ≡ dotdot
unfolding any_dotdot emit
emit-dotdot r h = ground (arith, eq_bytes_iff r dotdot)

or-cases : (a b : Bool) → (a || b) ≡ true → (a ≡ true) ⊎ (b ≡ true)
or-cases true b h = inl refl
or-cases false b h = inr h

scan-Climbs : (r cs : Bytes) → any_dotdot (scan r cs) ≡ true → Climbs (slash ∷ (r ++ cs))
unfolding scan
scan-Climbs r [] h = record {
  front = [];
  behind = [];
  is_path = ap (λ x. slash ∷ (x ++ [])) (emit-dotdot r h);
  ends = at_end;
}
scan-Climbs r (c ∷ cs) h = elim (Bool-cases (c == slash)) [
  | inl e ↦
      let is_slash : c ≡ slash = ground arith in
      let split = rw (e, any_dotdot-append) at h in
      elim (or-cases _ _ split) [
        | inl d ↦ record {
          front = [];
          behind = c ∷ cs;
          is_path = ap (λ x. slash ∷ (x ++ c ∷ cs)) (emit-dotdot r d);
          ends = rw is_slash (at_slash cs);
        }
        | inr d ↦
            let up = scan-Climbs [] cs d in
            record {
              front = slash ∷ (r ++ up.front);
              behind = up.behind;
              is_path =
                  rw is_slash (ap (λ x. slash ∷ (r ++ x)) up.is_path)
                  ∙ ap (λ x. slash ∷ x) (sym (append_assoc r up.front _));
              ends = up.ends;
            }
      ]
  | inr e ↦
      subst (λ x. Climbs (slash ∷ x)) (append_assoc r (c ∷ []) cs)
        (scan-Climbs (r ++ c ∷ []) cs (rw e at h))
]

has_dotdot-Climbs : (p : Bytes) → is_absolute p ≡ true → has_dotdot p ≡ true → Climbs p
unfolding has_dotdot is_absolute components scan emit
has_dotdot-Climbs [] a h = absurd (cc a)
has_dotdot-Climbs (c ∷ p) a h =
    let is_slash : c ≡ slash = ground arith in rw is_slash (scan-Climbs [] p (rw a at h))

no_nul : (p : Bytes) → contains_nul p ≡ false → All (λ c. c ≢ 0) p
unfolding contains_nul vhdp.Base.has_byte
no_nul [] h = tt
no_nul (c ∷ p) h = ((λ e. ground arith), no_nul p (ground arith))

contains_no_nul : (p : Bytes) → All (λ c. c ≢ 0) p → contains_nul p ≡ false
unfolding contains_nul vhdp.Base.has_byte
contains_no_nul [] h = refl
contains_no_nul (c ∷ p) h = ground (arith, h.0, contains_no_nul p h.1)

starts_with_slash : (p : Bytes) → is_absolute p ≡ true → (rest : Bytes) × (p ≡ slash ∷ rest)
unfolding is_absolute
starts_with_slash [] h = absurd (cc h)
starts_with_slash (c ∷ p) h = (p, ap (λ x. x ∷ p) (ground arith))

-- The tests of `check_guest_path`.
passes :
    (p what : Bytes)
    → (check_guest_path p what).code ≡ ok
    → (contains_nul p ≡ false) × (is_absolute p ≡ true) × (length p < 4096) × (has_dotdot p ≡ false)
unfolding check_guest_path
passes p what h = (ground arith, ground arith, ground arith, ground arith)

accepted : (p what : Bytes) → (check_guest_path p what).code ≡ ok → IsGuestPath p
accepted p what h =
    let t = passes p what h in
    let absolute = starts_with_slash p t.1 in
    record {
      has_no_nul = no_nul p t.0;
      rest = absolute.0;
      starts_at_root = absolute.1;
      fits = t.2;
      has_no_dotdot = λ c. cc (Climbs-has_dotdot p c, t.3);
    }

check_guest_path_ok :
    (rest what : Bytes)
    → contains_nul (slash ∷ rest) ≡ false
    → length (slash ∷ rest) < 4096
    → has_dotdot (slash ∷ rest) ≡ false
    → (check_guest_path (slash ∷ rest) what).code ≡ ok
unfolding check_guest_path is_absolute
check_guest_path_ok rest what n l d = ground (arith, n, l, d)

Climbs-not : (rest : Bytes) → ¬ Climbs (slash ∷ rest) → has_dotdot (slash ∷ rest) ≡ false
Climbs-not rest never = elim (Bool-cases (has_dotdot (slash ∷ rest))) [
  | inl e ↦ absurd (never (has_dotdot-Climbs (slash ∷ rest) (unfold is_absolute in refl) e))
  | inr e ↦ e
]

-- A path is accepted exactly when its first byte is a slash, it is shorter than 4096 bytes, no byte
-- of it is 0, and nowhere in it stands "/.." with nothing or a slash behind.
pub check_guest_path_iff : (p what : Bytes) → ((check_guest_path p what).code ≡ ok) ↔ IsGuestPath p
check_guest_path_iff p what = (accepted p what, back)
  where
    back : IsGuestPath p → (check_guest_path p what).code ≡ ok
    back g =
        let at_root = g.starts_at_root in
        rw at_root (
          check_guest_path_ok g.rest what
            (contains_no_nul (slash ∷ g.rest) (rw at_root at g.has_no_nul)) (rw at_root at g.fits)
            (Climbs-not g.rest (λ c. g.has_no_dotdot (subst Climbs (sym at_root) c))))

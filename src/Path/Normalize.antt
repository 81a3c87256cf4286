-- ===== src/Path/Normalize.antt =====
-- `normalize_lexical` and `has_dotdot`.
use vhdp.Base.{
  false, List, [], ◌∷◌, ◌++◌, ◌≡◌, ◌≢◌, refl, sym, ap, ◌∙◌, arith, Bytes, eq_bytes, eq_bytes_iff,
  ◌==◌, if◌then◌else◌, All, All-append, All-pop_back, Bool-cases, inl, inr, append-nil,
  append_assoc, pop_back, pop_back-concat,
}
use vhdp.Path.{
  emit, slash, dotdot, scan, components, build, any_dotdot, apply_dotdots, normalize_lexical,
}
use vhdp.Path.Components.{
  IsComponent, emit-IsComponent, scan_last, components-IsComponent, components-build,
}

-- A component that names an entry of its directory: neither "." nor "..".
pub record IsName (c : Bytes) : Type 0 where
  pub is_component : IsComponent c
  pub ne_dotdot : c ≢ dotdot

pub All-IsComponent : (cs : List Bytes) → All IsName cs → All IsComponent cs
All-IsComponent [] h = tt
All-IsComponent (c ∷ cs) h = (h.0.is_component, All-IsComponent cs h.1)

-- A path in normal form: "/", or names each behind one slash.
abbrev pub IsNormal : Bytes → Type 0
IsNormal p = (cs : List Bytes) × All IsName cs × (p ≡ build cs)

pub apply_dotdots-IsName :
    (stack cs : List Bytes)
    → All IsName stack
    → All IsComponent cs
    → All IsName (apply_dotdots stack cs)
unfolding apply_dotdots
apply_dotdots-IsName stack [] h k = h
apply_dotdots-IsName stack (c ∷ cs) h k = elim (Bool-cases (eq_bytes c dotdot)) [
  | inl e ↦ rw e (apply_dotdots-IsName (pop_back stack) cs (All-pop_back IsName stack h) k.1)
  | inr e ↦
      let name : IsName c = record {
        is_component = k.0;
        ne_dotdot = λ p. ground (arith, eq_bytes_iff c dotdot);
      } in
      rw e (
        apply_dotdots-IsName (stack ++ c ∷ []) cs (All-append IsName stack (c ∷ []) h (name, tt))
          k.1)
]

apply_dotdots_names :
    (stack cs : List Bytes) → any_dotdot cs ≡ false → apply_dotdots stack cs ≡ stack ++ cs
unfolding apply_dotdots any_dotdot
apply_dotdots_names stack [] h = sym (append-nil stack)
apply_dotdots_names stack (c ∷ cs) h =
    ground (arith, apply_dotdots_names (stack ++ c ∷ []) cs, append_assoc stack (c ∷ []) cs)

any_dotdot_names : (cs : List Bytes) → All IsName cs → any_dotdot cs ≡ false
unfolding any_dotdot
any_dotdot_names [] h = refl
any_dotdot_names (c ∷ cs) h =
    ground (arith, any_dotdot_names cs h.1, h.0.ne_dotdot, eq_bytes_iff c dotdot)

abbrev resolved : Bytes → List Bytes
resolved p = apply_dotdots [] (components p)

resolved-IsName : (p : Bytes) → All IsName (resolved p)
resolved-IsName p = apply_dotdots-IsName [] (components p) tt (components-IsComponent p)

components-normalize_lexical : (p : Bytes) → components (normalize_lexical p) ≡ resolved p
unfolding normalize_lexical
components-normalize_lexical p =
    components-build (resolved p) (All-IsComponent (resolved p) (resolved-IsName p))

resolved-normalize_lexical : (p : Bytes) → resolved (normalize_lexical p) ≡ resolved p
resolved-normalize_lexical p =
    rw components-normalize_lexical
      (apply_dotdots_names [] (resolved p) (any_dotdot_names (resolved p) (resolved-IsName p)))

-- Whatever bytes it is given, `normalize_lexical` returns "/" or a path of names each behind one
-- slash, with no empty component, no "." and no "..".
pub normalize_lexical-IsNormal : (p : Bytes) → IsNormal (normalize_lexical p)
unfolding normalize_lexical
normalize_lexical-IsNormal p = (resolved p, resolved-IsName p, refl)

scan-append_slash : (r p q : Bytes) → scan r (p ++ slash ∷ q) ≡ scan r p ++ scan [] q
unfolding scan
scan-append_slash r [] q = refl
scan-append_slash r (c ∷ p) q = elim (Bool-cases (c == slash)) [
  | inl e ↦ rw (e, scan-append_slash [] p q, append_assoc)
  | inr e ↦ rw (e, scan-append_slash (r ++ c ∷ []) p q)
]

apply_dotdots-append :
    (stack a b : List Bytes)
    → apply_dotdots stack (a ++ b) ≡ apply_dotdots (apply_dotdots stack a) b
unfolding apply_dotdots
apply_dotdots-append stack [] b = refl
apply_dotdots-append stack (c ∷ a) b =
    apply_dotdots-append (if eq_bytes c dotdot then pop_back stack else stack ++ c ∷ []) a b

normalize_lexical-append :
    (p q : Bytes)
    → normalize_lexical (normalize_lexical p ++ slash ∷ q) ≡ normalize_lexical (p ++ slash ∷ q)
unfolding components
normalize_lexical-append p q =
    let split = λ (a : Bytes). scan-append_slash [] a q in
    let two = λ (a : Bytes). apply_dotdots-append [] (components a) (components q) in
    unfold normalize_lexical in
    ap build (
      ap (apply_dotdots []) (split (normalize_lexical p))
      ∙ two (normalize_lexical p)
      ∙ ap (λ s. apply_dotdots s (components q)) (resolved-normalize_lexical p)
      ∙ sym (two p)
      ∙ ap (apply_dotdots []) (sym (split p)))

pub components-append_slash :
    (p q : Bytes) → components (p ++ slash ∷ q) ≡ components p ++ components q
unfolding components
components-append_slash p q = scan-append_slash [] p q

components-IsName : (c : Bytes) → IsName c → components c ≡ c ∷ []
unfolding components
components-IsName c h = scan_last [] c h.is_component.no_slash ∙ emit-IsComponent c h.is_component

pub components-dotdot : components dotdot ≡ dotdot ∷ []
unfolding components scan emit eq_bytes
components-dotdot = refl

-- A name and ".." behind it leave the stack as it was, and ".." leaves an empty stack empty.
apply_dotdots_up :
    (stack : List Bytes) (c : Bytes)
    → IsName c
    → (apply_dotdots stack (c ∷ dotdot ∷ []) ≡ stack) × (apply_dotdots [] (dotdot ∷ []) ≡ [])
unfolding apply_dotdots eq_bytes
apply_dotdots_up stack c h =
    let name : eq_bytes c dotdot ≡ false = ground (arith, h.ne_dotdot, eq_bytes_iff c dotdot) in
    (rw name (pop_back-concat stack c), refl)

components_empty : components [] ≡ []
unfolding components scan emit
components_empty = refl

same_stack : (a b : Bytes) → resolved a ≡ resolved b → normalize_lexical a ≡ normalize_lexical b
unfolding normalize_lexical
same_stack a b h = ap build h

-- The directory may be normalised first: that gives the same result as normalising the whole path,
-- which may climb out of the rest. A name `c` (not "." or "..", and without slashes) and the ".."
-- behind it cancel out between any two parts of a path, and a ".." at the start of an absolute path
-- is dropped.
pub normalize_lexical-dotdot :
    (p q c : Bytes)
    → IsName c
    → (normalize_lexical (normalize_lexical p ++ slash ∷ q) ≡ normalize_lexical (p ++ slash ∷ q))
      × (normalize_lexical (p ++ slash ∷ (c ++ slash ∷ (dotdot ++ slash ∷ q)))
          ≡ normalize_lexical (p ++ slash ∷ q))
      × (normalize_lexical (slash ∷ (dotdot ++ slash ∷ q)) ≡ normalize_lexical (slash ∷ q))
normalize_lexical-dotdot p q c h =
    let up = apply_dotdots_up (resolved p) c h in
    let cs : List Bytes = components q in
    let long : components (p ++ slash ∷ (c ++ slash ∷ (dotdot ++ slash ∷ q)))
        ≡ components p ++ ((c ∷ dotdot ∷ []) ++ cs) =
      components-append_slash p (c ++ slash ∷ (dotdot ++ slash ∷ q))
      ∙ ap (λ l. components p ++ l)
          (components-append_slash c (dotdot ++ slash ∷ q)
            ∙ rw (components-IsName c h, components-append_slash dotdot q, components-dotdot)
                refl) in
    let first : components (slash ∷ (dotdot ++ slash ∷ q)) ≡ (dotdot ∷ []) ++ cs =
      components-append_slash [] (dotdot ++ slash ∷ q)
      ∙ rw (components_empty, components-append_slash dotdot q, components-dotdot) refl in
    let plain : components (slash ∷ q) ≡ cs =
      components-append_slash [] q ∙ rw components_empty refl in
    (
      normalize_lexical-append p q,
      same_stack _ _ (
          ap (apply_dotdots []) long
          ∙ apply_dotdots-append [] (components p) ((c ∷ dotdot ∷ []) ++ cs)
          ∙ apply_dotdots-append (resolved p) (c ∷ dotdot ∷ []) cs
          ∙ ap (λ s. apply_dotdots s cs) up.0
          ∙ sym (apply_dotdots-append [] (components p) cs)
          ∙ ap (apply_dotdots []) (sym (components-append_slash p q))),
      same_stack _ _ (
          ap (apply_dotdots []) first
          ∙ apply_dotdots-append [] (dotdot ∷ []) cs
          ∙ ap (λ s. apply_dotdots s cs) up.1
          ∙ ap (apply_dotdots []) (sym plain)),
    )

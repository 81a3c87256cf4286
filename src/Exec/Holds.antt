-- ===== src/Exec/Holds.antt =====
-- What holds of the result of a step of `plan`, if it has one.
use vhdp.Base.{ℕ, Bool, true, false, Option, some, none, ◌≡◌, refl, subst}
use vhdp.Resolver.Kernel.{Reply, ok, err}
use vhdp.Exec.Examine.{Try, done, fail, undefined, ◌>>=◌, asked, refuse, allowed, Diag}

pub data Holds {A : Type 0} (P : A → Type 0) : Try A → Type 0 where
  holds : (a : A) → P a → Holds P (done a)
  fails : (e : ℕ) (d : Option Diag) → Holds P (fail e d)
  no_result : Holds P undefined

pub Holds-bind :
    {A B : Type 0} (P : A → Type 0) (Q : B → Type 0) (o : Try A) (f : A → Try B)
    → Holds P o
    → ((a : A) → P a → Holds Q (f a))
    → Holds Q (o >>= f)
Holds-bind P Q _ f (holds a p) g = g a p
Holds-bind P Q _ f (fails e d) g = fails e d
Holds-bind P Q _ f no_result g = no_result

pub Holds-asked : {A : Type 0} (o : Reply A) → Holds (λ a. o ≡ ok a) (asked o)
unfolding asked
Holds-asked (ok a) = holds a refl
Holds-asked (err e) = fails e none

pub Holds-refuse :
    {A : Type 0} (P : A → Type 0) (b : Bool) (e : ℕ) (d : Option Diag) (go : Try A)
    → (b ≡ false → Holds P go)
    → Holds P (refuse b e d go)
unfolding refuse
Holds-refuse P true e d go h = fails e d
Holds-refuse P false e d go h = h refl

pub Holds-allowed :
    {A : Type 0} (P : A → Type 0) (o : Option ℕ) (go : Try A)
    → (o ≡ none → Holds P go)
    → Holds P (allowed o go)
unfolding allowed
Holds-allowed P none go h = h refl
Holds-allowed P (some e) go h = fails e none

-- Where nothing is asked of the result.
pub Holds-any : {A : Type 0} (P : A → Type 0) (o : Try A) → ((a : A) → P a) → Holds P o
Holds-any P (done a) h = holds a (h a)
Holds-any P (fail e d) h = fails e d
Holds-any P undefined h = no_result

pub Holds-done : {A : Type 0} (P : A → Type 0) {o : Try A} (a : A) → Holds P o → o ≡ done a → P a
Holds-done P a (holds b p) e = subst P (cc e) p
Holds-done P a (fails n d) e = absurd (cc e)
Holds-done P a no_result e = absurd (cc e)

-- The cases of a step, with the equation.
pub data Outcome {A : Type 0} (o : Try A) : Type 0 where
  succeeds : (a : A) → o ≡ done a → Outcome o
  refuses : (e : ℕ) (d : Option Diag) → o ≡ fail e d → Outcome o
  strays : o ≡ undefined → Outcome o

pub Try-cases : {A : Type 0} (o : Try A) → Outcome o
Try-cases (done a) = succeeds a refl
Try-cases (fail e d) = refuses e d refl
Try-cases undefined = strays refl

pub Holds-map :
    {A : Type 0} (P Q : A → Type 0) (o : Try A) → ((a : A) → P a → Q a) → Holds P o → Holds Q o
Holds-map P Q _ f (holds a p) = holds a (f a p)
Holds-map P Q _ f (fails e d) = fails e d
Holds-map P Q _ f no_result = no_result

-- ===== src/Exec/Shebang/Line.antt =====
-- The first line of a script is read back.
use vhdp.Base.{
  ℕ, ◌&&◌, Bool, true, false, [], ◌∷◌, ◌++◌, Option, some, Bytes, codes, is_empty, starts_with,
  last?, ◌≡◌, refl, ◌∙◌, drop-length_append, arith,
}
use vhdp.Exec.Shebang.{
  newline, is_space, is_trimmed, take_while, drop_while, trim_end, in_line, in_interp, is_not_nul,
  shebang_arg, parse_shebang,
}

-- Whether all bytes pass a test.
unfoldable pub all : (ℕ → Bool) → Bytes → Bool
all p [] = true
all p (c ∷ s) = p c && all p s

all-append : (p : ℕ → Bool) (a b : Bytes) → all p a ≡ true → all p b ≡ true → all p (a ++ b) ≡ true
unfolding all
all-append p [] b ha hb = hb
all-append p (c ∷ a) b ha hb = ground (arith, all-append p a b)

take_while-stop :
    (p : ℕ → Bool) (a : Bytes) (c : ℕ) (b : Bytes)
    → all p a ≡ true
    → p c ≡ false
    → take_while p (a ++ c ∷ b) ≡ a
unfolding all take_while
take_while-stop p [] c b h e = rw e refl
take_while-stop p (x ∷ a) c b h e = ground (arith, take_while-stop p a c b)

take_while-whole : (p : ℕ → Bool) (a : Bytes) → all p a ≡ true → take_while p a ≡ a
unfolding all take_while
take_while-whole p [] h = refl
take_while-whole p (x ∷ a) h = ground (arith, take_while-whole p a)

drop_while-append :
    (p : ℕ → Bool) (a b : Bytes) → all p a ≡ true → drop_while p (a ++ b) ≡ drop_while p b
unfolding all drop_while
drop_while-append p [] b h = refl
drop_while-append p (x ∷ a) b h = ground (arith, drop_while-append p a b)

drop_while-stop : (p : ℕ → Bool) (c : ℕ) (b : Bytes) → p c ≡ false → drop_while p (c ∷ b) ≡ c ∷ b
unfolding drop_while
drop_while-stop p c b e = rw e refl

trim_end-all : (p : ℕ → Bool) (a : Bytes) → all p a ≡ true → trim_end p a ≡ []
unfolding all trim_end
trim_end-all p [] h = refl
trim_end-all p (x ∷ a) h = ground (arith, trim_end-all p a)

trim_end-append :
    (p : ℕ → Bool) (a b : Bytes) (z : ℕ)
    → last? a ≡ some z
    → p z ≡ false
    → all p b ≡ true
    → trim_end p (a ++ b) ≡ a
unfolding trim_end
trim_end-append p [] b z l e h = absurd (cc l)
trim_end-append p (x ∷ []) b z l e h =
    let not_p : p x ≡ false = cc (l, e) in rw (trim_end-all p b h, not_p) refl
trim_end-append p (x ∷ y ∷ a) b z l e h = rw (trim_end-append p (y ∷ a) b z l e h) refl

take_while-append :
    (p : ℕ → Bool) (a b : Bytes) → all p a ≡ true → take_while p (a ++ b) ≡ a ++ take_while p b
unfolding all take_while
take_while-append p [] b h = refl
take_while-append p (x ∷ a) b h = ground (arith, take_while-append p a b)

all-imp :
    (p q : ℕ → Bool) (a : Bytes)
    → ((c : ℕ) → p c ≡ true → q c ≡ true)
    → all p a ≡ true
    → all q a ≡ true
unfolding all
all-imp p q [] f h = refl
all-imp p q (c ∷ a) f h = ground (arith, f c, all-imp p q a f)

-- The name of an interpreter: not empty, and without spaces, tabs, NULs and newlines.
pub record IsInterp (interp : Bytes) : Type 0 where
  pub not_empty : is_empty interp ≡ false
  pub one_word : all in_interp interp ≡ true
  pub one_line : all in_line interp ≡ true

-- An argument: it starts and ends with a byte that is not trimmed, and has no NUL and no newline.
pub record IsArgument (arg : Bytes) : Type 0 where
  pub first : ℕ
  pub others : Bytes
  pub starts : arg ≡ first ∷ others
  pub no_blank : is_space first ≡ false
  pub last : ℕ
  pub ends : last? arg ≡ some last
  pub not_trimmed : is_trimmed last ≡ false
  pub no_nul : all is_not_nul arg ≡ true
  pub one_line : all in_line arg ≡ true

is_trimmed-in_line : (c : ℕ) → is_trimmed c ≡ true → in_line c ≡ true
is_trimmed-in_line c h = ground arith

is_space-trimmed : (c : ℕ) → is_space c ≡ true → is_trimmed c ≡ true
is_space-trimmed c h = ground arith

drop_while-word :
    (a b : Bytes)
    → is_empty a ≡ false
    → all in_interp a ≡ true
    → drop_while is_space (a ++ b) ≡ a ++ b
unfolding all
drop_while-word [] b e h = absurd (cc e)
drop_while-word (c ∷ a) b e h = drop_while-stop is_space c (a ++ b) (ground arith)

shebang_arg-trim :
    (gap arg trail : Bytes)
    → all is_space gap ≡ true
    → IsArgument arg
    → all is_trimmed trail ≡ true
    → shebang_arg (gap ++ (arg ++ trail)) ≡ some arg
unfolding shebang_arg
shebang_arg-trim gap arg trail g a h =
    let front : drop_while is_space (arg ++ trail) ≡ arg ++ trail =
      rw a.starts (drop_while-stop is_space a.first (a.others ++ trail) a.no_blank) in
    let full : is_empty arg ≡ false = rw a.starts refl in
    rw
      (
        drop_while-append is_space gap (arg ++ trail) g,
        front,
        trim_end-append is_trimmed arg trail a.last a.ends a.not_trimmed h,
        take_while-whole is_not_nul arg a.no_nul,
        full,
      )
      refl

all-cons : (p : ℕ → Bool) (c : ℕ) (s : Bytes) → p c ≡ true → all p s ≡ true → all p (c ∷ s) ≡ true
unfolding all
all-cons p c s h hs = ground arith

-- The start of a script, up to and behind its first newline.
unfoldable pub script_line : Bytes → Bytes → Bytes → Bytes → Bytes → Bytes → Bytes
script_line blank interp gap arg trail rest =
    codes "#!" ++ (blank ++ (interp ++ (gap ++ (arg ++ (trail ++ newline ∷ rest)))))

parse_shebang-steps :
    (s line interp behind : Bytes) (arg : Option Bytes)
    → take_while in_line s ≡ line
    → drop_while is_space line ≡ interp ++ behind
    → take_while in_interp (interp ++ behind) ≡ interp
    → is_empty interp ≡ false
    → shebang_arg behind ≡ arg
    → parse_shebang (b'#' ∷ b'!' ∷ s) ≡ some (interp, arg)
unfolding parse_shebang starts_with
parse_shebang-steps s line interp behind arg hl ht hw he ha =
    rw (hl, ht, hw, he, drop-length_append interp behind, ha) refl

-- What `parse_shebang` reads of a script's first line: behind "#!" and any blanks, the interpreter up
-- to the next blank, and the rest of the line, without the blanks around it and any blanks and
-- carriage returns at its end, as one argument, blanks inside it included. This holds of an
-- interpreter without blanks and NULs, and of an argument that starts with no blank, ends with none
-- and no carriage return, and has no NUL.
pub parse_shebang-line :
    (blank interp gap arg trail rest : Bytes) (g : ℕ)
    → all is_space blank ≡ true
    → IsInterp interp
    → is_space g ≡ true
    → all is_space gap ≡ true
    → IsArgument arg
    → all is_trimmed trail ≡ true
    → parse_shebang (script_line blank interp (g ∷ gap) arg trail rest) ≡ some (interp, some arg)
unfolding script_line
parse_shebang-line blank interp gap arg trail rest g hb hi hg hgap ha ht =
    let space_line : (c : ℕ) → is_space c ≡ true → in_line c ≡ true =
      λ c h. is_trimmed-in_line c (is_space-trimmed c h) in
    let gaps = all-cons is_space g gap hg hgap in
    let behind : Bytes = (g ∷ gap) ++ (arg ++ trail) in
    let line : take_while in_line
          (blank ++ (interp ++ ((g ∷ gap) ++ (arg ++ (trail ++ newline ∷ rest)))))
        ≡ blank ++ (interp ++ behind) =
      rw
        (
          take_while-append in_line blank
              (interp ++ ((g ∷ gap) ++ (arg ++ (trail ++ newline ∷ rest))))
              (all-imp is_space in_line blank space_line hb),
          take_while-append in_line interp ((g ∷ gap) ++ (arg ++ (trail ++ newline ∷ rest)))
              hi.one_line,
          take_while-append in_line (g ∷ gap) (arg ++ (trail ++ newline ∷ rest))
              (all-imp is_space in_line (g ∷ gap) space_line gaps),
          take_while-append in_line arg (trail ++ newline ∷ rest) ha.one_line,
          take_while-stop in_line trail newline rest
              (all-imp is_trimmed in_line trail is_trimmed-in_line ht) refl,
        )
        refl in
    let word : take_while in_interp (interp ++ behind) ≡ interp =
      take_while-stop in_interp interp g (gap ++ (arg ++ trail)) hi.one_word (ground arith) in
    parse_shebang-steps _ _ interp behind (some arg) line
      (drop_while-append is_space blank (interp ++ behind) hb
        ∙ drop_while-word interp behind hi.not_empty hi.one_word)
      word hi.not_empty (shebang_arg-trim (g ∷ gap) arg trail gaps ha ht)

-- ===== src/Json/Quote.antt =====
-- What `json_quote` writes, read back by the validator.
use vhdp.Base.{
  ◌⊎◌, inr, inl, ℕ, zero, suc, ◌+◌, ◌-◌, ◌*◌, ◌/◌, ◌%◌, ◌≤◌, true, false, [], ◌∷◌, ◌++◌, some, none,
  Bytes, codes, length, ltb, ◌==◌, ◌≡◌, refl, ap, ◌∙◌, arith, Bool-cases, Option-cases,
}
use vhdp.Json.{
  code_point, is_refused, seq_len, utf8_seq_len, hex_digit, short_escape, escape_step, escape,
  json_escape_into, json_quote,
}
use vhdp.Json.Validator.{
  Place, between, behind_backslash, in_sequence, in_digits, closes, refuses, goes, string_from,
  string_step, between_step, is_escape, is_hex, check, json_validate, ws, lead_of,
}

-- A sequence that is copied is the same sequence in what is written.
code_point-escape :
    (n cp : ℕ) (s t : Bytes) {x : ℕ}
    → code_point n cp s ≡ some x
    → (code_point n cp (escape n s ++ t) ≡ some x) × (n ≤ length s)
unfolding code_point escape
code_point-escape zero cp s t h = (h, omega arith)
code_point-escape (suc n) cp [] t h = cc
code_point-escape (suc n) cp (c ∷ s) t h = elim (Bool-cases (c / 64 == 2)) [
  | inl e ↦
      let ih = code_point-escape n (cp * 64 + c % 64) s t (rw e at h) in (rw e ih.0, omega arith)
  | inr e ↦ cc (rw e at h)
]

seq_len-escape :
    (k cp n : ℕ) (s t : Bytes)
    → seq_len k cp s ≡ suc n
    → (seq_len k cp (escape n s ++ t) ≡ suc n) × (n ≤ length s)
unfolding seq_len
seq_len-escape k cp n s t h = elim (Option-cases (code_point (k - 1) cp s)) [
  | inl e ↦ cc (rw (e, seq_len) at h)
  | inr (x, e) ↦
      let h' = rw (e, seq_len) at h in
      elim (Bool-cases (is_refused k x)) [
        | inl r ↦ cc (rw r at h')
        | inr r ↦
            let e' : k ≡ suc n = rw r at h' in
            let m : k - 1 ≡ n = omega arith in
            let p = code_point-escape n cp s t (rw m at e) in (rw (seq_len, m, p.0, r) e', p.1)
      ]
]

utf8_seq_len-escape :
    (c n : ℕ) (s t : Bytes)
    → utf8_seq_len (c ∷ s) ≡ suc n
    → (utf8_seq_len (c ∷ escape n s ++ t) ≡ suc n) × (n ≤ length s)
unfolding utf8_seq_len
utf8_seq_len-escape c n s t h = ground (
  arith,
  seq_len-escape 2 (c % 32) n s t,
  seq_len-escape 3 (c % 16) n s t,
  seq_len-escape 4 (c % 8) n s t,
)

len_cases : (n : ℕ) → (n ≡ 0) ⊎ ((m : ℕ) × (n ≡ suc m))
len_cases zero = inl refl
len_cases (suc m) = inr (m, refl)

-- The forms of what is written at one byte.
data Shape (c : ℕ) (s : Bytes) : Bytes × ℕ → Type 0 where
  short : {e : ℕ} → is_escape e ≡ true → Shape c s (b'\\' ∷ e ∷ [], 0)
  digits :
      {h l : ℕ} → is_hex h ≡ true → is_hex l ≡ true → Shape c s (codes "\\u00" ++ h ∷ l ∷ [], 0)
  replaced : Shape c s (codes "\\ufffd", 0)
  kept :
      {n : ℕ}
      → (c == b'"') ≡ false
      → ltb c 0x20 ≡ false
      → (c == b'\\') ≡ false
      → utf8_seq_len (c ∷ s) ≡ suc n
      → Shape c s (c ∷ [], n)

hex_digit-is_hex : (n : ℕ) → is_hex (hex_digit (n % 16)) ≡ true
unfolding is_hex hex_digit
hex_digit-is_hex n = ground arith

short_escape-is_escape : (c : ℕ) {e : ℕ} → short_escape c ≡ some e → is_escape e ≡ true
unfolding short_escape is_escape
short_escape-is_escape c {e = e} h = ground arith

short_escape-none : (c : ℕ) → short_escape c ≡ none → ((c == b'"') ≡ false) × ((c == b'\\') ≡ false)
unfolding short_escape
short_escape-none c h = ground arith

escape_step-Shape : (c : ℕ) (s : Bytes) → Shape c s (escape_step c s)
unfolding escape_step
escape_step-Shape c s = elim (Option-cases (short_escape c)) [
  | inr (e, h) ↦ rw (h, escape_step) (short (short_escape-is_escape c h))
  | inl h ↦
      rw (h, escape_step)
        (elim (Bool-cases (ltb c 0x20)) [
          | inl l ↦ rw l (digits (hex_digit-is_hex (c / 16)) (hex_digit-is_hex c))
          | inr l ↦ rw l (elim (len_cases (utf8_seq_len (c ∷ s))) [
            | inl z ↦ rw z replaced
            | inr (n, z) ↦ rw z (kept (short_escape-none c h).0 l (short_escape-none c h).1 z)
          ])
        ])
]

-- Between characters, or with so many bytes of a sequence to come.
abbrev place : ℕ → Place
place zero = between
place (suc n) = in_sequence n

string_step-escape :
    (e : ℕ) (r : Bytes) → is_escape e ≡ true → string_step behind_backslash e r ≡ goes between
unfolding string_step is_escape
string_step-escape e r h = ground arith

string_from-goes :
    (p p' : Place) (c : ℕ) (s : Bytes)
    → string_step p c s ≡ goes p'
    → string_from p (c ∷ s) ≡ string_from p' s
unfolding string_from
string_from-goes p p' c s h =
    ap (λ n. elim n [ closes ↦ some s | refuses ↦ none | goes p'' ↦ string_from p'' s ]) h

string_from-short :
    (e : ℕ) (r : Bytes)
    → is_escape e ≡ true
    → string_from between (b'\\' ∷ e ∷ r) ≡ string_from between r
unfolding string_step between_step
string_from-short e r h =
    string_from-goes between behind_backslash b'\\' (e ∷ r) refl
    ∙ string_from-goes behind_backslash between e r (string_step-escape e r h)

string_step-digits :
    (n c : ℕ) (r : Bytes)
    → is_hex c ≡ true
    → (string_step (in_digits (suc n)) c r ≡ goes (in_digits n))
      × (string_step (in_digits zero) c r ≡ goes between)
unfolding string_step
string_step-digits n c r h = ground arith

string_from-digits :
    (h l : ℕ) (r : Bytes)
    → is_hex h ≡ true
    → is_hex l ≡ true
    → string_from between (codes "\\u00" ++ h ∷ l ∷ r) ≡ string_from between r
unfolding string_from string_step between_step is_hex
string_from-digits h l r eh el =
    string_from-goes (in_digits 1) (in_digits 0) h (l ∷ r) (string_step-digits 0 h (l ∷ r) eh).0
    ∙ string_from-goes (in_digits 0) between l r (string_step-digits 0 l r el).1

string_from-replaced :
    (r : Bytes) → string_from between (codes "\\ufffd" ++ r) ≡ string_from between r
unfolding string_from string_step between_step is_hex
string_from-replaced r = refl

between_step-kept :
    (c n : ℕ) (r : Bytes)
    → (c == b'"') ≡ false
    → ltb c 0x20 ≡ false
    → (c == b'\\') ≡ false
    → utf8_seq_len (c ∷ r) ≡ suc n
    → string_step between c r ≡ goes (place n)
unfolding string_step between_step
between_step-kept c zero r q w b u = ground arith
between_step-kept c (suc n) r q w b u = ground arith

string_from-kept :
    (c n : ℕ) (r : Bytes)
    → (c == b'"') ≡ false
    → ltb c 0x20 ≡ false
    → (c == b'\\') ≡ false
    → utf8_seq_len (c ∷ r) ≡ suc n
    → string_from between (c ∷ r) ≡ string_from (place n) r
string_from-kept c n r q w b u =
    string_from-goes between (place n) c r (between_step-kept c n r q w b u)

in_sequence-place : (n c : ℕ) (r : Bytes) → string_step (in_sequence n) c r ≡ goes (place n)
unfolding string_step
in_sequence-place zero c r = refl
in_sequence-place (suc n) c r = refl

-- One step of the loop, where the rest is read.
string_from-Shape :
    (c : ℕ) (s t : Bytes) {w : Bytes × ℕ}
    → Shape c s w
    → ((n : ℕ) → n ≤ length s → string_from (place n) (escape n s ++ b'"' ∷ t) ≡ some t)
    → string_from between ((w.0 ++ escape w.1 s) ++ b'"' ∷ t) ≡ some t
string_from-Shape c s t (short e) ih = string_from-short _ _ e ∙ ih 0 (omega arith)
string_from-Shape c s t (digits h l) ih = string_from-digits _ _ _ h l ∙ ih 0 (omega arith)
string_from-Shape c s t replaced ih = string_from-replaced _ ∙ ih 0 (omega arith)
string_from-Shape c s t (kept {n = n} q w b u) ih =
    let p = utf8_seq_len-escape c n s (b'"' ∷ t) u in
    string_from-kept c n (escape n s ++ b'"' ∷ t) q w b p.0 ∙ ih n p.1

-- The bytes written for the rest of a text, behind a closing quote.
string_from-escape :
    (n : ℕ) (s t : Bytes) → n ≤ length s → string_from (place n) (escape n s ++ b'"' ∷ t) ≡ some t
unfolding escape string_from string_step between_step
string_from-escape zero [] t h = refl
string_from-escape (suc n) [] t h = absurd (omega arith)
string_from-escape (suc n) (c ∷ s) t h =
    string_from-goes (in_sequence n) (place n) c (escape n s ++ b'"' ∷ t) (in_sequence-place n c _)
    ∙ string_from-escape n s t (omega arith)
string_from-escape zero (c ∷ s) t h =
    string_from-Shape c s t (escape_step-Shape c s) (λ n. string_from-escape n s t)

-- Whatever bytes `json_quote` is given, valid UTF-8 or not, what it writes is a JSON text that
-- `json_validate` accepts.
pub json_validate-json_quote : (s : Bytes) → json_validate (json_quote s) ≡ true
unfolding json_validate json_quote json_escape_into check ws lead_of
json_validate-json_quote s =
    ap (λ o. elim o [ none ↦ false | some rest ↦ elim (ws rest) [ [] ↦ true | _ ∷ _ ↦ false ] ])
      (string_from-escape 0 s [] (omega arith))

-- ===== src/Json/Dom/Quote.antt =====
-- Quoted texts read back.
use vhdp.Base.{
  ◌>>=◌, Option-cases, ℕ-cases, ltb→lt, ℕ, zero, suc, ◌/◌, ◌<◌, Bool, true, false, ◌&&◌, [], ◌∷◌,
  ◌++◌, Option, some, none, Bytes, if◌then◌else◌, ltb, ◌==◌, ◌≡◌, refl, ap, ◌∙◌, arith, Bool-cases,
  inl, inr, append_assoc, is_empty, if-elim,
}
use vhdp.Json.{utf8_seq_len, short_escape, escape_step, escape, json_escape_into, json_quote}
use vhdp.Json.Validator.{ws}
use vhdp.Json.Dom.{
  string, next, unescape, prepend, string_from, read, parse, quote_byte, quote_bytes, quote,
}
use vhdp.Json.Dom.Escape.{Written, short, control, plain, string_from-Written}

quote_byte-Written : (c : ℕ) → Written c (quote_byte c)
unfolding quote_byte unescape
quote_byte-Written c =
    if-elim (Written c) (c == b'"') (λ e. short (ground arith))
      (λ q.
        if-elim (Written c) (c == b'\\') (λ e. short (ground arith))
          (λ b.
            if-elim (Written c) (c == 10) (λ e. short (ground arith))
              (λ _.
                if-elim (Written c) (c == 13) (λ e. short (ground arith))
                  (λ _.
                    if-elim (Written c) (c == 9) (λ e. short (ground arith))
                      (λ _.
                        if-elim (Written c) (ltb c 0x20)
                          (λ l. control (ground arith) (omega arith) (omega arith))
                          (λ l. plain q l b))))))

string_from-quote_bytes : (s t : Bytes) → string_from 0 (quote_bytes s ++ b'"' ∷ t) ≡ some (s, t)
unfolding quote_bytes string_from next
string_from-quote_bytes [] t = refl
string_from-quote_bytes (c ∷ s) t =
    ap (string_from 0) (append_assoc (quote_byte c) (quote_bytes s) (b'"' ∷ t))
    ∙ string_from-Written c (quote_bytes s ++ b'"' ∷ t) (quote_byte-Written c)
    ∙ ap (prepend (c ∷ [])) (string_from-quote_bytes s t)

-- A text that starts with a quoted text and ends behind it.
parse-quoted :
    {N : Type 0} (strtod : Bytes → Option N) (body s : Bytes)
    → string_from 0 body ≡ some (s, [])
    → parse strtod (b'"' ∷ body) ≡ some (string s)
unfolding parse read ws
parse-quoted strtod body s h =
    ap
      (λ (o : Option (Bytes × Bytes)). do
        (v, rest) ← (do (text, rest) ← o; some (string text, rest))
        if is_empty (ws rest) then some v else none)
      h

-- Reading back a text that `quote` has quoted gives that text, whatever its bytes are.
pub parse-quote :
    {N : Type 0} (strtod : Bytes → Option N) (s : Bytes) → parse strtod (quote s) ≡ some (string s)
unfolding quote
parse-quote strtod s = parse-quoted strtod _ s (string_from-quote_bytes s [])

-- Whether a text is well-formed UTF-8 behind that many continuation bytes.
unfoldable pub is_utf8 : ℕ → Bytes → Bool
is_utf8 zero [] = true
is_utf8 (suc n) [] = false
is_utf8 (suc n) (c ∷ s) = c / 64 == 2 && is_utf8 n s
is_utf8 zero (c ∷ s) = elim (utf8_seq_len (c ∷ s)) [ zero ↦ false | suc n ↦ is_utf8 n s ]

utf8_seq_len-ascii : (c : ℕ) (s : Bytes) → c < 0x80 → utf8_seq_len (c ∷ s) ≡ 1
unfolding utf8_seq_len
utf8_seq_len-ascii c s h = ground arith

short_escape-unescape :
    (c : ℕ) {e : ℕ} → short_escape c ≡ some e → (unescape e ≡ some c) × (c < 0x80)
unfolding short_escape unescape
short_escape-unescape c h = ground arith

short_escape-none : (c : ℕ) → short_escape c ≡ none → ((c == b'"') ≡ false) × ((c == b'\\') ≡ false)
unfolding short_escape
short_escape-none c h = ground arith

-- What `json_escape_into` writes at the first byte of a sequence of n + 1 bytes.
escape_step-Written :
    (c n : ℕ) (s : Bytes)
    → utf8_seq_len (c ∷ s) ≡ suc n
    → Written c (escape_step c s).0 × ((escape_step c s).1 ≡ n)
unfolding escape_step
escape_step-Written c n s h = elim (Option-cases (short_escape c)) [
  | inr (e, p) ↦
      let q = short_escape-unescape c p in
      rw (p, escape_step) (short q.0, omega (arith, utf8_seq_len-ascii c s q.1))
  | inl p ↦
      rw (p, escape_step)
        (elim (Bool-cases (ltb c 0x20)) [
          | inl l ↦
              let small = ltb→lt c 0x20 l in
              rw l (
                control (ground arith) (omega (arith, small)) (omega (arith, small)),
                omega (arith, utf8_seq_len-ascii c s (omega (arith, small))),
              )
          | inr l ↦ rw (l, h) (plain (short_escape-none c p).0 l (short_escape-none c p).1, refl)
        ])
]

string_from-escape :
    (n : ℕ) (s t : Bytes)
    → is_utf8 n s ≡ true
    → string_from 0 (escape n s ++ b'"' ∷ t) ≡ some (s, t)
unfolding escape string_from next is_utf8
string_from-escape zero [] t h = refl
string_from-escape (suc n) [] t h = cc
string_from-escape (suc n) (c ∷ s) t h =
    string_from-Written c (escape n s ++ b'"' ∷ t)
      (plain (ground arith) (ground arith) (ground arith))
    ∙ ap (prepend (c ∷ [])) (string_from-escape n s t (ground arith))
string_from-escape zero (c ∷ s) t h = elim (ℕ-cases (utf8_seq_len (c ∷ s))) [
  | inl z ↦ cc (rw (z, is_utf8) at h)
  | inr (n, e) ↦
      let w = escape_step-Written c n s e in
      ap (string_from 0)
        (append_assoc (escape_step c s).0 (escape (escape_step c s).1 s) (b'"' ∷ t))
      ∙ string_from-Written c (escape (escape_step c s).1 s ++ b'"' ∷ t) w.0
      ∙ ap (λ k. prepend (c ∷ []) (string_from 0 (escape k s ++ b'"' ∷ t))) w.1
      ∙ ap (prepend (c ∷ [])) (string_from-escape n s t (rw (e, is_utf8) at h))
]

-- The reader of phdp reads back every well-formed UTF-8 text that the library's `json_quote` quotes.
pub parse-json_quote :
    {N : Type 0} (strtod : Bytes → Option N) (s : Bytes)
    → is_utf8 0 s ≡ true
    → parse strtod (json_quote s) ≡ some (string s)
unfolding json_quote json_escape_into
parse-json_quote strtod s h = parse-quoted strtod _ s (string_from-escape 0 s [] h)

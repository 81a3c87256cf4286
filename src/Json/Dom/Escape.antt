-- ===== src/Json/Dom/Escape.antt =====
-- How `string` reads what is written for one byte.
use vhdp.Base.{
  ℕ, ◌+◌, ◌*◌, ◌<◌, false, [], ◌∷◌, ◌++◌, some, none, Bytes, codes, ltb, ◌==◌, ◌≡◌, ap, arith,
  subst,
}
use vhdp.Json.{hex_digit}
use vhdp.Json.Dom.{
  unescape, put_utf8, hex_value, hex, closes, refuses, writes, unicode, escape_of, next, prepend,
  string_from,
}

-- A byte that is not the closing quote.
string_from-writes :
    (c n : ℕ) (out s : Bytes)
    → next c s ≡ writes out n
    → string_from 0 (c ∷ s) ≡ prepend out (string_from n s)
unfolding string_from
string_from-writes c n out s h =
    ap
      (λ x. elim x [
        | closes ↦ some ([], s)
        | refuses ↦ none
        | writes out' n' ↦ prepend out' (string_from n' s)
      ])
      h

next-plain :
    (c : ℕ) (s : Bytes)
    → (c == b'"') ≡ false
    → ltb c 0x20 ≡ false
    → (c == b'\\') ≡ false
    → next c s ≡ writes (c ∷ []) 0
unfolding next
next-plain c s q l b = ground arith

-- A byte that stands for itself.
pub string_from-plain :
    (c : ℕ) (s : Bytes)
    → (c == b'"') ≡ false
    → ltb c 0x20 ≡ false
    → (c == b'\\') ≡ false
    → string_from 0 (c ∷ s) ≡ prepend (c ∷ []) (string_from 0 s)
string_from-plain c s q l b = string_from-writes c 0 (c ∷ []) s (next-plain c s q l b)

escape_of-short :
    (e x : ℕ) (s : Bytes) → unescape e ≡ some x → escape_of (e ∷ s) ≡ writes (x ∷ []) 1
unfolding escape_of unescape
escape_of-short e x s h = ground arith

-- A letter behind a backslash.
pub string_from-short :
    (e x : ℕ) (s : Bytes)
    → unescape e ≡ some x
    → string_from 0 (b'\\' ∷ e ∷ s) ≡ prepend (x ∷ []) (string_from 0 s)
unfolding next string_from
string_from-short e x s h = string_from-writes b'\\' 1 (x ∷ []) (e ∷ s) (escape_of-short e x s h)

hex_value-hex_digit : (n : ℕ) → n < 16 → hex_value (hex_digit n) ≡ some n
unfolding hex_value hex_digit
hex_value-hex_digit n h = ground arith

hex-control :
    (h l : ℕ) (s : Bytes)
    → h < 2
    → l < 16
    → hex 4 0 (codes "00" ++ hex_digit h ∷ hex_digit l ∷ s) ≡ some (h * 16 + l)
unfolding hex hex_value
hex-control h l s p q =
    rw (hex_value-hex_digit h (omega arith), hex, hex_value-hex_digit l q, hex)
      (ap some (omega arith))

unicode-small :
    (cp : ℕ) (s : Bytes) → hex 4 0 s ≡ some cp → cp < 0x20 → unicode s ≡ writes (cp ∷ []) 5
unfolding unicode put_utf8
unicode-small cp s h l = ground arith

-- A control byte.
pub string_from-control :
    (h l : ℕ) (s : Bytes)
    → h < 2
    → l < 16
    → string_from 0 (codes "\\u00" ++ hex_digit h ∷ hex_digit l ∷ s)
      ≡ prepend ((h * 16 + l) ∷ []) (string_from 0 s)
unfolding next escape_of string_from
string_from-control h l s p q =
    string_from-writes b'\\' 5 ((h * 16 + l) ∷ []) (codes "u00" ++ hex_digit h ∷ hex_digit l ∷ s)
      (unicode-small (h * 16 + l) _ (hex-control h l s p q) (omega arith))

-- What stands for one byte in a quoted text.
pub data Written (c : ℕ) : Bytes → Type 0 where
  short : {e : ℕ} → unescape e ≡ some c → Written c (b'\\' ∷ e ∷ [])
  control :
      {h l : ℕ}
      → h < 2
      → l < 16
      → h * 16 + l ≡ c
      → Written c (codes "\\u00" ++ hex_digit h ∷ hex_digit l ∷ [])
  plain : (c == b'"') ≡ false → ltb c 0x20 ≡ false → (c == b'\\') ≡ false → Written c (c ∷ [])

pub string_from-Written :
    (c : ℕ) (s : Bytes) {w : Bytes}
    → Written c w
    → string_from 0 (w ++ s) ≡ prepend (c ∷ []) (string_from 0 s)
string_from-Written c s (short {e = e} h) = string_from-short e c s h
string_from-Written c s (control {h = h} {l = l} p q e) =
    subst
      (λ x.
        string_from 0 (codes "\\u00" ++ hex_digit h ∷ hex_digit l ∷ s)
        ≡ prepend (x ∷ []) (string_from 0 s))
      e (string_from-control h l s p q)
string_from-Written c s (plain q l b) = string_from-plain c s q l b

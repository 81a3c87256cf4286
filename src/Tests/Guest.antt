-- ===== src/Tests/Guest.antt =====
-- A guest's credentials, and texts that phdp reads back.
use vhdp.Base.{ℕ, false, [], ◌∷◌, Option, some, none, Bytes, codes, ◌≡◌, refl, arith}
use vhdp.Identity.{
  Ids, Creds, user, group, setid, setresid, Args, Memory, handle_identity, is_privileged,
}
use vhdp.Identity.Errors.{handle_identity_refused}
use vhdp.Identity.Drop.{IsNarrowed, calls, calls-IsNarrowed}
use vhdp.Json.{json_quote, utf8_seq_len, code_point, is_refused}
use vhdp.Json.Dom.{string, parse, quote}
use vhdp.Json.Dom.Quote.{is_utf8, parse-quote, parse-json_quote}

-- A user with the ids 1000 and 1001 and no groups.
abbrev ids : Ids
ids = record { real = 1000; effective = 1000; saved = 1001; fs = 1000 }

abbrev creds : Creds
creds = record { user = ids; group = ids; groups = [] }

-- A memory of which nothing is mapped.
abbrev memory : Memory ℕ
memory = record { read_mem = λ _ _ _. none; write_mem = λ _ _ _. none }

abbrev zeros : Args
zeros = λ _. 0

handle_identity_refused_example : (handle_identity memory zeros (setid user) creds 0).1 ≡ creds
unfolding handle_identity
handle_identity_refused_example =
    handle_identity_refused memory zeros (setid user) creds 0 {e = 0} refl

calls-IsNarrowed_example :
    IsNarrowed creds (calls memory ((zeros, setid user) ∷ (zeros, setresid group) ∷ []) creds 0)
    × (is_privileged (calls memory ((zeros, setid user) ∷ (zeros, setresid group) ∷ []) creds 0)
        ≡ false)
calls-IsNarrowed_example =
    calls-IsNarrowed memory ((zeros, setid user) ∷ (zeros, setresid group) ∷ []) creds 0 (record {
      real_set = omega arith;
      effective_set = omega arith;
      saved_set = omega arith;
      fs_set = omega arith;
    })

-- No text is a number.
abbrev no_number : Bytes → Option ℕ
no_number _ = none

parse-quote_example : parse no_number (quote (codes "a\\b\"\n")) ≡ some (string (codes "a\\b\"\n"))
parse-quote_example = parse-quote no_number (codes "a\\b\"\n")

parse-json_quote_example :
    parse no_number (json_quote (b'a' ∷ 0xC3 ∷ 0xA9 ∷ 7 ∷ []))
    ≡ some (string (b'a' ∷ 0xC3 ∷ 0xA9 ∷ 7 ∷ []))
unfolding is_utf8 utf8_seq_len code_point is_refused
parse-json_quote_example = parse-json_quote no_number (b'a' ∷ 0xC3 ∷ 0xA9 ∷ 7 ∷ []) refl

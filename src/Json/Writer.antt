-- ===== src/Json/Writer.antt =====
-- `JsonWriter` of common/json.cpp.
use vhdp.Base.{suc, ℕ, Bool, true, false, List, [], ◌∷◌, ◌++◌, Bytes, codes, if◌then◌else◌}
use vhdp.Base.Int.{ℤ, pos, negsuc}
use vhdp.Base.Decimal.{to_string}
use vhdp.Json.{json_escape_into}

-- `first_` is a stack; its back is the head of the list.
pub record JsonWriter : Type 0 where
  pub out : Bytes
  pub first : List Bool
  pub after_key : Bool

abbrev pub append : JsonWriter → Bytes → JsonWriter
append w s = record w { out = w.out ++ s }

unfoldable pub before_item : JsonWriter → JsonWriter
before_item w = elim w.first [
  | [] ↦ w
  | true ∷ first ↦ record w { first = false ∷ first }
  | false ∷ first ↦ record w { out = w.out ++ b',' ∷ [] }
]

unfoldable pub before_value : JsonWriter → JsonWriter
unfolding before_item
before_value w = if w.after_key then record w { after_key = false } else before_item w

abbrev pub push_level : JsonWriter → JsonWriter
push_level w = record w { first = true ∷ w.first }

abbrev pub pop_level : JsonWriter → JsonWriter
pop_level w = elim w.first [ [] ↦ w | _ ∷ first ↦ record w { first = first } ]

unfoldable pub begin_object : JsonWriter → JsonWriter
unfolding before_value
begin_object w = push_level (append (before_value w) (b'{' ∷ []))

unfoldable pub end_object : JsonWriter → JsonWriter
end_object w = pop_level (append w (b'}' ∷ []))

unfoldable pub begin_array : JsonWriter → JsonWriter
unfolding before_value
begin_array w = push_level (append (before_value w) (b'[' ∷ []))

unfoldable pub end_array : JsonWriter → JsonWriter
end_array w = pop_level (append w (b']' ∷ []))

abbrev escaped : JsonWriter → Bytes → JsonWriter
escaped w s = record w { out = json_escape_into w.out s }

unfoldable pub key : JsonWriter → Bytes → JsonWriter
unfolding before_value
key w k = let w' = append (escaped (before_value w) k) (b':' ∷ []) in record w' { after_key = true }

unfoldable pub value_text : JsonWriter → Bytes → JsonWriter
unfolding before_value
value_text w v = escaped (before_value w) v

-- `std::to_string` of a signed number
abbrev pub signed_text : ℤ → Bytes
signed_text (pos n) = to_string n
signed_text (negsuc n) = b'-' ∷ to_string (suc n)

unfoldable pub value_signed : JsonWriter → ℤ → JsonWriter
unfolding before_value
value_signed w v = append (before_value w) (signed_text v)

unfoldable pub value_unsigned : JsonWriter → ℕ → JsonWriter
unfolding before_value
value_unsigned w v = append (before_value w) (to_string v)

unfoldable pub value_bool : JsonWriter → Bool → JsonWriter
unfolding before_value
value_bool w v = append (before_value w) (codes (if v then "true" else "false"))

unfoldable pub null : JsonWriter → JsonWriter
unfolding before_value
null w = append (before_value w) (codes "null")

unfoldable pub raw : JsonWriter → Bytes → JsonWriter
unfolding before_value
raw w json = append (before_value w) json

-- ===== src/Agreement/Values.antt =====
-- _plain, canonical and _message of scripts/regional_agreements.py, on JSON values.
use Prim.Native.Nat.{ℕ, zero, suc, ◌/◌, ◌%◌, ◌^◌}
use Prim.Native.Char.{Char, code}
use Prim.Native.String.{String, [], ◌∷◌, ◌++◌, count}
use mathlib.Core.Bool.{Bool, true, false, ◌&&◌, ◌||◌}
use mathlib.Core.Option.{Option, none, some}
use resilient_datacenter.Shared.{◌==◌, leb, ltb, if◌then◌else◌}
use resilient_datacenter.Shared.Texts.{all_chars}

-- `other` is null, a Boolean, a number with a fraction or below zero. The fields of an object have
-- different names and stand in the order of their names.
mutual
  pub data Value : Type 0 where
    text : String → Value
    integer : ℕ → Value
    items : Items → Value
    object : Fields → Value
    other : Value

  pub data Items : Type 0 where
    nil : Items
    cons : Value → Items → Items

  pub data Fields : Type 0 where
    end : Fields
    field : String → Value → Fields → Fields

unfoldable pub size_items : Items → ℕ
size_items nil = 0
size_items (cons v vs) = suc (size_items vs)

unfoldable pub size_fields : Fields → ℕ
size_fields end = 0
size_fields (field k v fs) = suc (size_fields fs)

abbrev pub printable : Char → Bool
printable c = leb 32 (code c) && leb (code c) 126

-- whether _plain passes at a depth
unfoldable mutual
  unfolding size_items size_fields

  pub plain : Value → ℕ → Bool
  plain (text s) depth = leb depth 12 && leb (count s) 8192 && all_chars printable s
  plain (integer n) depth = leb depth 12 && ltb n (2 ^ 53)
  plain (items vs) depth = leb depth 12 && leb (size_items vs) 32 && plain_items vs (suc depth)
  plain (object fs) depth = leb depth 12 && leb (size_fields fs) 32 && plain_fields fs (suc depth)
  plain other depth = false

  pub plain_items : Items → ℕ → Bool
  plain_items nil depth = true
  plain_items (cons v vs) depth = plain v depth && plain_items vs depth

  pub plain_fields : Fields → ℕ → Bool
  plain_fields end depth = true
  plain_fields (field k v fs) depth = leb (count k) 64 && plain v depth && plain_fields fs depth

-- The decimal digits of a number below 10 ^ fuel, before a text.
abbrev pub digit_text : ℕ → String
digit_text n =
    if n == 0
    then "0"
    else if n == 1
    then "1"
    else if n == 2
    then "2"
    else if n == 3
    then "3"
    else if n == 4
    then "4"
    else if n == 5
    then "5"
    else if n == 6
    then "6"
    else if n == 7
    then "7"
    else if n == 8
    then "8"
    else "9"

unfoldable pub decimal : ℕ → ℕ → String → String
decimal zero n after = after
decimal (suc fuel) n after =
    let more = decimal fuel (n / 10) (digit_text (n % 10) ++ after) in
    if ltb n 10 then digit_text n ++ after else more

-- A text between quotation marks, for printable characters.
unfoldable pub escaped : String → String
escaped [] = "\""
escaped (c ∷ s) =
    if (code c == 34) || (code c == 92) then "\\" ++ (c ∷ escaped s) else c ∷ escaped s

abbrev pub quoted : String → String
quoted s = "\"" ++ escaped s

-- json.dumps(value, sort_keys=True, separators=(',', ':'), ensure_ascii=True); 16 digits are enough
-- for a plain integer.
unfoldable mutual
  unfolding decimal escaped

  pub dumps : Value → String
  dumps (text s) = quoted s
  dumps (integer n) = decimal 16 n ""
  dumps (items vs) = "[" ++ dumps_items vs
  dumps (object fs) = "{" ++ dumps_fields fs
  dumps other = "null"

  pub dumps_items : Items → String
  dumps_items nil = "]"
  dumps_items (cons v vs) = dumps v ++ dumps_rest vs

  pub dumps_rest : Items → String
  dumps_rest nil = "]"
  dumps_rest (cons v vs) = "," ++ (dumps v ++ dumps_rest vs)

  pub dumps_fields : Fields → String
  dumps_fields end = "}"
  dumps_fields (field k v fs) = quoted k ++ (":" ++ (dumps v ++ dumps_more fs))

  pub dumps_more : Fields → String
  dumps_more end = "}"
  dumps_more (field k v fs) = "," ++ (quoted k ++ (":" ++ (dumps v ++ dumps_more fs)))

unfoldable pub canonical : Value → Option String
canonical v = if plain v 0 && leb (count (dumps v)) 32768 then some (dumps v) else none

-- A document's kind stands before its text, so that signatures of different kinds differ.
unfoldable pub message : String → String → String
message kind raw = "RDC REGIONAL V1\0" ++ (kind ++ ("\0" ++ raw))

-- ===== src/Journey/Answers.antt =====
-- acceptable and validate_answers of scripts/product_journey.py.
use resilient_datacenter.Shared.{
  ℕ, String, Bool, true, false, not, ◌&&◌, ◌||◌, leb, ◌==◌, str_eq, Option, none, some, List, [],
  ◌∷◌, all, contains, if◌then◌else◌,
}
use Prim.Native.Char.{Char, code}
use Prim.Native.String.{count}
use resilient_datacenter.Shared.Texts.{identifier, all_chars}

pub data Field : Type 0 where
  purpose institution_id services responsible_operator primary_location recovery_location network :
      Field

-- FIELDS
abbrev pub fields : List Field
fields =
    purpose ∷ institution_id ∷ services ∷ responsible_operator ∷ primary_location
    ∷ recovery_location ∷ network ∷ []

abbrev pub position : Field → ℕ
position purpose = 0
position institution_id = 1
position services = 2
position responsible_operator = 3
position primary_location = 4
position recovery_location = 5
position network = 6

-- A dictionary of answers: `none` is a question without an answer.
abbrev pub Answers : Type 0
Answers = Field → Option String

abbrev pub with_answer : Answers → Field → String → Answers
with_answer a f v g = if position f == position g then some v else a g

-- an answer, or the empty text
abbrev pub text_of : Option String → String
text_of none = ""
text_of (some v) = v

abbrev pub is_answered : Option String → Bool
is_answered none = false
is_answered (some v) = true

unfoldable pub one_place : Option String → Option String → Bool
one_place none recovery = false
one_place primary none = false
one_place (some p) (some r) = str_eq p r && not (str_eq p "")

-- str.isalnum of one character is a parameter, as the tables of Unicode give it.
module _ (is_alnum : Char → Bool) where
  abbrev pub operator_char : Char → Bool
  operator_char c =
      is_alnum c
      || code c == 32
      || code c == 64
      || code c == 46
      || code c == 95
      || code c == 43
      || code c == 45

  unfoldable pub acceptable : Field → String → Bool
  acceptable purpose v = contains v ("personal" ∷ "institution" ∷ "regional" ∷ [])
  acceptable services v = contains v ("matrix" ∷ "nextcloud" ∷ "both" ∷ [])
  acceptable network v = contains v ("new" ∷ "existing" ∷ [])
  acceptable responsible_operator v =
      not (str_eq v "") && leb (count v) 100 && all_chars operator_char v
  acceptable institution_id v = leb (count v) 32 && identifier v
  acceptable primary_location v = identifier v
  acceptable recovery_location v = identifier v

  abbrev pub acceptable_answer : Field → Option String → Bool
  acceptable_answer f none = true
  acceptable_answer f (some v) = acceptable f v

  -- whether validate_answers passes
  unfoldable pub valid_answers : Bool → Answers → Bool
  valid_answers draft a =
      (draft || all (λ f. is_answered (a f)) fields)
      && all (λ f. acceptable_answer f (a f)) fields
      && not (one_place (a primary_location) (a recovery_location))

-- ===== src/Examples/Calls.antt =====
-- A request with a system prompt and a question through both translations.
use strait.Base.{
  Bool, true, false, same, ◌==◌, Option, none, some, List, [], ◌∷◌, Bytes, codes, pos, ◌≡◌, refl,
}
use strait.Adapter.Request.Types.{ContentPart, RichMessage, ChatCompletionRequest}
use strait.Adapter.Request.General.{general_request}
use strait.Adapter.Request.Fast.{simple_parts}
use strait.Adapter.Request.Roles.{Acc, ReadsStrings}
use strait.Adapter.Request.Agreement.{simple_request, general_request-simple}

abbrev kept : Bytes → Bytes
kept s = s

abbrev until_end : Bytes → Bytes
until_end [] = []
until_end (c ∷ []) = []
until_end (c ∷ d ∷ s) = c ∷ until_end (d ∷ s)

-- `json.Unmarshal` into a string, on a string without escapes and without white space around it.
abbrev quoted_text : Bytes → Option Bytes
quoted_text [] = none
quoted_text (c ∷ s) = elim (c == b'"') [ true ↦ some (until_end s) | false ↦ none ]

abbrev no_parts : Bytes → Option (List ContentPart)
no_parts s = none

abbrev never_valid : Bytes → Bool
never_valid s = false

abbrev plain_message : Bytes → Bytes → RichMessage
plain_message role content = record {
  role = role;
  content = content;
  tool_calls = [];
  tool_call_id = [];
  name = [];
}

abbrev question : ChatCompletionRequest
question = record {
  model = codes "claude";
  messages =
      plain_message (codes "system") (codes "\"Be brief.\"")
      ∷ plain_message (codes "user") (codes "\"Why?\"")
      ∷ [];
  temperature = pos 0;
  stream = false;
  max_tokens = pos 0;
  top_p = pos 0;
  stop = [];
  tools = [];
  response_format = none;
}

abbrev question_parts : Acc
question_parts = (codes "Be brief.", record { role = codes "user"; content = codes "Why?" } ∷ [])

first_quote :
    (b : Bool) (v w : Bytes)
    → (elim b as (λ x. Option Bytes) [ true ↦ some w | false ↦ none ]) ≡ some v
    → b ≡ true
first_quote true v w h = refl
first_quote false v w h = cc

quoted_text-ReadsStrings : ReadsStrings kept quoted_text no_parts never_valid
quoted_text-ReadsStrings [] v h n = cc
quoted_text-ReadsStrings (c ∷ s) v h n = (first_quote (c == b'"') v (until_end s) h, h)

general_request-simple_example :
    general_request kept quoted_text no_parts never_valid kept kept question
    ≡ simple_request kept quoted_text no_parts never_valid question question_parts
unfolding simple_parts same
general_request-simple_example =
    general_request-simple kept quoted_text no_parts never_valid kept kept question question_parts
      quoted_text-ReadsStrings refl (refl, (refl, tt)) refl

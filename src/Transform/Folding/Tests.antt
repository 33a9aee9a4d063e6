-- ===== src/Transform/Folding/Tests.antt =====
-- Chunks of an OpenAI stream folded into one completion.
use void_switch.Base.{ℕ, zero, suc, true, String, ◌≡◌, refl, Option, none, some, List, [], ◌∷◌}
use void_switch.Base.Results.{err}
use void_switch.Base.Json.{Json, Fields, null, num, str, arr, obj, nil, cons, end, field}
use void_switch.Transform.Sse.{Text}
use void_switch.Transform.Values.{Python}
use void_switch.Transform.Numbered.{ℤ, pos}
use void_switch.Transform.Folding.{Converters, stream_error}
use void_switch.Transform.Folding.Built.{openai_events_to_response}
use void_switch.Transform.Folding.Told.{chunks_of}
use void_switch.Transform.Folding.Verdict.{Verdict, openai_events_to_response-Verdict}

abbrev one : String → Json → Fields
one key value = field key value end

-- A chunk in which the choice `n` says something.
abbrev says : ℕ → String → Json
says n text = obj (
    one "choices"
      (arr (cons (obj (field "index" (num n) (one "delta" (obj (one "content" (str text)))))) nil)))

abbrev samples : List Json
samples =
    says 0 "hel" ∷ says 1 "other" ∷ says 0 "lo" ∷ obj (one "error" (obj (one "code" (num 5)))) ∷ []

abbrev nth : ℕ → List Json → Option Json
nth n [] = none
nth zero (j ∷ js) = some j
nth (suc n) (j ∷ js) = nth n js

-- The events' data are single numbers here, each the place of a chunk.
abbrev numbered : Text → Option Json
numbered [] = none
numbered (n ∷ rest) = nth n samples

abbrev python : Python
python = record { loads = numbered; is_nonzero = λ literal. true; key_of = λ j. some 0 }

-- `str` of null is "None".
abbrev shown : Json → String
shown null = "None"
shown (str t) = t
shown value = "…"

abbrev index_of : Json → Option ℤ
index_of (num n) = some (pos n)
index_of value = none

abbrev converters : Converters
converters = record { str_of = shown; int_of = index_of }

abbrev upstream : List Text
upstream = (0 ∷ []) ∷ [] ∷ (1 ∷ []) ∷ (2 ∷ []) ∷ []

openai_events_to_response-Verdict_example :
    Verdict python converters
      (chunks_of python upstream)
      (openai_events_to_response python (str "call-1") converters "m" upstream)
openai_events_to_response-Verdict_example =
    openai_events_to_response-Verdict python converters (str "call-1") "m" upstream

-- An error without a message is reported as "None", not with the text for that case.
error_without_message :
    openai_events_to_response python (str "call-1") converters "m" ((0 ∷ []) ∷ (3 ∷ []) ∷ [])
    ≡ err (stream_error "None")
unfolding openai_events_to_response void_switch.Base.Json.get
error_without_message = refl

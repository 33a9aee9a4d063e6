-- ===== src/Providers/Tests.antt =====
-- The classification at concrete answers.
use void_switch.Base.{String, [], ◌∷◌, true, false, ◌≡◌, refl, ◌≤◌, ◌<◌, ◌↔◌, any, ◌==◌, All}
use void_switch.Base.Json.{Json, Fields, obj, str, field, end}
use void_switch.Providers.{
  ErrorClass, PyText, classify, classify_deepseek, classify_xai, classify_grok,
}
use void_switch.Providers.Classes.{classify_table, adapters-IsSensible, IsSensible}

classify_runs :
    (classify 200 ≡ ErrorClass.fine)
    × (classify 403 ≡ ErrorClass.key_invalid)
    × (classify 304 ≡ ErrorClass.server_error)
    × (classify 422 ≡ ErrorClass.bad_request)
unfolding classify
classify_runs = (refl, refl, refl, refl)

classify_table_example :
    ((classify 404 ≡ ErrorClass.fine) ↔ ((200 ≤ 404) × (404 < 300)))
    × ((classify 404 ≡ ErrorClass.bad_request) ↔ (
        (400 ≤ 404)
        × (404 < 500)
        × (any (λ n. n == 404) (401 ∷ 402 ∷ 403 ∷ 404 ∷ 408 ∷ 409 ∷ 425 ∷ 429 ∷ []) ≡ false)))
classify_table_example = classify_table 404

-- A completion in which the model explains an error message.
abbrev completion : Fields
completion = field "choices" (str "the server says: invalid api key") end

abbrev shown : Json → String
shown (obj (field k (str s) fs)) = s
shown (str s) = s
shown _ = ""

abbrev py : PyText
py = record { show = shown; lower = λ s. s; join_spaces = λ parts. ""; is_nonzero = λ s. true }

-- The answer is a good one, and the key that gave it is taken for invalid.
completion_blames_key : classify_xai py 200 (obj completion) ≡ ErrorClass.key_invalid
unfolding classify_xai
completion_blames_key = refl

adapters-IsSensible_example : All (IsSensible 422) (
    classify 422
    ∷ classify_deepseek py 422 (obj completion)
    ∷ classify_xai py 422 (obj completion)
    ∷ classify_grok 422
    ∷ [])
adapters-IsSensible_example = adapters-IsSensible py 422 (obj completion)

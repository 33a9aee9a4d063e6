-- ===== src/Providers.antt =====
-- backend/voidswitch/services/providers: what an upstream's answer means (ErrorClass), for the base
-- adapter and for those that read the answer in a way of their own (deepseek.py, xai.py, grok.py).
-- `str`, `lower`, `" ".join` and the truth of a float are the fields of `PyText`. A body that is no
-- JSON is `null`, as `_try_json` yields None for it.
pub mod Classes
mod Tests
use text.Mathlib.Text.{find?}
use void_switch.Base.{
  ℕ, String, Option, none, some, List, [], ◌∷◌, Bool, true, false, ◌&&◌, ◌||◌, leb, ltb, ◌==◌,
  if◌then◌else◌, any, is_some, str_eq,
}
use void_switch.Base.Json.{Json, Items, Fields, null, bool, num, other_num, str, arr, obj, nil, get}

pub data ErrorClass : Type 0 where
  fine key_invalid insufficient_balance rate_limited upstream_overloaded : ErrorClass
  not_found bad_request server_error : ErrorClass

pub record PyText : Type 0 where
  pub show : Json → String
  pub lower : String → String
  pub join_spaces : List String → String
  -- the truth of a number that is kept as its literal
  pub is_nonzero : String → Bool

abbrev pub is_2xx : ℕ → Bool
is_2xx status = leb 200 status && ltb status 300

-- BaseProvider.classify
unfoldable pub classify : ℕ → ErrorClass
classify status =
    if is_2xx status
    then ErrorClass.fine
    else if status == 401 || status == 403
    then ErrorClass.key_invalid
    else if status == 402
    then ErrorClass.insufficient_balance
    else if status == 404
    then ErrorClass.not_found
    else if status == 429
    then ErrorClass.rate_limited
    else if status == 503 || status == 529
    then ErrorClass.upstream_overloaded
    else if (status == 408 || (status == 409 || status == 425)) || leb 500 status
    then ErrorClass.server_error
    else if leb 400 status && ltb status 500
    then ErrorClass.bad_request
    else ErrorClass.server_error

abbrev pub or_null : Option Json → Json
or_null none = null
or_null (some j) = j

abbrev pub or_empty_text : Option Json → Json
or_empty_text none = str ""
or_empty_text (some j) = j

abbrev pub contains : String → String → Bool
contains text part = is_some (find? text part)

abbrev pub is_text : String → Json → Bool
is_text t (str s) = str_eq s t
is_text t _ = false

-- A text, if the value is one.
abbrev pub as_text : Json → List String
as_text (str s) = s ∷ []
as_text _ = []

abbrev pub is_nil : List String → Bool
is_nil [] = true
is_nil (s ∷ more) = false

abbrev pub key_invalid_markers : List String
key_invalid_markers =
    "incorrect api key" ∷ "invalid api key" ∷ "api key is invalid" ∷ "no credentials"
    ∷ "unauthenticated" ∷ "invalid authentication" ∷ []

abbrev part_names : List String
part_names = "code" ∷ "error" ∷ "message" ∷ "detail" ∷ []

module _ (py : PyText) where
  -- Python's truth of a value.
  unfoldable pub truthy : Json → Bool
  truthy null = false
  truthy (bool b) = b
  truthy (num n) = if n == 0 then false else true
  truthy (other_num s) = py.is_nonzero s
  truthy (str s) = if str_eq s "" then false else true
  truthy (arr nil) = false
  truthy (arr xs) = true
  truthy (obj Fields.end) = false
  truthy (obj fs) = true

  -- deepseek.py: _error_text, of the body and of the `error` of a body that is an object
  abbrev error_of : Json → Json → String
  error_of body (obj err) = py.lower (py.show (or_empty_text (get "message" err)))
  error_of body err = py.lower (py.show (if truthy err then err else body))

  error_text : Json → String
  unfolding truthy get
  error_text (obj fields) = error_of (obj fields) (or_null (get "error" fields))
  error_text body = py.lower (if truthy body then py.show body else "")

  abbrev names_auth_error : Option Json → Bool
  names_auth_error (some (obj err)) = is_text "authentication_error" (or_null (get "type" err))
  names_auth_error _ = false

  has_auth_error : Json → Bool
  unfolding get
  has_auth_error (obj fields) = names_auth_error (get "error" fields)
  has_auth_error _ = false

  unfoldable pub classify_deepseek : ℕ → Json → ErrorClass
  unfolding error_text has_auth_error classify
  classify_deepseek status body =
      if status == 401
      then ErrorClass.key_invalid
      else if status == 402
      then ErrorClass.insufficient_balance
      else if status == 422
      then (let text = error_text body in
          if contains text "insufficient" || contains text "balance"
          then ErrorClass.insufficient_balance
          else ErrorClass.bad_request)
      else if status == 403
      then ErrorClass.key_invalid
      else if has_auth_error body
      then ErrorClass.key_invalid
      else classify status

  -- xai.py: _error_body_text; what one field of the body contributes
  abbrev part_of : Option Json → List String
  part_of (some (str s)) = s ∷ []
  part_of (some (obj nested)) =
      let message = or_null (get "message" nested) in
      as_text (if truthy message then message else or_null (get "type" nested))
  part_of _ = []

  parts : List String → Fields → List String
  unfolding get truthy
  parts [] fields = []
  parts (name ∷ names) fields = elim (part_of (get name fields)) [
    | [] ↦ parts names fields
    | s ∷ _ ↦ s ∷ parts names fields
  ]

  pub error_body_text : Json → String
  unfolding parts
  error_body_text null = ""
  error_body_text (obj fields) =
      let found = parts part_names fields in
      py.lower (if is_nil found then py.show (obj fields) else py.join_spaces found)
  error_body_text body = py.lower (py.show body)

  abbrev pub names_bad_key : Json → Bool
  names_bad_key body = any (contains (error_body_text body)) key_invalid_markers

  unfoldable pub classify_xai : ℕ → Json → ErrorClass
  unfolding error_body_text classify
  classify_xai status body =
      if names_bad_key body
      then ErrorClass.key_invalid
      else if status == 403
      then ErrorClass.server_error
      else classify status

-- grok.py
unfoldable pub classify_grok : ℕ → ErrorClass
unfolding classify
classify_grok status =
    if status == 401 || status == 403
    then ErrorClass.key_invalid
    else if status == 429
    then ErrorClass.rate_limited
    else classify status

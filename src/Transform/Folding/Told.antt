-- ===== src/Transform/Folding/Told.antt =====
-- What the chunks of an OpenAI stream say of a choice, and which of them are ill-formed.
use void_switch.Base.{
  ◌≡◌, refl, ◌∙◌, sym, String, Option, none, some, List, [], ◌∷◌, ◌++◌, Bool, true, false, not,
  ◌||◌, if◌then◌else◌, any, is_some, Bool-cases, inl, inr,
}
use mathlib.Core.List.{append-nil}
use void_switch.Base.Json.{Json, null, num, str, obj}
use void_switch.Transform.Sse.{Text}
use void_switch.Transform.Values.{Python, truthy, get_or}
use void_switch.Transform.Numbered.{
  ℤ, is_int, Numbered, value_at, value_at-update_at, value_at-update_at_other, is_int_sound,
}
use void_switch.Transform.Folding.{Converters, text_of, listed, delta_of, append_at, parsed}

abbrev pub one_text : Option String → List String
one_text none = []
one_text (some t) = t ∷ []

-- The texts under a key of the delta.
abbrev pub said_by : String → Json → List String
said_by key (obj delta) = one_text (text_of (get_or key null delta))
said_by key _ = []

abbrev pub is_bad_list : (Json → Bool) → Option (List Json) → Bool
is_bad_list is_bad none = true
is_bad_list is_bad (some values) = any is_bad values

pub is_bad_list-none :
    (is_bad : Json → Bool) (o : Option (List Json))
    → is_some o ≡ false
    → is_bad_list is_bad o ≡ true
is_bad_list-none is_bad none h = refl
is_bad_list-none is_bad (some values) h = absurd (cc h)

abbrev pub or_later : Option Json → Option Json → Option Json
or_later none o = o
or_later (some j) o = some j

module _ (python : Python) where
  -- A value that counts and is no text.
  abbrev pub is_bad_text : Json → Bool
  is_bad_text (str t) = false
  is_bad_text value = truthy python value

  abbrev pub is_bad_function : Json → Bool
  is_bad_function (obj fn) =
      is_bad_text (get_or "name" null fn) || is_bad_text (get_or "arguments" null fn)
  is_bad_function _ = false

  abbrev pub error_in : Json → Option Json
  error_in (obj chunk) =
      if truthy python (get_or "error" null chunk) then some (get_or "error" null chunk) else none
  error_in _ = none

  abbrev pub first_error : List Json → Option Json
  first_error [] = none
  first_error (chunk ∷ chunks) = or_later (error_in chunk) (first_error chunks)

  -- The chunks of the events: those with JSON as their data.
  abbrev pub chunks_of : List Text → List Json
  chunks_of [] = []
  chunks_of (text ∷ events) = elim (parsed python text) [
    | none ↦ chunks_of events
    | some chunk ↦ chunk ∷ chunks_of events
  ]

module _ (python : Python) (converters : Converters) where
  abbrev pub at_index : String → ℤ → Json → Option ℤ → List String
  at_index key i delta none = []
  at_index key i delta (some k) = if is_int k i then said_by key delta else []

  abbrev pub said_in_choice : String → ℤ → Json → List String
  said_in_choice key i (obj choice) =
      at_index key i (delta_of python choice) (converters.int_of (get_or "index" (num 0) choice))
  said_in_choice key i _ = []

  abbrev pub said_in_choices : String → ℤ → List Json → List String
  said_in_choices key i [] = []
  said_in_choices key i (choice ∷ choices) =
      said_in_choice key i choice ++ said_in_choices key i choices

  abbrev pub said_in_listed : String → ℤ → Option (List Json) → List String
  said_in_listed key i none = []
  said_in_listed key i (some choices) = said_in_choices key i choices

  abbrev pub said_in_chunk : String → ℤ → Json → List String
  said_in_chunk key i (obj chunk) = said_in_listed key i (listed python "choices" chunk)
  said_in_chunk key i _ = []

  -- What the chunks say under a key of the choice with an index, in order.
  abbrev pub said : String → ℤ → List Json → List String
  said key i [] = []
  said key i (chunk ∷ chunks) = said_in_chunk key i chunk ++ said key i chunks

  abbrev pub is_bad_call : Json → Bool
  is_bad_call (obj call) =
      not (is_some (converters.int_of (get_or "index" (num 0) call)))
      || is_bad_function python (get_or "function" null call)
  is_bad_call _ = false

  abbrev pub is_bad_delta : Json → Bool
  is_bad_delta (obj delta) = is_bad_list is_bad_call (listed python "tool_calls" delta)
  is_bad_delta _ = false

  abbrev pub is_bad_choice : Json → Bool
  is_bad_choice (obj choice) =
      not (is_some (converters.int_of (get_or "index" (num 0) choice)))
      || is_bad_delta (delta_of python choice)
  is_bad_choice _ = false

  -- A chunk that the fold cannot read: no dict, choices or tool calls that are no list, an index
  -- that is no number, or a function's name or arguments that are no text.
  abbrev pub is_bad_chunk : Json → Bool
  is_bad_chunk (obj chunk) = is_bad_list is_bad_choice (listed python "choices" chunk)
  is_bad_chunk _ = true

-- The texts of a choice after a delta for the choice `k`.
pub append_at-said :
    (i k : ℤ) (t : String) (d : Numbered (List String))
    → value_at [] i (append_at k t d) ≡ value_at [] i d ++ (if is_int k i then t ∷ [] else [])
append_at-said i k t d = elim (Bool-cases (is_int k i)) [
  | inl e ↦ rw (e, is_int_sound k i e) (value_at-update_at [] (λ texts. texts ++ t ∷ []) i d)
  | inr e ↦
      rw e (value_at-update_at_other [] (λ texts. texts ++ t ∷ []) i k d e ∙ sym (append-nil _))
]

-- ===== src/Transform/Values.antt =====
-- backend/voidswitch/services/transform.py: how the translation reads JSON values, with Python's
-- truth of a value. Where the code calls a method that a value has not got, it raises, here none.
use void_switch.Base.{
  ℕ, String, Option, none, some, List, [], ◌∷◌, Bool, true, false, not, ◌==◌, if◌then◌else◌, str_eq,
}
use void_switch.Base.Json.{
  Json, Items, Fields, null, bool, num, other_num, str, arr, obj, nil, cons, end, field, get,
}
use void_switch.Transform.Sse.{Text}

-- `json.loads` is none where it raises a JSONDecodeError. Two values are one key of a dict if they
-- have the same number; a list or a dict has none, as it is no key.
pub record Python : Type 0 where
  pub loads : Text → Option Json
  pub is_nonzero : String → Bool
  pub key_of : Json → Option ℕ

abbrev pub or_default : Json → Option Json → Json
or_default d none = d
or_default d (some j) = j

-- d.get(key, default)
abbrev pub get_or : String → Json → Fields → Json
get_or k d fs = or_default d (get k fs)

-- What has the method `get`.
abbrev pub as_dict : Json → Option Fields
as_dict (obj fs) = some fs
as_dict _ = none

-- What a `for` loop over a list meets.
abbrev pub elements : Items → List Json
elements nil = []
elements (cons j items) = j ∷ elements items

abbrev pub text_eq : Text → Text → Bool
text_eq [] [] = true
text_eq (c ∷ s) (d ∷ t) = let rest = text_eq s t in if c == d then rest else false
text_eq _ _ = false

module _ (python : Python) where
  abbrev pub truthy : Json → Bool
  truthy null = false
  truthy (bool b) = b
  truthy (num n) = not (n == 0)
  truthy (other_num literal) = python.is_nonzero literal
  truthy (str s) = not (str_eq s "")
  truthy (arr nil) = false
  truthy (arr (cons j items)) = true
  truthy (obj end) = false
  truthy (obj (field k j fields)) = true

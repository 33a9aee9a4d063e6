-- ===== src/Transform/Tests.antt =====
-- The translation on concrete streams, and the theorems about it at concrete inputs.
use void_switch.Transform.Sse.{Text, Event, iter_sse, strip_spaces, strip_left, sse_text, data_text}
use void_switch.Transform.RoundTrip.{iter_sse-written, written, IsPlain, decoded}
use void_switch.Base.{ℕ, ◌≡◌, refl, none, some, List, [], ◌∷◌, ◌++◌, All}

-- Latin letters are their own bytes.
abbrev same_text : List ℕ → Text
same_text bytes = bytes

abbrev ping_name : Text
ping_name = b'p' ∷ b'i' ∷ b'n' ∷ b'g' ∷ []

abbrev events : List Event
events = (some ping_name, b'1' ∷ []) ∷ (none, b'[' ∷ b'2' ∷ b']' ∷ []) ∷ []

-- "event: ping\ndata: 1\n\ndata: [2]\n\n", cut in the middle of a blank line.
abbrev chunks : List (List ℕ)
chunks =
    (b'e'
      ∷ b'v'
      ∷ b'e'
      ∷ b'n'
      ∷ b't'
      ∷ b':'
      ∷ 32
      ∷ (ping_name ++ 10 ∷ b'd' ∷ b'a' ∷ b't' ∷ b'a' ∷ []))
    ∷ (b':' ∷ 32 ∷ b'1' ∷ 10 ∷ [])
    ∷ (10 ∷ b'd' ∷ b'a' ∷ b't' ∷ b'a' ∷ b':' ∷ 32 ∷ b'[' ∷ b'2' ∷ b']' ∷ 10 ∷ 10 ∷ [])
    ∷ []

events-IsPlain : All IsPlain events
unfolding strip_spaces strip_left
events-IsPlain = (
  (record { one_line = refl; trimmed = refl }, record { one_line = refl; trimmed = refl }),
  (record { one_line = refl; trimmed = refl }, tt),
)

chunks-written : decoded same_text chunks ≡ written events
unfolding written sse_text data_text
chunks-written = refl

iter_sse-written_example : iter_sse same_text chunks ≡ events
iter_sse-written_example = iter_sse-written same_text events chunks events-IsPlain chunks-written

abbrev data_one : Text
data_one = b'd' ∷ b'a' ∷ b't' ∷ b'a' ∷ b':' ∷ 32 ∷ b'1' ∷ []

-- The same bytes with CRLF line ends, whole and with the last CRLF cut in two: the event is lost.
crlf_whole : iter_sse same_text ((data_one ++ 13 ∷ 10 ∷ 13 ∷ 10 ∷ []) ∷ []) ≡ (none, b'1' ∷ []) ∷ []
unfolding iter_sse
crlf_whole = refl

crlf_cut : iter_sse same_text ((data_one ++ 13 ∷ 10 ∷ 13 ∷ []) ∷ (10 ∷ []) ∷ []) ≡ []
unfolding iter_sse
crlf_cut = refl

-- A line separator (U+2028) inside of the data ends the line: what follows it is dropped.
separator_in_data :
    iter_sse same_text ((data_one ++ 8232 ∷ b'2' ∷ 10 ∷ 10 ∷ []) ∷ []) ≡ (none, b'1' ∷ []) ∷ []
unfolding iter_sse
separator_in_data = refl

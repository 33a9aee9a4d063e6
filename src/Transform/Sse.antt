-- ===== src/Transform/Sse.antt =====
-- backend/voidswitch/services/transform.py, "SSE parsing": server-sent events, read from the chunks
-- of a byte stream (iter_sse) and written (_sse, _data). A text is the list of its code points.
use void_switch.Base.{
  ℕ, zero, suc, Option, none, some, List, [], ◌∷◌, ◌++◌, Bool, false, ◌&&◌, ◌||◌, leb, ◌==◌,
  if◌then◌else◌, length, drop,
}
use mathlib.Core.List.{reverse}

abbrev pub Text : Type 0
Text = List ℕ

abbrev pub line_feed : ℕ
line_feed = 10

abbrev pub starts_lf : Text → Bool
starts_lf [] = false
starts_lf (c ∷ rest) = c == line_feed

-- text.replace("\r\n", "\n")
unfoldable pub crlf_to_lf : Text → Text
crlf_to_lf [] = []
crlf_to_lf (c ∷ rest) =
    let more = crlf_to_lf rest in if c == 13 && starts_lf rest then more else c ∷ more

abbrev pub push : ℕ → Option (Text × Text) → Option (Text × Text)
push c none = none
push c (some (raw, rest)) = some (c ∷ raw, rest)

-- buffer.split("\n\n", 1), none where there is no blank line.
unfoldable pub split_frame : Text → Option (Text × Text)
split_frame [] = none
split_frame (c ∷ rest) =
    let more = split_frame rest in
    if c == line_feed && starts_lf rest then some ([], drop 1 rest) else push c more

-- `while "\n\n" in buffer`: the frames that a buffer holds, and what is left. Each frame takes
-- two characters at least, so the length of the buffer is enough fuel.
unfoldable pub split_frames : ℕ → Text → List Text × Text
split_frames zero buffer = ([], buffer)
split_frames (suc fuel) buffer = elim (split_frame buffer) [
  | none ↦ ([], buffer)
  | some (raw, rest) ↦ (raw ∷ (split_frames fuel rest).0, (split_frames fuel rest).1)
]

-- The characters at which str.splitlines cuts, "\r\n" as one.
abbrev pub is_break : ℕ → Bool
is_break c =
    (leb 10 c && leb c 13) || ((leb 28 c && leb c 30) || (c == 133 || (c == 8232 || c == 8233)))

-- The characters that str.strip drops.
abbrev pub is_space : ℕ → Bool
is_space c =
    (leb 9 c && leb c 13)
    || ((leb 28 c && leb c 32)
        || (c == 133
            || (c == 160
                || (c == 5760
                    || ((leb 8192 c && leb c 8202)
                        || (c == 8232
                            || (c == 8233 || (c == 8239 || (c == 8287 || c == 12288)))))))))

abbrev pub grow : ℕ → List Text → List Text
grow c [] = (c ∷ []) ∷ []
grow c (line ∷ lines) = (c ∷ line) ∷ lines

unfoldable pub splitlines : Text → List Text
splitlines [] = []
splitlines (c ∷ rest) =
    let more = splitlines rest in
    if c == 13 && starts_lf rest then more else if is_break c then [] ∷ more else grow c more

unfoldable pub strip_left : Text → Text
strip_left [] = []
strip_left (c ∷ rest) = let more = strip_left rest in if is_space c then more else c ∷ rest

unfoldable pub strip_spaces : Text → Text
unfolding strip_left
strip_spaces text = reverse (strip_left (reverse (strip_left text)))

-- text[len(prefix):] where the text starts with the prefix
unfoldable pub after_prefix : Text → Text → Option Text
after_prefix [] text = some text
after_prefix (p ∷ ps) [] = none
after_prefix (p ∷ ps) (c ∷ text) = let more = after_prefix ps text in if p == c then more else none

abbrev pub event_prefix : Text
event_prefix = b'e' ∷ b'v' ∷ b'e' ∷ b'n' ∷ b't' ∷ b':' ∷ []

abbrev pub data_prefix : Text
data_prefix = b'd' ∷ b'a' ∷ b't' ∷ b'a' ∷ b':' ∷ []

pub record Frame : Type 0 where
  pub event : Option Text
  pub data_lines : List Text

-- The body of `for line in raw.splitlines()`.
unfoldable pub read_line : Frame → Text → Frame
unfolding after_prefix strip_spaces strip_left
read_line fields line = elim (after_prefix event_prefix line) [
  | some value ↦ record fields { event = some (strip_spaces value) }
  | none ↦ elim (after_prefix data_prefix line) [
    | some value ↦ record fields { data_lines = fields.data_lines ++ strip_left value ∷ [] }
    | none ↦ fields
  ]
]

unfoldable pub read_lines : Frame → List Text → Frame
unfolding read_line
read_lines fields [] = fields
read_lines fields (line ∷ lines) = read_lines (read_line fields line) lines

-- "\n".join(lines)
unfoldable pub join_lines : List Text → Text
join_lines [] = []
join_lines (line ∷ []) = line
join_lines (line ∷ next ∷ lines) = line ++ line_feed ∷ join_lines (next ∷ lines)

-- An event as iter_sse yields it: its name, if it has one, and its data.
abbrev pub Event : Type 0
Event = Option Text × Text

abbrev pub yielded : Frame → List Event → List Event
yielded fields more = elim fields.data_lines [
  | [] ↦ more
  | line ∷ lines ↦ (fields.event, join_lines (line ∷ lines)) ∷ more
]

unfoldable pub read_frames : List Text → List Event
unfolding read_lines splitlines join_lines
read_frames [] = []
read_frames (raw ∷ frames) =
    yielded (read_lines (record { event = none; data_lines = [] }) (splitlines raw))
      (read_frames frames)

module _ (decode : List ℕ → Text) where
  -- The loop over the chunks, with the buffer.
  unfoldable pub read_chunks : Text → List (List ℕ) → List Event
  unfolding read_frames split_frames split_frame crlf_to_lf
  read_chunks buffer [] = []
  read_chunks buffer (chunk ∷ chunks) =
      let text = buffer ++ crlf_to_lf (decode chunk) in
      let frames = split_frames (length text) text in
      read_frames frames.0 ++ read_chunks frames.1 chunks

  unfoldable pub iter_sse : List (List ℕ) → List Event
  unfolding read_chunks
  iter_sse chunks = read_chunks [] chunks

-- The texts that _sse and _data encode; `json` is the data as json.dumps writes it.
unfoldable pub sse_text : Text → Text → Text
sse_text event json =
    event_prefix
    ++ 32 ∷ (event ++ line_feed ∷ (data_prefix ++ 32 ∷ (json ++ line_feed ∷ line_feed ∷ [])))

unfoldable pub data_text : Text → Text
data_text json = data_prefix ++ 32 ∷ (json ++ line_feed ∷ line_feed ∷ [])

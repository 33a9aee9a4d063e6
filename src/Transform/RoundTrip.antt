-- ===== src/Transform/RoundTrip.antt =====
-- backend/voidswitch/services/transform.py: what _sse and _data write, iter_sse reads back.
use mathlib.Core.List.{append_assoc, append-nil}
use void_switch.Base.{
  ℕ, ◌≡◌, refl, ap, ◌∙◌, Option, none, some, List, [], ◌∷◌, ◌++◌, Bool, false, ◌==◌, any,
  any-append, All, arith,
}
use void_switch.Transform.Sse.{
  Text, line_feed, crlf_to_lf, push, split_frame, split_frames, splitlines, strip_spaces,
  strip_left, is_break, event_prefix, data_prefix, Event, read_frames, iter_sse, sse_text,
  data_text,
}
use void_switch.Transform.Frames.{frames_of, frames_of-some}
use void_switch.Transform.Reading.{text_of, iter_sse_whole}

abbrev lengthen : Text → Option (Text × Text) → Option (Text × Text)
lengthen [] found = found
lengthen (c ∷ text) found = push c (lengthen text found)

split_frame_line :
    (text more : Text)
    → any is_break text ≡ false
    → split_frame (text ++ more) ≡ lengthen text (split_frame more)
unfolding split_frame
split_frame_line [] more h = refl
split_frame_line (c ∷ text) more h = ground (arith, split_frame_line text more)

splitlines_line :
    (text more : Text)
    → any is_break text ≡ false
    → splitlines (text ++ line_feed ∷ more) ≡ text ∷ splitlines more
unfolding splitlines
splitlines_line [] more h = refl
splitlines_line (c ∷ text) more h = ground (arith, splitlines_line text more)

splitlines_last :
    (c : ℕ) (text : Text)
    → any is_break (c ∷ text) ≡ false
    → splitlines (c ∷ text) ≡ (c ∷ text) ∷ []
unfolding splitlines
splitlines_last c [] h = ground arith
splitlines_last c (d ∷ text) h = ground (arith, splitlines_last d text)

crlf_to_lf_id : (text : Text) → any (λ c. c == 13) text ≡ false → crlf_to_lf text ≡ text
unfolding crlf_to_lf
crlf_to_lf_id [] h = refl
crlf_to_lf_id (c ∷ text) h = ground (arith, crlf_to_lf_id text)

-- A text that an event can carry: it holds no line break, and reading drops no space from it.
pub record IsName (name : Text) : Type 0 where
  pub one_line : any is_break name ≡ false
  pub trimmed : strip_spaces name ≡ name

pub record IsData (json : Text) : Type 0 where
  pub one_line : any is_break json ≡ false
  pub trimmed : strip_left json ≡ json

abbrev pub IsPlain : Event → Type 0
IsPlain (none, json) = IsData json
IsPlain (some name, json) = IsName name × IsData json

-- The text of events as _sse writes those with a name and _data those without.
unfoldable pub written : List Event → Text
written [] = []
written ((none, json) ∷ events) = data_text json ++ written events
written ((some name, json) ∷ events) = sse_text name json ++ written events

lengthen-some : (text raw rest : Text) → lengthen text (some (raw, rest)) ≡ some (text ++ raw, rest)
lengthen-some [] raw rest = refl
lengthen-some (c ∷ text) raw rest = ap (push c) (lengthen-some text raw rest)

-- A line that a blank line follows is a frame.
split_frame_last :
    (text more : Text)
    → any is_break text ≡ false
    → split_frame (text ++ line_feed ∷ line_feed ∷ more) ≡ some (text, more)
unfolding split_frame
split_frame_last text more h =
    split_frame_line text (line_feed ∷ line_feed ∷ more) h
    ∙ lengthen-some text [] more
    ∙ rw (append-nil text) refl

data_frame :
    (json more : Text)
    → any is_break json ≡ false
    → split_frame (data_text json ++ more) ≡ some (data_prefix ++ 32 ∷ json, more)
unfolding data_text
data_frame json more h =
    rw (append_assoc json (line_feed ∷ line_feed ∷ []) more)
      (split_frame_last (data_prefix ++ 32 ∷ json) more h)

split_frame_lf :
    (c : ℕ) (text : Text)
    → (c == line_feed) ≡ false
    → split_frame (line_feed ∷ c ∷ text) ≡ push line_feed (split_frame (c ∷ text))
unfolding split_frame
split_frame_lf c text h = ground arith

sse_frame :
    (name json more : Text)
    → any is_break name ≡ false
    → any is_break json ≡ false
    → split_frame (sse_text name json ++ more)
      ≡ some (event_prefix ++ 32 ∷ (name ++ line_feed ∷ (data_prefix ++ 32 ∷ json)), more)
unfolding sse_text data_text
sse_frame name json more h k =
    rw
      (
        append_assoc name (line_feed ∷ (data_text json)) more,
        split_frame_line (event_prefix ++ 32 ∷ name) (line_feed ∷ (data_text json ++ more)) h,
        split_frame_lf b'd'
            (b'a' ∷ b't' ∷ b'a' ∷ b':' ∷ 32 ∷ (json ++ line_feed ∷ line_feed ∷ []) ++ more) refl,
        data_frame json more k,
      )
      (lengthen-some (event_prefix ++ 32 ∷ name) (line_feed ∷ (data_prefix ++ 32 ∷ json)) more)

read_data :
    (json : Text)
    → IsData json
    → (more : List Text)
    → read_frames ((data_prefix ++ 32 ∷ json) ∷ more) ≡ (none, json) ∷ read_frames more
unfolding read_frames strip_left
read_data json plain more =
    rw (splitlines_last b'd' (b'a' ∷ b't' ∷ b'a' ∷ b':' ∷ 32 ∷ json) plain.one_line)
      (rw plain.trimmed refl)

strip_space : (name : Text) → strip_spaces (32 ∷ name) ≡ strip_spaces name
unfolding strip_spaces strip_left
strip_space name = refl

read_sse :
    (name json : Text)
    → IsName name
    → IsData json
    → (more : List Text)
    → read_frames ((event_prefix ++ 32 ∷ (name ++ line_feed ∷ (data_prefix ++ 32 ∷ json))) ∷ more)
      ≡ (some name, json) ∷ read_frames more
unfolding read_frames strip_left
read_sse name json named plain more =
    rw
      (
        splitlines_line (event_prefix ++ 32 ∷ name) (data_prefix ++ 32 ∷ json) named.one_line,
        splitlines_last b'd' (b'a' ∷ b't' ∷ b'a' ∷ b':' ∷ 32 ∷ json) plain.one_line,
      )
      (rw (strip_space name, named.trimmed, plain.trimmed) refl)

read_nothing : read_frames (frames_of []).0 ≡ []
unfolding read_frames frames_of split_frames
read_nothing = refl

-- The frames of written events give the events.
read_written :
    (events : List Event) → All IsPlain events → read_frames (frames_of (written events)).0 ≡ events
unfolding written
read_written [] h = read_nothing
read_written ((none, json) ∷ events) h =
    rw
      (
        frames_of-some (data_text json ++ written events) (data_prefix ++ 32 ∷ json)
            (written events) (data_frame json (written events) h.0.one_line),
        read_data json h.0 (frames_of (written events)).0,
        read_written events h.1,
      )
      refl
read_written ((some name, json) ∷ events) h =
    rw
      (
        frames_of-some (sse_text name json ++ written events)
            (event_prefix ++ 32 ∷ (name ++ line_feed ∷ (data_prefix ++ 32 ∷ json))) (written events)
            (sse_frame name json (written events) h.0.0.one_line h.0.1.one_line),
        read_sse name json h.0.0 h.0.1 (frames_of (written events)).0,
        read_written events h.1,
      )
      refl

abbrev is_cr : ℕ → Bool
is_cr c = c == 13

one_line-no_cr : (text : Text) → any is_break text ≡ false → any is_cr text ≡ false
one_line-no_cr [] h = refl
one_line-no_cr (c ∷ text) h = ground (arith, one_line-no_cr text)

data_text-no_cr : (json : Text) → any is_break json ≡ false → any is_cr (data_text json) ≡ false
unfolding data_text
data_text-no_cr json h =
    rw (any-append is_cr json (line_feed ∷ line_feed ∷ []), one_line-no_cr json h) refl

sse_text-no_cr :
    (name json : Text)
    → any is_break name ≡ false
    → any is_break json ≡ false
    → any is_cr (sse_text name json) ≡ false
unfolding sse_text
sse_text-no_cr name json h k =
    rw
      (
        any-append is_cr name
            (line_feed ∷ (data_prefix ++ 32 ∷ (json ++ line_feed ∷ line_feed ∷ []))),
        one_line-no_cr name h,
        any-append is_cr json (line_feed ∷ line_feed ∷ []),
        one_line-no_cr json k,
      )
      refl

written-no_cr : (events : List Event) → All IsPlain events → any is_cr (written events) ≡ false
unfolding written
written-no_cr [] h = refl
written-no_cr ((none, json) ∷ events) h =
    rw
      (
        any-append is_cr (data_text json) (written events),
        data_text-no_cr json h.0.one_line,
        written-no_cr events h.1,
      )
      refl
written-no_cr ((some name, json) ∷ events) h =
    rw
      (
        any-append is_cr (sse_text name json) (written events),
        sse_text-no_cr name json h.0.0.one_line h.0.1.one_line,
        written-no_cr events h.1,
      )
      refl

module _ (decode : List ℕ → Text) where
  -- The chunks of a stream, each decoded by itself.
  abbrev pub decoded : List (List ℕ) → Text
  decoded [] = []
  decoded (chunk ∷ chunks) = decode chunk ++ decoded chunks

  text_of-decoded :
      (chunks : List (List ℕ))
      → any is_cr (decoded chunks) ≡ false
      → text_of decode chunks ≡ decoded chunks
  unfolding text_of
  text_of-decoded [] h = refl
  text_of-decoded (chunk ∷ chunks) h =
      let parts = any-append is_cr (decode chunk) (decoded chunks) in
      rw
        (
          crlf_to_lf_id (decode chunk) (ground (arith, parts)),
          text_of-decoded chunks (ground (arith, parts)),
        )
        refl

  -- Events that _sse (those with a name) and _data (those without) wrote, each name and each data
  -- text free of line breaks and of the spaces that reading strips, are read back by iter_sse as
  -- they were, however the stream is cut into chunks, as long as the chunks, decoded one by one,
  -- make up the written text.
  pub iter_sse-written :
      (events : List Event) (chunks : List (List ℕ))
      → All IsPlain events
      → decoded chunks ≡ written events
      → iter_sse decode chunks ≡ events
  iter_sse-written events chunks plain same =
      let no_cr : any is_cr (decoded chunks) ≡ false = rw same (written-no_cr events plain) in
      rw (iter_sse_whole decode chunks, text_of-decoded chunks no_cr, same)
        (read_written events plain)

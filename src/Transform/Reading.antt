-- ===== src/Transform/Reading.antt =====
-- backend/voidswitch/services/transform.py, iter_sse: what is read from a stream depends on its text
-- alone, and what _sse and _data write is read back.
use mathlib.Core.List.{append_assoc, append-nil}
use void_switch.Base.{ℕ, ◌≡◌, refl, ap, none, List, [], ◌∷◌, ◌++◌}
use void_switch.Transform.Sse.{
  Text, crlf_to_lf, splitlines, Frame, read_lines, join_lines, yielded, read_frames, read_chunks,
  iter_sse,
}
use void_switch.Transform.Frames.{frames_of, frames_of-append}

read_frames-append : (xs ys : List Text) → read_frames (xs ++ ys) ≡ read_frames xs ++ read_frames ys
unfolding read_frames
read_frames-append [] ys = refl
read_frames-append (raw ∷ xs) ys = elim read.data_lines as motive [
  | [] ↦ read_frames-append xs ys
  | line ∷ lines ↦ ap (◌∷◌ (read.event, join_lines (line ∷ lines))) (read_frames-append xs ys)
]
  where
    read : Frame
    read = read_lines (record { event = none; data_lines = [] }) (splitlines raw)

    motive : List Text → Type 0
    motive lines =
        yielded (record { event = read.event; data_lines = lines }) (read_frames (xs ++ ys))
        ≡ yielded (record { event = read.event; data_lines = lines }) (read_frames xs)
          ++ read_frames ys

module _ (decode : List ℕ → Text) where
  -- The text of a stream, each chunk decoded and its line ends replaced by itself.
  unfoldable pub text_of : List (List ℕ) → Text
  text_of [] = []
  text_of (chunk ∷ chunks) = crlf_to_lf (decode chunk) ++ text_of chunks

  read_chunks-cons :
      (buffer : Text) (chunk : List ℕ) (chunks : List (List ℕ))
      → read_chunks decode buffer (chunk ∷ chunks)
        ≡ read_frames (frames_of (buffer ++ crlf_to_lf (decode chunk))).0
          ++ read_chunks decode (frames_of (buffer ++ crlf_to_lf (decode chunk))).1 chunks
  unfolding read_chunks frames_of
  read_chunks-cons buffer chunk chunks = refl

  read_chunks_from :
      (text : Text) (chunks : List (List ℕ))
      → read_frames (frames_of text).0 ++ read_chunks decode (frames_of text).1 chunks
        ≡ read_frames (frames_of (text ++ text_of chunks)).0
  unfolding read_chunks text_of
  read_chunks_from text [] = rw (append-nil text) (append-nil _)
  read_chunks_from text (chunk ∷ chunks) =
      let next = crlf_to_lf (decode chunk) in
      let rest = (frames_of text).1 in
      rw
        (
          read_chunks-cons rest chunk chunks,
          ← append_assoc text next (text_of chunks),
          ← read_chunks_from (text ++ next) chunks,
          frames_of-append text next,
          read_frames-append (frames_of text).0 (frames_of (rest ++ next)).0,
          append_assoc (read_frames (frames_of text).0),
        )
        refl

  -- The events of a stream are those of the frames of its whole text.
  pub iter_sse_whole :
      (chunks : List (List ℕ)) → iter_sse decode chunks ≡ read_frames (frames_of (text_of chunks)).0
  unfolding iter_sse frames_of
  iter_sse_whole chunks = read_chunks_from [] chunks

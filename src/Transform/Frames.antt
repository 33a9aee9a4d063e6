-- ===== src/Transform/Frames.antt =====
-- backend/voidswitch/services/transform.py: the frames of an event stream, which do not depend on
-- how the stream is cut into chunks.
use void_switch.Base.{
  ℕ, zero, suc, ◌≤◌, ◌≡◌, refl, sym, ◌∙◌, Option, none, some, List, [], ◌∷◌, ◌++◌, true, ◌&&◌, ◌==◌,
  length, drop, arith, inl, inr, Option-cases, Bool-cases,
}
use void_switch.Transform.Sse.{Text, starts_lf, line_feed, push, split_frame, split_frames}

-- What a split found before one more character.
push-some :
    (c : ℕ) (o : Option (Text × Text)) (raw rest : Text)
    → push c o ≡ some (raw, rest)
    → (first : Text) × (o ≡ some (first, rest)) × (raw ≡ c ∷ first)
push-some c none raw rest h = cc
push-some c (some (first, others)) raw rest h = (first, ground arith, ground arith)

length-drop-le : (n : ℕ) (text : Text) → length (drop n text) ≤ length text
length-drop-le zero text = omega arith
length-drop-le (suc n) [] = omega arith
length-drop-le (suc n) (c ∷ text) = omega (arith, length-drop-le n text)

-- What follows a frame is shorter than the text.
length-split_frame :
    (text raw rest : Text) → split_frame text ≡ some (raw, rest) → suc (length rest) ≤ length text
unfolding split_frame
length-split_frame [] raw rest h = cc
length-split_frame (c ∷ text) raw rest h = elim (Bool-cases (c == line_feed && starts_lf text)) [
  | inl e ↦
      let same : drop 1 text ≡ rest = cc (rw e at h) in
      rw (← same) (omega (arith, length-drop-le 1 text))
  | inr e ↦
      let found = push-some c (split_frame text) raw rest (rw e at h) in
      omega (arith, length-split_frame text found.0 rest found.1)
]

starts_lf-append : (text more : Text) → starts_lf text ≡ true → starts_lf (text ++ more) ≡ true
starts_lf-append [] more h = cc
starts_lf-append (c ∷ text) more h = h

-- The first frame of a text stays when more text arrives.
split_frame-append :
    (text more raw rest : Text)
    → split_frame text ≡ some (raw, rest)
    → split_frame (text ++ more) ≡ some (raw, rest ++ more)
unfolding split_frame
split_frame-append [] more raw rest h = cc
split_frame-append (c ∷ []) more raw rest h = ground arith
split_frame-append (c ∷ d ∷ text) more raw rest h =
    elim (Bool-cases (c == line_feed && d == line_feed)) [
      | inl e ↦ rw e (ground (arith, rw e at h))
      | inr e ↦
          let found = push-some c (split_frame (d ∷ text)) raw rest (rw e at h) in
          rw (e, split_frame-append (d ∷ text) more found.0 rest found.1) (ground (arith, found.2))
    ]

pub split_frames-none :
    (n : ℕ) (text : Text) → split_frame text ≡ none → split_frames n text ≡ ([], text)
unfolding split_frames
split_frames-none zero text e = refl
split_frames-none (suc n) text e = ground (arith, e)

split_frames-some :
    (n : ℕ) (text raw rest : Text)
    → split_frame text ≡ some (raw, rest)
    → split_frames (suc n) text ≡ (raw ∷ (split_frames n rest).0, (split_frames n rest).1)
unfolding split_frames
split_frames-some n text raw rest e = ground (arith, e)

split_frame_short : (text : Text) → length text ≤ 0 → split_frame text ≡ none
unfolding split_frame
split_frame_short [] h = refl
split_frame_short (c ∷ text) h = absurd (omega arith)

-- Any fuel that is at least the length gives the same frames.
split_frames_fuel :
    (m n : ℕ) (text : Text)
    → length text ≤ m
    → length text ≤ n
    → split_frames m text ≡ split_frames n text
split_frames_fuel zero n text h k =
    let none_left = split_frame_short text h in
    split_frames-none zero text none_left ∙ sym (split_frames-none n text none_left)
split_frames_fuel (suc m) zero text h k =
    let none_left = split_frame_short text k in
    split_frames-none (suc m) text none_left ∙ sym (split_frames-none zero text none_left)
split_frames_fuel (suc m) (suc n) text h k = elim (Option-cases (split_frame text)) [
  | inl e ↦ split_frames-none (suc m) text e ∙ sym (split_frames-none (suc n) text e)
  | inr ((raw, rest), e) ↦
      let shorter = length-split_frame text raw rest e in
      rw
        (
          split_frames-some m text raw rest e,
          split_frames-some n text raw rest e,
          split_frames_fuel m n rest (omega arith) (omega arith),
        )
        refl
]

unfoldable pub frames_of : Text → List Text × Text
frames_of text = split_frames (length text) text

pub frames_of-some :
    (text raw rest : Text)
    → split_frame text ≡ some (raw, rest)
    → frames_of text ≡ (raw ∷ (frames_of rest).0, (frames_of rest).1)
unfolding frames_of
frames_of-some [] raw rest e = absurd (omega (arith, length-split_frame [] raw rest e))
frames_of-some (c ∷ text) raw rest e =
    let shorter = length-split_frame (c ∷ text) raw rest e in
    rw
      (
        split_frames-some (length text) (c ∷ text) raw rest e,
        split_frames_fuel (length text) (length rest) rest (omega arith) (omega arith),
      )
      refl

pub frames_of-none : (text : Text) → split_frame text ≡ none → frames_of text ≡ ([], text)
unfolding frames_of
frames_of-none text e = split_frames-none (length text) text e

-- With more text after it, the loop goes on from what is left.
frames_of-append_fuel :
    (n : ℕ) (text more : Text)
    → length text ≤ n
    → frames_of (text ++ more) ≡ (
      (frames_of text).0 ++ (frames_of ((frames_of text).1 ++ more)).0,
      (frames_of ((frames_of text).1 ++ more)).1,
    )
frames_of-append_fuel zero text more h = rw (frames_of-none text (split_frame_short text h)) refl
frames_of-append_fuel (suc n) text more h = elim (Option-cases (split_frame text)) [
  | inl e ↦ rw (frames_of-none text e) refl
  | inr ((raw, rest), e) ↦
      let shorter = length-split_frame text raw rest e in
      rw
        (
          frames_of-some (text ++ more) raw (rest ++ more)
              (split_frame-append text more raw rest e),
          frames_of-some text raw rest e,
          frames_of-append_fuel n rest more (omega arith),
        )
        refl
]

pub frames_of-append :
    (text more : Text)
    → frames_of (text ++ more) ≡ (
      (frames_of text).0 ++ (frames_of ((frames_of text).1 ++ more)).0,
      (frames_of ((frames_of text).1 ++ more)).1,
    )
frames_of-append text more = frames_of-append_fuel (length text) text more (omega arith)

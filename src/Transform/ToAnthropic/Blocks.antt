-- ===== src/Transform/ToAnthropic/Blocks.antt =====
-- backend/voidswitch/services/transform.py, openai_stream_to_anthropic: whatever the upstream sends,
-- a client can follow the events.
use mathlib.Core.List.{append-nil}
use void_switch.Base.{
  ℕ, ◌<◌, ◌≡◌, refl, Option, none, some, List, [], ◌∷◌, ◌++◌, Bool, true, false, if_rule, All,
  All-map, arith, is_some,
}
use void_switch.Transform.ToAnthropic.{
  Out, Delta, Progress, Step, text_block, go_on, send, raised, require, ◌>>=◌, close_text,
  open_text,
}
use void_switch.Transform.ToAnthropic.Client.{
  View, running, Kind, text, thinking, tool, read, read_on, is_done, accepts, takes, remove,
  read-block_start, read-block_stop,
}

abbrev pub tools_open : List (ℕ × ℕ) → List (ℕ × Kind)
tools_open [] = []
tools_open ((k, block) ∷ blocks) = (block, tool) ∷ tools_open blocks

abbrev one_open : Bool → ℕ → Kind → List (ℕ × Kind)
one_open true i kind = (i, kind) ∷ []
one_open false i kind = []

abbrev pub blocks_open : Progress → List (ℕ × Kind)
blocks_open s =
    tools_open s.tool_blocks
    ++ (one_open s.thinking_open s.thinking_index thinking
        ++ one_open s.text_open s.text_index text)

abbrev pub Below : ℕ → List (ℕ × ℕ) → Type 0
Below n blocks = All (λ block. block.1 < n) blocks

abbrev pub view_of : Progress → View
view_of s = running s.next_block (blocks_open s)

-- What holds of the local variables wherever the generator has sent something.
pub record Inv (s : Progress) : Type 0 where
  pub tools_below : Below s.next_block s.tool_blocks
  pub one_at_most : s.thinking_open ≡ true → s.text_open ≡ false
  pub tools_before_text : s.text_open ≡ true → Below s.text_index s.tool_blocks
  pub thinking_first : s.thinking_open ≡ true → s.tool_blocks ≡ []

abbrev Fits : (Progress → Type 0) → Option Progress → View → Type 0
Fits P none v = is_done v ≡ false
Fits P (some s) v = (v ≡ view_of s) × Inv s × P s

-- A client at `v` follows what the step sends, and is then where the variables say, which satisfy P.
pub record Good (v : View) (P : Progress → Type 0) (m : Step) : Type 0 where
  pub after : View
  pub followed : read_on (some v) m.output ≡ some after
  pub fits : Fits P m.state after

abbrev pub Any : Progress → Type 0
Any s = Unit

abbrev pub NoThinking : Progress → Type 0
NoThinking s = s.thinking_open ≡ false

abbrev pub OnlyTools : Progress → Type 0
OnlyTools s = (s.thinking_open ≡ false) × (s.text_open ≡ false)

abbrev pub OnText : Progress → Type 0
OnText s = s.text_open ≡ true

read_on-append :
    (o : Option View) (xs ys : List Out) → read_on o (xs ++ ys) ≡ read_on (read_on o xs) ys
read_on-append o [] ys = refl
read_on-append none (x ∷ xs) [] = refl
read_on-append none (x ∷ xs) (y ∷ ys) = refl
read_on-append (some v) (x ∷ xs) ys = read_on-append (read v x) xs ys

module _ (v : View) (P Q : Progress → Type 0) where
  bind-Good_from :
      (output : List Out) (o : Option Progress) (next : Progress → Step)
      → Good v P (record { output = output; state = o })
      → ((s : Progress) → Inv s → P s → Good (view_of s) Q (next s))
      → Good v Q (record { output = output; state = o } >>= next)
  bind-Good_from output none next g f = record {
    after = g.after;
    followed = g.followed;
    fits = g.fits;
  }
  bind-Good_from output (some s) next g f =
      let rest = f s g.fits.1 g.fits.2 in
      record {
        after = rest.after;
        followed =
            rw (read_on-append (some v) output (next s).output, g.followed, g.fits.0) rest.followed;
        fits = rest.fits;
      }

  pub bind-Good :
      (m : Step) (next : Progress → Step)
      → Good v P m
      → ((s : Progress) → Inv s → P s → Good (view_of s) Q (next s))
      → Good v Q (m >>= next)
  bind-Good m next g f = bind-Good_from m.output m.state next g f

module _ (v : View) (P : Progress → Type 0) where
  pub send-Good :
      (outs : List Out) (s : Progress)
      → read_on (some v) outs ≡ some (view_of s)
      → Inv s
      → P s
      → Good v P (send outs s)
  send-Good outs s h inv p = record { after = view_of s; followed = h; fits = (refl, inv, p) }

  pub raised-Good : is_done v ≡ false → Good v P raised
  raised-Good h = record { after = v; followed = refl; fits = h }

pub go_on-Good : (P : Progress → Type 0) (s : Progress) → Inv s → P s → Good (view_of s) P (go_on s)
go_on-Good P s inv p = send-Good (view_of s) P [] s refl inv p

remove-last :
    (i : ℕ) (kind : Kind) (tools : List (ℕ × ℕ))
    → Below i tools
    → remove i (tools_open tools ++ (i, kind) ∷ []) ≡ some (tools_open tools)
remove-last i kind [] h = ground arith
remove-last i kind ((k, block) ∷ tools) h = ground (arith, remove-last i kind tools h.1)

pub accepts-last :
    (i : ℕ) (kind : Kind) (delta : Delta) (tools : List (ℕ × ℕ))
    → Below i tools
    → accepts i delta (tools_open tools ++ (i, kind) ∷ []) ≡ takes kind delta
accepts-last i kind delta [] h = ground arith
accepts-last i kind delta ((k, block) ∷ tools) h =
    ground (arith, accepts-last i kind delta tools h.1)

pub require-Good {ℓ} :
    {A : Type ℓ} (P : Progress → Type 0) (s : Progress) (o : Option A) (next : A → Step)
    → ((a : A) → o ≡ some a → Good (view_of s) P (next a))
    → Good (view_of s) P (require o next)
require-Good P s none next h = raised-Good (view_of s) P refl
require-Good P s (some a) next h = h a refl

-- What a client makes of the whole stream: it is done with the message exactly if nothing was raised.
pub record Whole (v : View) (m : Step) : Type 0 where
  pub after : View
  pub followed : read_on (some v) m.output ≡ some after
  pub ended : is_done after ≡ is_some m.state

module _ (v : View) (P : Progress → Type 0) where
  bind-Whole_from :
      (output : List Out) (o : Option Progress) (next : Progress → Step)
      → Good v P (record { output = output; state = o })
      → ((s : Progress) → Inv s → P s → Whole (view_of s) (next s))
      → Whole v (record { output = output; state = o } >>= next)
  bind-Whole_from output none next g f = record {
    after = g.after;
    followed = g.followed;
    ended = g.fits;
  }
  bind-Whole_from output (some s) next g f =
      let rest = f s g.fits.1 g.fits.2 in
      record {
        after = rest.after;
        followed =
            rw (read_on-append (some v) output (next s).output, g.followed, g.fits.0) rest.followed;
        ended = rest.ended;
      }

  pub bind-Whole :
      (m : Step) (next : Progress → Step)
      → Good v P m
      → ((s : Progress) → Inv s → P s → Whole (view_of s) (next s))
      → Whole v (m >>= next)
  bind-Whole m next g f = bind-Whole_from m.output m.state next g f

module _ (s : Progress) (inv : Inv s) where
  pub open_is_text :
      s.text_open ≡ true → blocks_open s ≡ tools_open s.tool_blocks ++ (s.text_index, text) ∷ []
  open_is_text e = ground (arith, inv.one_at_most)

  pub open_is_thinking : s.thinking_open ≡ true → blocks_open s ≡ (s.thinking_index, thinking) ∷ []
  open_is_thinking e = rw (inv.thinking_first e, e, inv.one_at_most e) refl

  pub open_is_tools :
      s.thinking_open ≡ false → s.text_open ≡ false → blocks_open s ≡ tools_open s.tool_blocks
  open_is_tools e h = rw (e, h) (append-nil (tools_open s.tool_blocks))

  pub close_text-Good : NoThinking s → Good (view_of s) OnlyTools (close_text s)
  unfolding close_text
  close_text-Good h =
      if_rule (Good (view_of s) OnlyTools) s.text_open _ _
        (λ e.
          send-Good (view_of s) OnlyTools _ _
            (rw (open_is_text e, h, append-nil (tools_open s.tool_blocks))
              (read-block_stop s.next_block s.text_index _ (tools_open s.tool_blocks)
                (remove-last s.text_index text s.tool_blocks (inv.tools_before_text e))))
            (record {
              tools_below = inv.tools_below;
              one_at_most = λ t. refl;
              tools_before_text = λ t. absurd (cc t);
              thinking_first = inv.thinking_first;
            })
            (h, refl))
        λ e. go_on-Good OnlyTools s inv (h, e)

  pub open_text-Good : NoThinking s → Good (view_of s) OnText (open_text s)
  unfolding open_text
  open_text-Good h =
      if_rule (Good (view_of s) OnText) s.text_open _ _ (λ e. go_on-Good OnText s inv e)
        λ e.
          send-Good (view_of s) OnText _ _
            (rw (open_is_tools h e, h)
              (read-block_start s.next_block 0 (tools_open s.tool_blocks) text_block))
            (record {
              tools_below = All-map _ _ s.tool_blocks (λ b below. omega arith) inv.tools_below;
              one_at_most = λ t. cc;
              tools_before_text = λ t. inv.tools_below;
              thinking_first = inv.thinking_first;
            })
            refl

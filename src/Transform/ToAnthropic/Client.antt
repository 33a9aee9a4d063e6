-- ===== src/Transform/ToAnthropic/Client.antt =====
-- What an Anthropic client keeps of a message stream as it reads it: how far the message is, how
-- many content blocks there were, and which are open. It refuses an event out of place: a block that
-- has not the next index, a delta for no open block of its kind, a stop for no open block, a
-- `message_delta` while a block is open.
use void_switch.Base.{
  ℕ, suc, ◌≡◌, refl, Option, none, some, List, [], ◌∷◌, ◌++◌, Bool, true, false, ◌==◌,
  if◌then◌else◌, arith,
}
use void_switch.Transform.ToAnthropic.{
  Out, Block, Delta, text_block, thinking_block, tool_block, text_delta, thinking_delta,
  signature_delta, input_json_delta, message_start, ping, block_start, block_delta, block_stop,
  message_delta, message_stop,
}

pub data Kind : Type 0 where
  text thinking tool : Kind

-- `running` has the number of blocks that began and those that are open, in their order.
pub data View : Type 0 where
  unread : View
  running : ℕ → List (ℕ × Kind) → View
  closing done : ℕ → View

abbrev pub kind_of : Block → Kind
kind_of text_block = text
kind_of thinking_block = thinking
kind_of (tool_block id name) = tool

abbrev pub takes : Kind → Delta → Bool
takes text (text_delta j) = true
takes thinking (thinking_delta j) = true
takes thinking signature_delta = true
takes tool (input_json_delta j) = true
takes kind delta = false

abbrev pub accepts : ℕ → Delta → List (ℕ × Kind) → Bool
accepts i delta [] = false
accepts i delta ((j, kind) ∷ blocks) =
    let rest = accepts i delta blocks in if j == i then takes kind delta else rest

abbrev pub remove : ℕ → List (ℕ × Kind) → Option (List (ℕ × Kind))
remove i [] = none
remove i ((j, kind) ∷ blocks) =
    let rest = remove i blocks in
    if j == i
    then some blocks
    else elim rest [ none ↦ none | some others ↦ some ((j, kind) ∷ others) ]

abbrev none_open : List (ℕ × Kind) → Bool
none_open [] = true
none_open (block ∷ blocks) = false

unfoldable pub read : View → Out → Option View
read unread (message_start model) = some (running 0 [])
read (running n bs) ping = some (running n bs)
read (running n bs) (block_start i block) =
    if i == n then some (running (suc n) (bs ++ (i, kind_of block) ∷ [])) else none
read (running n bs) (block_delta i delta) = if accepts i delta bs then some (running n bs) else none
read (running n bs) (block_stop i) = elim (remove i bs) [
  | none ↦ none
  | some rest ↦ some (running n rest)
]
read (running n bs) (message_delta reason used made) =
    if none_open bs then some (closing n) else none
read (closing n) message_stop = some (done n)
read view out = none

abbrev pub read_on : Option View → List Out → Option View
read_on view [] = view
read_on none (out ∷ outs) = none
read_on (some view) (out ∷ outs) = read_on (read view out) outs

abbrev pub is_done : View → Bool
is_done (done n) = true
is_done view = false

module _ (n i : ℕ) (bs : List (ℕ × Kind)) where
  pub read-block_start :
      (block : Block)
      → read (running n bs) (block_start n block)
        ≡ some (running (suc n) (bs ++ (n, kind_of block) ∷ []))
  unfolding read
  read-block_start block = ground arith

  pub read-block_stop :
      (rest : List (ℕ × Kind))
      → remove i bs ≡ some rest
      → read (running n bs) (block_stop i) ≡ some (running n rest)
  unfolding read
  read-block_stop rest e = rw (read, e) refl

  pub read-block_delta :
      (delta : Delta)
      → accepts i delta bs ≡ true
      → read (running n bs) (block_delta i delta) ≡ some (running n bs)
  unfolding read
  read-block_delta delta e = rw (read, e) refl

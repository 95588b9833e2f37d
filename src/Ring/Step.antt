-- ===== src/Ring/Step.antt =====
-- The write and read steps that queue_block.c, queue_chat.c and queue_cmd.c each spell out.
use mcchost.Base.{
  ℕ, suc, ◌+◌, Bool, ◌&&◌, ◌||◌, List, ltb, leb, ◌==◌, if◌then◌else◌, u32, pred32, get_or, set,
}

-- `cmd_queue_t`, `chat_queue_t` and the common part of `block_queue_t`.
pub record Ring (A : Type 0) : Type 0 where
  pub generation : ℕ
  pub curr_offset : ℕ
  pub queue_len : ℕ
  pub updates : List A

-- The statics `last_id` and `last_generation` of each queue's file. `wiped` is -1 and 0.
pub data Cursor : Type 0 where
  wiped : Cursor
  reading : ℕ → ℕ → Cursor

module _ {A : Type 0} where
  -- Store an entry at `curr_offset`, then step the offset, and the generation where it goes round.
  unfoldable pub put : Ring A → A → Ring A
  put q e =
      let off = u32 (q.curr_offset + 1) in
      if leb q.queue_len off
      then record q {
        updates = set q.updates q.curr_offset e;
        curr_offset = 0;
        generation = u32 (q.generation + 1);
      }
      else record q { updates = set q.updates q.curr_offset e; curr_offset = off }

  unfoldable pub set_last : Ring A → Cursor
  set_last q = reading q.curr_offset q.generation

  -- No overflow: the same generation, or one behind with the writer still below the reader. `same`
  -- is the block queue's further test that its length has not changed since.
  unfoldable pub is_current : Bool → Ring A → ℕ → ℕ → Bool
  is_current same q id gen =
      gen == q.generation || (gen == pred32 q.generation && same && ltb q.curr_offset id)

  -- `last_id++`, and back to 0 in the next generation at the end of the array.
  unfoldable pub advance : Ring A → ℕ → ℕ → Cursor
  advance q id gen =
      if suc id == q.queue_len then reading 0 (u32 (gen + 1)) else reading (suc id) gen

pub data Fetched (A : Type 0) : Type 0 where
  idle overflow drained : Fetched A
  got : A → Cursor → Fetched A

-- One round of the reading loop. A read past the array, which `Follow` rules out, gives `blank`.
unfoldable pub fetch : {A : Type 0} → A → Bool → Ring A → Cursor → Fetched A
unfolding is_current advance
fetch blank same q wiped = idle
fetch blank same q (reading id gen) =
    if is_current same q id gen
    then if id == q.curr_offset then drained else got (get_or q.updates id blank) (advance q id gen)
    else overflow

-- ===== src/Protocol/Anthropic/Events/Twice.antt =====
-- What happens to a message whose finish reason comes twice.
use nextapi.Base.{ℕ, ◌+◌, Bool, ◌&&◌, not, List, [], ◌∷◌}
use nextapi.Protocol.Chat.Parts.{is_none}
use nextapi.Protocol.Ir.{IrChunk}
use nextapi.Protocol.Anthropic.Events.{
  Event, message_start, content_block_start, content_block_delta, content_block_stop, message_delta,
  message_delta_end, message_stop,
}
use nextapi.Protocol.Anthropic.Events.Grammar.{Reading, before, between, inside, ended, over}
use nextapi.Protocol.Anthropic.Events.Write.{first_finish}

abbrev told_by : Event → ℕ
told_by (message_delta s u) = 1
told_by (message_delta_end u) = 1
told_by (message_start id model u) = 0
told_by (content_block_start i b) = 0
told_by (content_block_delta i p) = 0
told_by (content_block_stop i) = 0
told_by message_stop = 0

-- How often the reason of the end is told.
abbrev pub told : List Event → ℕ
told [] = 0
told (e ∷ es) = told_by e + told es

abbrev told_in : Reading → ℕ
told_in before = 0
told_in (between n) = 0
told_in (inside i k) = 0
told_in ended = 1
told_in over = 1

-- A chunk with a finish reason and a usage.
abbrev pub is_final : IrChunk → Bool
is_final c = not (is_none (first_finish c.choices)) && not (is_none c.usage)

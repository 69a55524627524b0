-- ===== src/Tests/Messages.antt =====
-- A stream, a response and messages that the theorems on the Anthropic adapter are applied to.
use nextapi.Base.{pos, true, false, String, Option, none, some, List, [], ◌∷◌, ◌++◌, ◌≡◌, refl}
use nextapi.Base.Json.{str, field, Fields, get_field, obj, no_fields, Serde}
use nextapi.Base.Json.Laws.{only}
use nextapi.Protocol.Finish.{normalize_finish_reason}
use nextapi.Protocol.Anthropic.Blocks.{input_to_arguments}
use nextapi.Protocol.Ir.{
  and_then, assistant, tool, plain, IrMessage, IrToolCall, IrDelta, IrUsage, IrChunk,
}
use nextapi.Protocol.Chat.Chunk.{no_delta}
use nextapi.Protocol.Chat.Response.{no_message}
use nextapi.Protocol.Anthropic.Usage.{parse_usage, usage_to_anthropic}
use nextapi.Protocol.Anthropic.Usage.Trip.{counts, counts-usage_to_anthropic}
use nextapi.Protocol.Anthropic.Body.{turns}
use nextapi.Protocol.Anthropic.Body.Order.{turn_blocks, all_blocks, turns-all_blocks}
use nextapi.Protocol.Anthropic.Response.{response_to_ir, response_from_ir}
use nextapi.Protocol.Anthropic.Response.Spoken.{spoken}
use nextapi.Protocol.Anthropic.Response.Trip.{told, one_choice, told-response_to_ir}
use nextapi.Protocol.Anthropic.Events.{fresh, reverse_finish_reason}
use nextapi.Protocol.Anthropic.Events.Grammar.{before, over, Run}
use nextapi.Protocol.Anthropic.Events.Stream.{whole, whole-Run}
use nextapi.Protocol.Anthropic.Events.Pieces.{pieces, chunk_pieces, pieces-whole}
use nextapi.Protocol.Anthropic.Events.Back.{read_all, solid, read_all-whole}

abbrev serde : Serde
serde = record {
  print = λ v. "{}";
  read = λ s. some (obj no_fields);
  read_error = λ s. "EOF";
  float_of_int = λ z. "1.0";
  int_text = λ z. "2";
}

abbrev used : IrUsage
used = record {
  prompt_tokens = 12;
  completion_tokens = 5;
  cache_read_tokens = some 3;
  cache_write_tokens = none;
  total_tokens = some 20;
  extra = no_fields;
}

abbrev chunk : IrDelta → Option String → Option IrUsage → IrChunk
chunk d finish usage = record {
  id = "msg_1";
  model = "claude";
  created = pos 0;
  choices = record { index = 0; delta = d; finish_reason = finish } ∷ [];
  usage = usage;
  extra = no_fields;
}

abbrev hello : IrChunk
hello = chunk (record no_delta { content = some "hi"; reasoning_content = some "so" }) none none

abbrev called : IrChunk
called =
    chunk
      (record no_delta {
        tool_calls =
            record { index = 0; id = some "call_1"; name = some "get"; arguments = none }
            ∷ record { index = 0; id = none; name = none; arguments = some "{}" }
            ∷ [];
      })
      none none

abbrev finished : IrChunk
finished = chunk no_delta (some "tool_calls") none

abbrev counted : IrChunk
counted = chunk no_delta none (some used)

abbrev rest : List IrChunk
rest = called ∷ finished ∷ counted ∷ []

whole-Run_example : Run before (whole (hello ∷ rest) true []) over
whole-Run_example = whole-Run hello rest true [] ((refl, refl, refl, refl), tt)

read_all-whole_example :
    solid (chunk_pieces (read_all serde (whole (hello ∷ rest) false []) fresh []))
    ≡ solid (chunk_pieces (hello ∷ rest))
read_all-whole_example = read_all-whole serde hello rest false [] [] ((refl, refl, refl, refl), tt)

pieces-whole_example : pieces (whole (hello ∷ rest) true []) ≡ chunk_pieces (hello ∷ rest)
pieces-whole_example = pieces-whole (hello ∷ rest) true []

abbrev final : IrChunk
final = chunk no_delta (some "stop") (some used)

abbrev call : IrToolCall
call = record { id = "call_1"; name = "get"; arguments = "{}" }

-- A response that was cut off, as Anthropic said.
abbrev cut_off : Fields
cut_off = field "anthropic_stop_reason" (str "max_tokens") no_fields

told-response_to_ir_example :
    told
      (and_then
        (response_from_ir serde
          (one_choice "msg_1" "claude"
            (pos 0)
            (spoken (some "so") ("hi" ∷ "ho" ∷ []) (call ∷ []))
            (some "tool_calls")
            (some used)
            cut_off)
          [])
        (response_to_ir serde)).1
    ≡ some (
      "msg_1",
      (
        "claude",
        record {
          index = 0;
          message = spoken (some "so") ("hi" ∷ "ho" ∷ []) (call ∷ []);
          finish_reason = some "length";
        }
            ∷ [],
      ),
    )
unfolding input_to_arguments normalize_finish_reason only get_field
told-response_to_ir_example =
    told-response_to_ir serde "msg_1" "claude" (pos 0) (some "so") ("hi" ∷ "ho" ∷ []) (call ∷ [])
      (some "tool_calls") (some used) cut_off [] (refl, tt) refl refl

-- The same without a raw stop reason.
without_raw :
    told
      (and_then
        (response_from_ir serde
          (one_choice "msg_1" "claude"
            (pos 0)
            (spoken none ("hi" ∷ []) [])
            (some "tool_calls")
            none
            no_fields)
          [])
        (response_to_ir serde)).1
    ≡ some (
      "msg_1",
      (
        "claude",
        record {
          index = 0;
          message = spoken none ("hi" ∷ []) [];
          finish_reason = some "tool_calls";
        }
            ∷ [],
      ),
    )
unfolding normalize_finish_reason reverse_finish_reason only get_field
without_raw =
    told-response_to_ir serde "msg_1" "claude" (pos 0) none ("hi" ∷ []) [] (some "tool_calls") none
      no_fields [] tt refl refl

abbrev talk : List IrMessage
talk =
    record no_message { role = assistant; tool_calls = call ∷ [] }
    ∷ record no_message { role = tool; tool_call_id = some "call_1"; content = some (plain "7") }
    ∷ record no_message { content = some (plain "thanks") }
    ∷ []

turns-all_blocks_example :
    ((turns serde no_fields talk [] []).0 ≡ (all_blocks serde no_fields talk []).0)
    × (turn_blocks (turns serde no_fields talk [] []).1
        ≡ [] ++ (all_blocks serde no_fields talk []).1)
turns-all_blocks_example = turns-all_blocks serde no_fields talk [] []

counts-usage_to_anthropic_example :
    counts (parse_usage (usage_to_anthropic used []).1) ≡ counts used
unfolding only
counts-usage_to_anthropic_example = counts-usage_to_anthropic used [] refl

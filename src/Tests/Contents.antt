-- ===== src/Tests/Contents.antt =====
-- A stream, a usage and calls that the theorems on the Gemini adapter are applied to.
use nextapi.Base.{
  pos, String, Option, none, some, List, [], ◌∷◌, ◌≡◌, refl, ◌&&◌, arith, if◌then◌else◌,
}
use nextapi.Base.Json.{get_field, keep_fields, Value, int, obj, no_fields, field, Serde}
use nextapi.Base.Json.Laws.{only}
use nextapi.Protocol.Ir.{IrToolCallDelta, IrUsage, IrChunk}
use nextapi.Protocol.Chat.Chunk.{no_delta}
use nextapi.Protocol.Chat.Usage.Trip.{counts}
use nextapi.Protocol.Gemini.Usage.{parse_usage_metadata, usage_metadata_to_json}
use nextapi.Protocol.Gemini.Usage.Trip.{is_carried, counts-usage_metadata_to_json}
use nextapi.Protocol.Gemini.Contents.{add_parts, pair_responses, nothing}
use nextapi.Protocol.Gemini.Contents.Pairs.{call_parts, answers, answered, pair_responses-answers}
use nextapi.Protocol.Gemini.Stream.Once.{sent, whole_parts}
use nextapi.Protocol.Gemini.Stream.Sent.{comes, gives_name, gives_args, sent-once}

abbrev serde : Serde
serde = record {
  print = λ v. "{}";
  read = λ s. none;
  read_error = λ s. "EOF";
  float_of_int = λ z. "1.0";
  int_text = λ z. "2";
}

abbrev increments : List IrToolCallDelta → Option String → IrChunk
increments calls finish = record {
  id = "";
  model = "gemini";
  created = pos 0;
  choices =
      record { index = 0; delta = record no_delta { tool_calls = calls }; finish_reason = finish }
      ∷ [];
  usage = none;
  extra = no_fields;
}

abbrev calls : List IrChunk
calls =
    increments (record { index = 3; id = some "c"; name = some "get"; arguments = none } ∷ []) none
    ∷ increments (record { index = 3; id = none; name = none; arguments = some "{" } ∷ []) none
    ∷ increments [] (some "tool_calls")
    ∷ []

sent-once_example :
    sent 3 (whole_parts serde calls)
    ≡ (if comes (gives_name 3) calls && comes (gives_args 3) calls then 1 else 0)
sent-once_example = sent-once serde 3 calls

abbrev thinking : IrUsage
thinking = record {
  prompt_tokens = 12;
  completion_tokens = 9;
  cache_read_tokens = some 3;
  cache_write_tokens = none;
  total_tokens = some 24;
  extra =
      field "thoughtsTokenCount" (int (pos 4)) (field "reasoning_tokens" (int (pos 4)) no_fields);
}

counts-usage_metadata_to_json_example :
    counts (parse_usage_metadata (usage_metadata_to_json thinking []).1) ≡ counts thinking
unfolding is_carried only get_field keep_fields
counts-usage_metadata_to_json_example =
    counts-usage_metadata_to_json thinking [] refl refl refl (omega arith)

abbrev twice : List (String × Value)
twice = ("get", obj no_fields) ∷ ("put", obj no_fields) ∷ ("get", obj no_fields) ∷ []

pair_responses-answers_example :
    ((pair_responses
        (answers
          (add_parts serde (call_parts twice) (nothing []) []).1.calls
          ("1" ∷ "2" ∷ "3" ∷ []))
        (add_parts serde (call_parts twice) (nothing []) []).1.ids
        []).0
      ≡ [])
    × ((pair_responses
          (answers
            (add_parts serde (call_parts twice) (nothing []) []).1.calls
            ("1" ∷ "2" ∷ "3" ∷ []))
          (add_parts serde (call_parts twice) (nothing []) []).1.ids
          []).1.1
        ≡ answered
            (add_parts serde (call_parts twice) (nothing []) []).1.calls
            ("1" ∷ "2" ∷ "3" ∷ []))
pair_responses-answers_example = pair_responses-answers serde twice ("1" ∷ "2" ∷ "3" ∷ []) [] []

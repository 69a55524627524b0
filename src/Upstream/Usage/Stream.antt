-- ===== src/Upstream/Usage/Stream.antt =====
-- src/upstream/usage.rs: the usage of a stream is that of the last event that has one.
use nextapi.Base.{
  String, Bool, true, false, ◌&&◌, not, Option, none, some, List, [], ◌∷◌, ◌++◌, ◌≡◌, refl, ap, ◌∙◌,
  arith, all, lines,
}
use nextapi.Base.Json.{Value, Serde, get}
use nextapi.Protocol.{Protocol, openai_chat}
use nextapi.Protocol.Chat.Parts.{is_none}
use nextapi.Upstream.Usage.{
  extract_sse_usage, Seen, nothing_seen, see, see_line, see_all, parse_sse_data, extract_json_usage,
  has_tokens, seen_usage,
}

see_all-append :
    (serde : Serde) (p : Protocol) (ls ms : List String) (s : Seen)
    → see_all serde p (ls ++ ms) s ≡ see_all serde p ms (see_all serde p ls s)
unfolding see_all
see_all-append serde p [] ms s = refl
see_all-append serde p (l ∷ ls) ms s =
    see_all-append serde p ls ms (see_line p (parse_sse_data serde l) s)

-- An event of a Chat stream that has tokens.
unfoldable pub counts_tokens : Option Value → Bool
counts_tokens none = false
counts_tokens (some v) =
    not (is_none (get "usage" v)) && has_tokens (extract_json_usage openai_chat v)

quiet_line : (o : Option Value) (s : Seen) → counts_tokens o ≡ false → see_line openai_chat o s ≡ s
unfolding counts_tokens see
quiet_line none s h = refl
quiet_line (some v) s h = rw h refl

quiet_lines :
    (serde : Serde) (ls : List String) (s : Seen)
    → all (λ l. not (counts_tokens (parse_sse_data serde l))) ls ≡ true
    → see_all serde openai_chat ls s ≡ s
unfolding see_all
quiet_lines serde [] s h = refl
quiet_lines serde (l ∷ ls) s h =
    ap (λ x. see_all serde openai_chat ls x)
      (quiet_line (parse_sse_data serde l) s (ground (arith, h)))
    ∙ quiet_lines serde ls s (ground (arith, h))

loud_line :
    (v : Value) (s : Seen)
    → counts_tokens (some v) ≡ true
    → seen_usage openai_chat (see openai_chat v s) ≡ extract_json_usage openai_chat v
unfolding counts_tokens see
loud_line v s h = rw h refl

see_all-last :
    (serde : Serde) (before after : List String) (line : String) (v : Value) (s : Seen)
    → parse_sse_data serde line ≡ some v
    → counts_tokens (some v) ≡ true
    → all (λ l. not (counts_tokens (parse_sse_data serde l))) after ≡ true
    → seen_usage openai_chat (see_all serde openai_chat (before ++ line ∷ after) s)
      ≡ extract_json_usage openai_chat v
unfolding see_all
see_all-last serde before after line v s e h q =
    let s₁ = see_all serde openai_chat before s in
    ap (λ x. seen_usage openai_chat x) (see_all-append serde openai_chat before (line ∷ after) s)
    ∙ ap (λ x. seen_usage openai_chat x)
        (quiet_lines serde after (see_line openai_chat (parse_sse_data serde line) s₁) q)
    ∙ ap (λ o. seen_usage openai_chat (see_line openai_chat o s₁)) e
    ∙ loud_line v s₁ h

-- The usage of a Chat stream is that of its last event that counts tokens, whatever came before.
pub extract_sse_usage-last :
    (serde : Serde) (text : String) (before after : List String) (line : String) (v : Value)
    → lines text ≡ before ++ line ∷ after
    → parse_sse_data serde line ≡ some v
    → counts_tokens (some v) ≡ true
    → all (λ l. not (counts_tokens (parse_sse_data serde l))) after ≡ true
    → extract_sse_usage serde openai_chat text ≡ extract_json_usage openai_chat v
unfolding extract_sse_usage
extract_sse_usage-last serde text before after line v t e h q =
    ap (λ ls. seen_usage openai_chat (see_all serde openai_chat ls nothing_seen)) t
    ∙ see_all-last serde before after line v nothing_seen e h q

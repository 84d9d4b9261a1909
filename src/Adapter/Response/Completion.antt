-- ===== src/Adapter/Response/Completion.antt =====
-- The completion that internal/adapter/anthropic_response_fast.go answers with, said without its code.
use strait.Base.{ℕ, [], ◌∷◌, Bytes, codes, pos}
use strait.Adapter.Json.{joined, append_int}
use strait.Adapter.Stream.Chunks.{stop_reason_to_finish_reason}
use strait.Adapter.Response.Parse.{TextOnlyResponse}
use strait.Adapter.Response.Translate.{int_sum}

-- The chat completion with these values, as JSON text.
abbrev pub written_completion : (Bytes → Bytes) → ℕ → TextOnlyResponse → Bytes
written_completion quote created r = joined (
    codes "{\"id\":"
    ∷ quote r.id
    ∷ codes ",\"object\":\"chat.completion\",\"created\":"
    ∷ append_int (pos created)
    ∷ codes ",\"model\":"
    ∷ quote r.model
    ∷ codes ",\"choices\":[{\"index\":0,\"message\":{\"role\":\"assistant\",\"content\":"
    ∷ quote r.text
    ∷ codes "},\"finish_reason\":"
    ∷ quote (stop_reason_to_finish_reason r.stop_reason)
    ∷ codes "}],\"usage\":{\"prompt_tokens\":"
    ∷ append_int r.input_tokens
    ∷ codes ",\"completion_tokens\":"
    ∷ append_int r.output_tokens
    ∷ codes ",\"total_tokens\":"
    ∷ append_int (int_sum r.input_tokens r.output_tokens)
    ∷ codes "}}"
    ∷ [])

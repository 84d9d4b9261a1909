-- ===== src/Adapter/Response/Parse.antt =====
-- `parseAnthropicTextOnlyResponse` and the parsers it calls, of
-- internal/adapter/anthropic_response_fast.go. `fuel` is for the depth of skipped values.
use strait.Base.{
  ℕ, suc, Bool, true, false, not, ◌&&◌, ◌||◌, Option, [], ◌++◌, Bytes, codes, same, is_empty,
  length, if◌then◌else◌, ℤ, pos, ok, fail, ◌>>=◌,
}
use strait.Adapter.Response.Lexer.{
  Read, declined, skip_adapter_json_whitespace, scan_adapter_json_string,
  scan_adapter_json_string_or_null, scan_adapter_json_int,
}
use strait.Adapter.Response.Skip.{read_items, read_members, skip_adapter_json_value}

-- The variables of `parseAnthropicTextBlock`.
pub record TextBlock : Type 0 where
  pub block_type : Bytes
  pub block_text : Bytes

-- The variables of `parseAnthropicTextContentArray`.
pub record ContentText : Type 0 where
  pub text : Bytes
  pub builder : Bytes
  pub multi : Bool

-- The variables of `parseAnthropicUsageObject`.
pub record UsageCounts : Type 0 where
  pub input : ℤ
  pub output : ℤ
  pub have_input : Bool
  pub have_output : Bool

-- `anthropicTextOnlyResponse`
pub record TextOnlyResponse : Type 0 where
  pub id : Bytes
  pub model : Bytes
  pub text : Bytes
  pub stop_reason : Bytes
  pub input_tokens : ℤ
  pub output_tokens : ℤ

-- The variables of `parseAnthropicTextOnlyResponse`.
pub record Parsed : Type 0 where
  pub resp : TextOnlyResponse
  pub have_id : Bool
  pub have_model : Bool
  pub have_content : Bool
  pub have_usage : Bool

unfoldable pub add_block : Bytes → ContentText → ContentText
add_block block_text t =
    if not t.multi && is_empty t.text
    then record t { text = block_text }
    else record t { builder = (if t.multi then t.builder else t.text) ++ block_text; multi = true }

unfoldable pub content_text : ContentText → Bytes
content_text t = if t.multi then t.builder else t.text

unfoldable pub check_block : TextBlock × Bytes → Read (Bytes × Bytes)
check_block (b, s) =
    if not (same b.block_type (codes "text")) then fail declined else ok (b.block_text, s)

unfoldable pub check_usage : UsageCounts × Bytes → Read (UsageCounts × Bytes)
check_usage (u, s) = if not (u.have_input && u.have_output) then fail declined else ok (u, s)

module _ (unquote : Bytes → Option Bytes) (atoi : Bytes → Option ℤ) (fuel : ℕ) where
  unfoldable pub skip_member : {A : Type 0} → A → Bytes → Read (A × Bytes)
  skip_member a s = do (_, next) ← skip_adapter_json_value unquote atoi fuel s; ok (a, next)

  -- The `switch` of `parseAnthropicTextBlock`.
  unfoldable pub block_member : Bytes → TextBlock → Bytes → Read (TextBlock × Bytes)
  unfolding skip_member
  block_member key b s =
      if same key (codes "type")
      then (do
        (value, next) ← scan_adapter_json_string unquote s
        ok (record b { block_type = value }, next))
      else if same key (codes "text")
      then (do
        (value, next) ← scan_adapter_json_string unquote s
        ok (record b { block_text = value }, next))
      else skip_member b s

  -- `parseAnthropicTextBlock`
  unfoldable pub parse_anthropic_text_block : Bytes → Read (Bytes × Bytes)
  unfolding block_member check_block
  parse_anthropic_text_block s = do
    b ← read_members unquote block_member (record { block_type = []; block_text = [] }) s
    check_block b

  unfoldable pub content_item : ContentText → Bytes → Read (ContentText × Bytes)
  unfolding parse_anthropic_text_block add_block
  content_item t s = do
    (block_text, next) ← parse_anthropic_text_block s
    ok (add_block block_text t, next)

  -- `parseAnthropicTextContentArray`
  unfoldable pub parse_anthropic_text_content_array : Bytes → Read (Bytes × Bytes)
  unfolding content_item content_text
  parse_anthropic_text_content_array s = do
    (t, next) ← read_items content_item (record { text = []; builder = []; multi = false }) s
    ok (content_text t, next)

  -- The `switch` of `parseAnthropicUsageObject`.
  unfoldable pub usage_member : Bytes → UsageCounts → Bytes → Read (UsageCounts × Bytes)
  unfolding skip_member
  usage_member key u s =
      if same key (codes "input_tokens")
      then (do
        (value, next) ← scan_adapter_json_int atoi s
        ok (record u { input = value; have_input = true }, next))
      else if same key (codes "output_tokens")
      then (do
        (value, next) ← scan_adapter_json_int atoi s
        ok (record u { output = value; have_output = true }, next))
      else skip_member u s

  -- `parseAnthropicUsageObject`
  unfoldable pub parse_anthropic_usage_object : Bytes → Read (UsageCounts × Bytes)
  unfolding usage_member check_usage
  parse_anthropic_usage_object s = do
    u ←
        read_members unquote usage_member
          (record { input = pos 0; output = pos 0; have_input = false; have_output = false }) s
    check_usage u

  -- The `switch` of `parseAnthropicTextOnlyResponse`.
  unfoldable pub response_member : Bytes → Parsed → Bytes → Read (Parsed × Bytes)
  unfolding skip_member parse_anthropic_text_content_array parse_anthropic_usage_object
  response_member key p s =
      if same key (codes "id")
      then (do
        (value, next) ← scan_adapter_json_string unquote s
        ok (record p { resp = record p.resp { id = value }; have_id = true }, next))
      else if same key (codes "model")
      then (do
        (value, next) ← scan_adapter_json_string unquote s
        ok (record p { resp = record p.resp { model = value }; have_model = true }, next))
      else if same key (codes "stop_reason")
      then (do
        (value, next) ← scan_adapter_json_string_or_null unquote s
        ok (record p { resp = record p.resp { stop_reason = value } }, next))
      else if same key (codes "content")
      then (do
        (value, next) ← parse_anthropic_text_content_array s
        ok (record p { resp = record p.resp { text = value }; have_content = true }, next))
      else if same key (codes "usage")
      then (do
        (value, next) ← parse_anthropic_usage_object s
        ok (
          record p {
            resp = record p.resp { input_tokens = value.input; output_tokens = value.output };
            have_usage = true;
          },
          next,
        ))
      else if same key (codes "error")
      then fail declined
      else skip_member p s

unfoldable pub check_response : Parsed × Bytes → Read TextOnlyResponse
check_response (p, s) =
    if not p.have_id || not p.have_model || not p.have_content || not p.have_usage
    then fail declined
    else ok p.resp

abbrev pub nothing_parsed : Parsed
nothing_parsed = record {
  resp = record {
    id = [];
    model = [];
    text = [];
    stop_reason = [];
    input_tokens = pos 0;
    output_tokens = pos 0;
  };
  have_id = false;
  have_model = false;
  have_content = false;
  have_usage = false;
}

module _ (unquote : Bytes → Option Bytes) (atoi : Bytes → Option ℤ) where
  -- `parseAnthropicTextOnlyResponse`
  unfoldable pub parse_anthropic_text_only_response : Bytes → Read TextOnlyResponse
  unfolding response_member check_response
  parse_anthropic_text_only_response s = do
    p ←
        read_members unquote (response_member unquote atoi (suc (length s))) nothing_parsed
          (skip_adapter_json_whitespace s)
    check_response p

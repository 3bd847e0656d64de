-- ===== src/Agent/Transcript.antt =====
-- The transcript of a run (src/apps/ai/runtime/transcript.py, and the rows of
-- src/apps/ai/models/conversation.py). The content hash is left out.
pub mod Order
use noshiro_db_backend.Base.{
  ℕ, zero, suc, ◌+◌, max, Bool, List, [], ◌∷◌, ◌++◌, Option, none, some, map, String, ◌==◌, is_cons,
  order_by, select_where, if◌then◌else◌, or_default,
}

-- `AgentMessage.Role`
pub data Role : Type 0 where
  system user assistant tool : Role

-- A tool call as the provider gave it; the arguments are JSON text.
pub record ToolCall : Type 0 where
  pub id : String
  pub name : String
  pub arguments : String

pub record AgentMessage : Type 0 where
  pub run : ℕ
  pub sequence : ℕ
  pub role : Role
  pub name : String
  pub tool_call_id : String
  pub content : String
  pub tool_calls : List ToolCall

-- `text[:n]`
unfoldable pub take_chars : ℕ → String → String
take_chars zero s = String.[]
take_chars (suc n) String.[] = String.[]
take_chars (suc n) (String.◌∷◌ c s) = String.◌∷◌ c (take_chars n s)

abbrev pub message_sequence : AgentMessage → ℕ
message_sequence m = m.sequence

-- The highest sequence number among the messages of a run, if there is one.
unfoldable pub last_sequence : ℕ → List AgentMessage → Option ℕ
last_sequence run [] = none
last_sequence run (m ∷ t) =
    let rest = last_sequence run t in
    if m.run == run
    then some (elim rest [ none ↦ m.sequence | some n ↦ max m.sequence n ])
    else rest

-- The new row of `append_message`. `int(sequence or 0) + 1` is its number.
unfoldable pub next_message :
    ℕ → Role → String → String → String → List ToolCall → List AgentMessage → AgentMessage
unfolding last_sequence take_chars
next_message run role content name tool_call_id tool_calls rows = record {
  run = run;
  sequence = or_default (last_sequence run rows) 0 + 1;
  role = role;
  name = take_chars 128 name;
  tool_call_id = take_chars 128 tool_call_id;
  content = take_chars 2_000_000 content;
  tool_calls = tool_calls;
}

unfoldable pub append_message :
    ℕ → Role → String → String → String → List ToolCall → List AgentMessage → List AgentMessage
unfolding next_message
append_message run role content name tool_call_id tool_calls rows =
    rows ++ next_message run role content name tool_call_id tool_calls rows ∷ []

-- A chat message as the provider wants it. An assistant message has the key `tool_calls` only if
-- there are any.
pub data ProviderMessage : Type 0 where
  assistant_message : String → Option (List ToolCall) → ProviderMessage
  tool_message : String → String → String → ProviderMessage
  plain_message : Role → String → ProviderMessage

unfoldable pub provider_message : AgentMessage → ProviderMessage
provider_message m = elim m.role [
  | Role.assistant ↦
      assistant_message m.content (if is_cons m.tool_calls then some m.tool_calls else none)
  | Role.tool ↦ tool_message m.tool_call_id m.content m.name
  | Role.system ↦ plain_message Role.system m.content
  | Role.user ↦ plain_message Role.user m.content
]

-- `messages_for_provider`
unfoldable pub messages_for_provider : ℕ → List AgentMessage → List ProviderMessage
unfolding provider_message order_by
messages_for_provider run rows =
    map provider_message (order_by message_sequence (select_where (λ m. m.run == run) rows))

-- ===== src/Sdk/V3/Types/Events.antt =====
-- Evidence and the outbox: structs of sdk/go/eidovela/v3/client.go,
-- their reading from a document, and where a document is made of them, its writing.
use eidovela_open.Common.{ℕ, ℤ, Option, some}
use eidovela_open.Text.{Text, text}
use eidovela_open.Base64.{◌>>=◌}
use eidovela_open.Json.{Value}
use eidovela_open.Json.Struct.{string_field, struct_members}
use eidovela_open.Json.Fields.{int_field, uint_field}
use eidovela_open.Sdk.Http.{Net}
use eidovela_open.Sdk.Wire.{u64, u32, time_field}

pub record EvidenceEvent : Type 0 where
  pub event_id : Text
  pub event_type : Text
  pub agent_id : Text
  pub instance_id : Text
  pub lifecycle_epoch : ℕ
  pub outcome : Text
  pub reason : Text
  pub correlation_id : Text
  pub created_at : ℤ

unfoldable pub decode_evidence_event : Net → Value → Option EvidenceEvent
decode_evidence_event net v = do
  ms ← struct_members v
  event_id ← string_field ms (text "eventId")
  event_type ← string_field ms (text "eventType")
  agent_id ← string_field ms (text "agentId")
  instance_id ← string_field ms (text "instanceId")
  lifecycle_epoch ← uint_field u64 ms (text "lifecycleEpoch")
  outcome ← string_field ms (text "outcome")
  reason ← string_field ms (text "reason")
  correlation_id ← string_field ms (text "correlationId")
  created_at ← time_field net ms (text "createdAt")
  some (record {
    event_id = event_id;
    event_type = event_type;
    agent_id = agent_id;
    instance_id = instance_id;
    lifecycle_epoch = lifecycle_epoch;
    outcome = outcome;
    reason = reason;
    correlation_id = correlation_id;
    created_at = created_at;
  })

pub record OutboxStats : Type 0 where
  pub published : ℤ
  pub pending : ℤ
  pub leased : ℤ
  pub dead_lettered : ℤ

unfoldable pub decode_outbox_stats : Value → Option OutboxStats
decode_outbox_stats v = do
  ms ← struct_members v
  published ← int_field ms (text "published")
  pending ← int_field ms (text "pending")
  leased ← int_field ms (text "leased")
  dead_lettered ← int_field ms (text "deadLettered")
  some (record {
    published = published;
    pending = pending;
    leased = leased;
    dead_lettered = dead_lettered;
  })

pub record OutboxEvent : Type 0 where
  pub event_id : Text
  pub topic : Text
  pub agent_id : Text
  pub epoch : ℕ
  pub state : Text
  pub attempts : ℕ
  pub lease_until : ℤ
  pub created_at : ℤ
  pub dead_lettered_at : ℤ

unfoldable pub decode_outbox_event : Net → Value → Option OutboxEvent
decode_outbox_event net v = do
  ms ← struct_members v
  event_id ← string_field ms (text "eventId")
  topic ← string_field ms (text "topic")
  agent_id ← string_field ms (text "agentId")
  epoch ← uint_field u64 ms (text "epoch")
  state ← string_field ms (text "state")
  attempts ← uint_field u32 ms (text "attempts")
  lease_until ← time_field net ms (text "leaseUntil")
  created_at ← time_field net ms (text "createdAt")
  dead_lettered_at ← time_field net ms (text "deadLetteredAt")
  some (record {
    event_id = event_id;
    topic = topic;
    agent_id = agent_id;
    epoch = epoch;
    state = state;
    attempts = attempts;
    lease_until = lease_until;
    created_at = created_at;
    dead_lettered_at = dead_lettered_at;
  })

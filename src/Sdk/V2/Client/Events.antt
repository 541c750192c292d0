-- ===== src/Sdk/V2/Client/Events.antt =====
-- Evidence and the outbox: ListEvidence to ListEvidenceSincePage, OutboxStatus, ListOutboxEvents,
-- ListOutboxEventsPage and RedriveOutboxEvent of sdk/go/eidovela/client.go.
use eidovela_open.Common.{ℤ, pos, [], ◌∷◌, ◌++◌, List, Option, none, some, false}
use eidovela_open.Text.{Text, text}
use eidovela_open.Text.Split.{join}
use eidovela_open.Text.Url.{query_escape}
use eidovela_open.Json.{null}
use eidovela_open.Sdk.Http.{Net, Operation, posting, getting, reading, ignoring}
use eidovela_open.Sdk.V2.Client.{ampersand, page_query, filter_param, decode_page}
use eidovela_open.Sdk.V2.Types.Events.{
  EvidenceRecord, decode_evidence_record, OutboxStatus, decode_outbox_status, OutboxEvent,
  decode_outbox_event,
}

-- `if since != nil { … }`
abbrev pub since_param : Net → Option ℤ → List Text
since_param net none = []
since_param net (some t) = (text "since=" ++ query_escape (net.platform.format_rfc3339 t)) ∷ []

-- listEvidenceSince
unfoldable pub list_evidence_from :
    Net → Text → Option ℤ → ℤ → ℤ → Text → Operation (List EvidenceRecord × Text)
list_evidence_from net event_type since limit offset cursor =
    getting
      (text "/v1/evidence?"
        ++ join
            (filter_param (text "event_type=") event_type
              ++ (since_param net since ++ (page_query false [] limit offset cursor ∷ [])))
            ampersand)
      (decode_page (decode_evidence_record net) (text "evidence"))

unfoldable pub list_evidence : Net → Text → ℤ → ℤ → Operation (List EvidenceRecord)
list_evidence net event_type limit offset =
    reading (λ r. r.0) (list_evidence_from net event_type none limit offset [])

unfoldable pub list_evidence_since : Net → Text → Option ℤ → ℤ → ℤ → Operation (List EvidenceRecord)
list_evidence_since net event_type since limit offset =
    reading (λ r. r.0) (list_evidence_from net event_type since limit offset [])

unfoldable pub list_evidence_page : Net → Text → ℤ → Text → Operation (List EvidenceRecord × Text)
list_evidence_page net event_type limit cursor =
    list_evidence_from net event_type none limit (pos 0) cursor

unfoldable pub list_evidence_since_page :
    Net → Text → Option ℤ → ℤ → Text → Operation (List EvidenceRecord × Text)
list_evidence_since_page net event_type since limit cursor =
    list_evidence_from net event_type since limit (pos 0) cursor

unfoldable pub outbox_status : Operation OutboxStatus
outbox_status = getting (text "/v1/ops/outbox") decode_outbox_status

-- listOutboxEvents
unfoldable pub list_outbox_events_from :
    Net → Text → ℤ → ℤ → Text → Operation (List OutboxEvent × Text)
list_outbox_events_from net status limit offset cursor =
    getting
      (text "/v1/ops/outbox/events?"
        ++ join
            (filter_param (text "status=") status ++ (page_query false [] limit offset cursor ∷ []))
            ampersand)
      (decode_page (decode_outbox_event net) (text "events"))

unfoldable pub list_outbox_events : Net → Text → ℤ → ℤ → Operation (List OutboxEvent)
list_outbox_events net status limit offset =
    reading (λ r. r.0) (list_outbox_events_from net status limit offset [])

unfoldable pub list_outbox_events_page : Net → Text → ℤ → Text → Operation (List OutboxEvent × Text)
list_outbox_events_page net status limit cursor =
    list_outbox_events_from net status limit (pos 0) cursor

unfoldable pub redrive_outbox_event : Text → Operation (Unit {0})
redrive_outbox_event event_id =
    posting (text "/v1/ops/outbox/events/" ++ (event_id ++ text "/redrive")) (some null) ignoring

-- ===== src/Sdk/V2/Client/Lists.antt =====
-- What the queries of the lists say (listAgents, listAgentInstances, listBlueprints,
-- listEvidenceSince and listOutboxEvents of sdk/go/eidovela/client.go).
use mathlib.Core.List.{append_assoc}
use eidovela_open.Common.{
  ℤ, ◌≡◌, refl, false, not, [], ◌∷◌, ◌++◌, List, Option, some, if◌then◌else◌,
}
use eidovela_open.Text.{Text, text, is_empty}
use eidovela_open.Text.Url.{query_escape, parse_query}
use eidovela_open.Text.Url.Query.{Says, Says-nil, Says-append, Says-param, given}
use eidovela_open.Base64.RoundTrip.{IsBytes}
use eidovela_open.Sdk.Http.{Net, path_of}
use eidovela_open.Sdk.V2.Client.{page_query, filter_param}
use eidovela_open.Sdk.V2.Client.Agents.{
  list_agents_from, list_agent_instances_from, list_blueprints_from,
}
use eidovela_open.Sdk.V2.Client.Events.{list_evidence_from, list_outbox_events_from, since_param}
use eidovela_open.Sdk.V2.Client.Queries.{
  state-IsName, status-IsName, publisher-IsName, blueprint_id-IsName, event_type-IsName,
  Says-filter, page_query_lem, page_query_last, since_filter, page_entries, since_entries,
}

-- The path has a query that says this.
abbrev pub HasQuery : Text → Text → List (Text × Text) → Type 0
HasQuery path base said =
    (q : Text) × (path ≡ base ++ (text "?" ++ q)) × (parse_query q ≡ some said)

state_filter :
    (state : Text)
    → IsBytes state
    → Says
        (if not (is_empty state) then (text "state=" ++ query_escape state) ∷ [] else [])
        (given (text "state") state)
state_filter [] bytes = Says-nil
state_filter (c ∷ state) bytes = Says-param (text "state") (c ∷ state) state-IsName bytes

-- The query of ListAgents and ListAgentsPage, parsed, says what was asked for: the state if one is given,
-- the limit if it is positive, and the cursor, or without one the offset if it is positive. The state and
-- the cursor hold any bytes.
pub list_agents_from-HasQuery :
    (net : Net) (state : Text) (limit offset : ℤ) (cursor : Text)
    → IsBytes state
    → IsBytes cursor
    → HasQuery
        (path_of (list_agents_from net state limit offset cursor))
        (text "/v1/agents")
        (given (text "state") state ++ page_entries limit offset cursor)
unfolding list_agents_from
list_agents_from-HasQuery net state limit offset cursor s c = (
  page_query (not (is_empty state)) (text "state=" ++ query_escape state) limit offset cursor,
  refl,
  page_query_lem (not (is_empty state)) _ _ limit offset cursor (state_filter state s) c,
)

pub list_agent_instances_from-HasQuery :
    (net : Net) (agent_id : Text) (limit offset : ℤ) (cursor : Text)
    → IsBytes cursor
    → HasQuery
        (path_of (list_agent_instances_from net agent_id limit offset cursor))
        (text "/v1/agents/" ++ (agent_id ++ text "/instances"))
        (page_entries limit offset cursor)
unfolding list_agent_instances_from
list_agent_instances_from-HasQuery net agent_id limit offset cursor c = (
  page_query false [] limit offset cursor,
  cc (
      append_assoc agent_id (text "/instances")
        (text "?" ++ page_query false [] limit offset cursor)),
  page_query_lem false [] [] limit offset cursor Says-nil c,
)

append_three : {A : Type 0} (a b c d : List A) → (a ++ (b ++ c)) ++ d ≡ a ++ (b ++ (c ++ d))
append_three a b c d = rw (append_assoc a (b ++ c) d, append_assoc b c d) refl

-- The query of ListBlueprints and ListBlueprintsPage, parsed, says what was asked for: the status, the
-- publisher and the blueprint's id as far as they are given, the limit if it is positive, and the cursor, or
-- without one the offset if it is positive. The texts hold any bytes.
pub list_blueprints_from-HasQuery :
    (net : Net) (status publisher blueprint_id : Text) (limit offset : ℤ) (cursor : Text)
    → IsBytes status
    → IsBytes publisher
    → IsBytes blueprint_id
    → IsBytes cursor
    → HasQuery
        (path_of (list_blueprints_from net status publisher blueprint_id limit offset cursor))
        (text "/v1/blueprints")
        (given (text "status") status
          ++ (given (text "publisher") publisher
              ++ (given (text "blueprint_id") blueprint_id ++ page_entries limit offset cursor)))
unfolding list_blueprints_from
list_blueprints_from-HasQuery net status publisher blueprint_id limit offset cursor s p b c =
    let filters = Says-append _ _ (Says-filter (text "status") status status-IsName s) (
      Says-append _ _ (Says-filter (text "publisher") publisher publisher-IsName p)
        (Says-filter (text "blueprint_id") blueprint_id blueprint_id-IsName b)) in
    let page = page_query false [] limit offset cursor ∷ [] in
    (
      _,
      refl,
      rw
          (
            append_three (filter_param (text "status=") status)
                (filter_param (text "publisher=") publisher)
                (filter_param (text "blueprint_id=") blueprint_id) page,
            append_three (given (text "status") status) (given (text "publisher") publisher)
                (given (text "blueprint_id") blueprint_id) (page_entries limit offset cursor),
          )
          at (page_query_last _ limit offset cursor filters c),
    )

-- The query of the evidence names the type, if one is given, the time, if there is one, and the page.
pub list_evidence_from-HasQuery :
    (net : Net) (event_type : Text) (since : Option ℤ) (limit offset : ℤ) (cursor : Text)
    → IsBytes event_type
    → ((t : ℤ) → IsBytes (net.platform.format_rfc3339 t))
    → IsBytes cursor
    → HasQuery
        (path_of (list_evidence_from net event_type since limit offset cursor))
        (text "/v1/evidence")
        (given (text "event_type") event_type
          ++ (since_entries net since ++ page_entries limit offset cursor))
unfolding list_evidence_from
list_evidence_from-HasQuery net event_type since limit offset cursor e times c =
    let filters =
      Says-append _ _ (Says-filter (text "event_type") event_type event_type-IsName e)
        (since_filter net since times) in
    let page = page_query false [] limit offset cursor ∷ [] in
    (
      _,
      refl,
      rw
          (
            append_assoc (filter_param (text "event_type=") event_type) (since_param net since)
                page,
            append_assoc (given (text "event_type") event_type) (since_entries net since)
                (page_entries limit offset cursor),
          )
          at (page_query_last _ limit offset cursor filters c),
    )

pub list_outbox_events_from-HasQuery :
    (net : Net) (status : Text) (limit offset : ℤ) (cursor : Text)
    → IsBytes status
    → IsBytes cursor
    → HasQuery
        (path_of (list_outbox_events_from net status limit offset cursor))
        (text "/v1/ops/outbox/events")
        (given (text "status") status ++ page_entries limit offset cursor)
unfolding list_outbox_events_from
list_outbox_events_from-HasQuery net status limit offset cursor s c = (
  _,
  refl,
  page_query_last _ limit offset cursor (Says-filter (text "status") status status-IsName s) c,
)

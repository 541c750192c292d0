-- ===== src/Sdk/V2/Client/Agents.antt =====
-- Agents and blueprints: RegisterAgent to RevokeWithReason, ListAgents to ListAgentInstancesPage,
-- AgentDetail, and the blueprint methods of sdk/go/eidovela/client.go. An id goes into the path as it is.
use eidovela_open.Common.{ℤ, pos, not, [], ◌∷◌, ◌++◌, List, some, false}
use eidovela_open.Text.{Text, text, is_empty}
use eidovela_open.Text.Split.{join}
use eidovela_open.Text.Url.{query_escape}
use eidovela_open.Json.{Value, null, string, object, members}
use eidovela_open.Sdk.Http.{Net, Operation, posting, getting, reading}
use eidovela_open.Sdk.V2.Client.{ampersand, page_query, filter_param, decode_page}
use eidovela_open.Sdk.V2.Types.Agents.{
  RegisterAgentRequest, encode_register_agent_request, Agent, decode_agent, AgentSummary,
  decode_agent_summary, Blueprint, decode_blueprint, encode_blueprint,
}
use eidovela_open.Sdk.V2.Types.Instances.{Instance, decode_instance}

unfoldable pub register_agent : RegisterAgentRequest → Operation Agent
register_agent req = posting (text "/v1/agents") (encode_register_agent_request req) decode_agent

unfoldable pub activate : Text → Operation Agent
activate agent_id =
    posting (text "/v1/agents/" ++ (agent_id ++ text "/activate")) (some null) decode_agent

unfoldable pub suspend : Text → Operation Agent
suspend agent_id =
    posting (text "/v1/agents/" ++ (agent_id ++ text "/suspend")) (some null) decode_agent

unfoldable pub revoke : Text → Operation Agent
revoke agent_id =
    posting (text "/v1/agents/" ++ (agent_id ++ text "/revoke")) (some null) decode_agent

-- `if reason != "" { request = … }`, else nil
abbrev pub reason_request : Text → Value
reason_request [] = null
reason_request (c ∷ s) = object (members ((text "reason", string (c ∷ s)) ∷ []))

unfoldable pub suspend_or_revoke : Text → Text → Text → Operation Agent
suspend_or_revoke agent_id op reason =
    posting (text "/v1/agents/" ++ (agent_id ++ (text "/" ++ op))) (some (reason_request reason))
      decode_agent

unfoldable pub suspend_with_reason : Text → Text → Operation Agent
suspend_with_reason agent_id reason = suspend_or_revoke agent_id (text "suspend") reason

unfoldable pub revoke_with_reason : Text → Text → Operation Agent
revoke_with_reason agent_id reason = suspend_or_revoke agent_id (text "revoke") reason

unfoldable pub agent_detail : Net → Text → Operation AgentSummary
agent_detail net agent_id = getting (text "/v1/agents/" ++ agent_id) (decode_agent_summary net)

-- listAgents
unfoldable pub list_agents_from : Net → Text → ℤ → ℤ → Text → Operation (List AgentSummary × Text)
list_agents_from net state limit offset cursor =
    getting
      (text "/v1/agents?"
        ++ page_query (not (is_empty state)) (text "state=" ++ query_escape state) limit offset
            cursor)
      (decode_page (decode_agent_summary net) (text "agents"))

unfoldable pub list_agents : Net → Text → ℤ → ℤ → Operation (List AgentSummary)
list_agents net state limit offset = reading (λ r. r.0) (list_agents_from net state limit offset [])

unfoldable pub list_agents_page : Net → Text → ℤ → Text → Operation (List AgentSummary × Text)
list_agents_page net state limit cursor = list_agents_from net state limit (pos 0) cursor

-- listAgentInstances
unfoldable pub list_agent_instances_from :
    Net → Text → ℤ → ℤ → Text → Operation (List Instance × Text)
list_agent_instances_from net agent_id limit offset cursor =
    getting
      (text "/v1/agents/"
        ++ (agent_id ++ (text "/instances?" ++ page_query false [] limit offset cursor)))
      (decode_page (decode_instance net) (text "instances"))

unfoldable pub list_agent_instances : Net → Text → ℤ → ℤ → Operation (List Instance)
list_agent_instances net agent_id limit offset =
    reading (λ r. r.0) (list_agent_instances_from net agent_id limit offset [])

unfoldable pub list_agent_instances_page : Net → Text → ℤ → Text → Operation (List Instance × Text)
list_agent_instances_page net agent_id limit cursor =
    list_agent_instances_from net agent_id limit (pos 0) cursor

unfoldable pub register_blueprint : Net → Blueprint → Operation Blueprint
register_blueprint net blueprint =
    posting (text "/v1/blueprints") (encode_blueprint net blueprint) (decode_blueprint net)

unfoldable pub publish_blueprint : Net → Text → Operation Blueprint
publish_blueprint net blueprint_id =
    posting (text "/v1/blueprints/" ++ (blueprint_id ++ text "/publish")) (some null)
      (decode_blueprint net)

unfoldable pub deprecate_blueprint : Net → Text → Operation Blueprint
deprecate_blueprint net blueprint_id =
    posting (text "/v1/blueprints/" ++ (blueprint_id ++ text "/deprecate")) (some null)
      (decode_blueprint net)

-- listBlueprints
unfoldable pub list_blueprints_from :
    Net → Text → Text → Text → ℤ → ℤ → Text → Operation (List Blueprint × Text)
list_blueprints_from net status publisher blueprint_id limit offset cursor =
    getting
      (text "/v1/blueprints?"
        ++ join
            (filter_param (text "status=") status
              ++ (filter_param (text "publisher=") publisher
                  ++ (filter_param (text "blueprint_id=") blueprint_id
                      ++ (page_query false [] limit offset cursor ∷ []))))
            ampersand)
      (decode_page (decode_blueprint net) (text "blueprints"))

unfoldable pub list_blueprints : Net → Text → Text → Text → ℤ → ℤ → Operation (List Blueprint)
list_blueprints net status publisher blueprint_id limit offset =
    reading (λ r. r.0) (list_blueprints_from net status publisher blueprint_id limit offset [])

unfoldable pub list_blueprints_page :
    Net → Text → Text → Text → ℤ → Text → Operation (List Blueprint × Text)
list_blueprints_page net status publisher blueprint_id limit cursor =
    list_blueprints_from net status publisher blueprint_id limit (pos 0) cursor

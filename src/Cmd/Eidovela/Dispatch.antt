-- ===== src/Cmd/Eidovela/Dispatch.antt =====
-- The rest of cmd/eidovela/main.go: evidenceSince, blueprintOp, the switch of main, and its end.
use eidovela_open.Common.{
  ℕ, pos, true, false, ◌||◌, List, [], ◌∷◌, none, some, Result, ok, err, if◌then◌else◌, zero_time,
}
use eidovela_open.Text.{Text, text, text_eq, is_empty}
use eidovela_open.Sdk.Http.{Net, Client, Transport, Operation, reading, new_client, perform}
use eidovela_open.Sdk.V2.Types.Agents.{RegisterAgentRequest, Blueprint}
use eidovela_open.Sdk.Http
use eidovela_open.Cmd.Flags
use eidovela_open.Sdk.V2.Client.Agents
use eidovela_open.Sdk.V2.Client.Trusts
use eidovela_open.Sdk.V2.Client.Events
use eidovela_open.Cmd.Flags.{Flags, string, int, parse, string_flag, int_flag}
use eidovela_open.Cmd.Eidovela.{
  Output, agent, agents, detail, statuses, blueprint, blueprints, evidence, outbox, Plan, exits,
  asks, Tools, usage, fatal, after, one, no_more, lifecycle_with_reason, federation_trust,
  instance_op,
}

abbrev evidence_flags : Flags
evidence_flags = (text "type", string []) ∷ (text "since", string []) ∷ []

-- The arguments behind the flags are passed over.
unfoldable pub evidence_since : Tools → List Text → Plan
evidence_since tools args = after (parse tools.parse_int evidence_flags args) λ flags rest.
    let event_type = string_flag flags (text "type") in
    let since = string_flag flags (text "since") in
    if is_empty since
    then asks (reading evidence (Events.list_evidence tools.net event_type (pos 0) (pos 0)))
    else (elim (tools.net.platform.parse_rfc3339 since) [
      | none ↦ fatal
      | some t ↦ asks (
          reading evidence
            (Events.list_evidence_since tools.net event_type (some t) (pos 0) (pos 0)))
    ])

abbrev register_flags : Flags
register_flags =
    (text "class", string [])
    ∷ (text "version", string [])
    ∷ (text "publisher", string (text "axisrobo"))
    ∷ []

abbrev pub draft_of : Text → Text → Text → Blueprint
draft_of publisher version class = record {
  blueprint_id = [];
  publisher = publisher;
  version = version;
  declared_class = class;
  metadata = none;
  allowed_enrollment_profiles = none;
  status = [];
  created_at = zero_time;
}

-- The case "register" of blueprintOp
unfoldable pub register_blueprint : Tools → List Text → Plan
register_blueprint tools args = after (parse tools.parse_int register_flags args) λ flags rest.
    let class = string_flag flags (text "class") in
    let version = string_flag flags (text "version") in
    no_more rest (
      if is_empty class || is_empty version
      then usage
      else asks (
          reading blueprint (
            Agents.register_blueprint tools.net
              (draft_of (string_flag flags (text "publisher")) version class))))

abbrev list_flags : Flags
list_flags =
    (text "status", string [])
    ∷ (text "publisher", string [])
    ∷ (text "blueprint-id", string [])
    ∷ (text "limit", int (pos 0))
    ∷ []

-- The case "list" of blueprintOp
unfoldable pub list_blueprints : Tools → List Text → Plan
list_blueprints tools args = after (parse tools.parse_int list_flags args) λ flags rest.
    no_more rest (
      asks (
        reading blueprints (
          Agents.list_blueprints tools.net (string_flag flags (text "status"))
            (string_flag flags (text "publisher")) (string_flag flags (text "blueprint-id"))
            (int_flag flags (text "limit")) (pos 0))))

unfoldable pub blueprint_op : Tools → List Text → Plan
unfolding register_blueprint list_blueprints
blueprint_op tools [] = usage
blueprint_op tools (op ∷ args) =
    if text_eq op (text "register")
    then register_blueprint tools args
    else if text_eq op (text "publish")
    then one args (λ id. asks (reading blueprint (Agents.publish_blueprint tools.net id)))
    else if text_eq op (text "deprecate")
    then one args (λ id. asks (reading blueprint (Agents.deprecate_blueprint tools.net id)))
    else if text_eq op (text "list")
    then list_blueprints tools args
    else usage

abbrev pub registration : Text → Text → Text → RegisterAgentRequest
registration class binding_type root = record {
  class = class;
  blueprint_id = [];
  blueprint_version = [];
  binding_type = binding_type;
  authority_root_ref = root;
  sponsor_ref = [];
}

abbrev register : Text → Text → List Text → Plan
register class binding_type args =
    one args
      λ root. asks (reading agent (Agents.register_agent (registration class binding_type root)))

-- The case "agents": at most a state
unfoldable pub agents_command : Tools → List Text → Plan
agents_command tools [] = asks (reading agents (Agents.list_agents tools.net [] (pos 0) (pos 0)))
agents_command tools (state ∷ args) =
    no_more args (asks (reading agents (Agents.list_agents tools.net state (pos 0) (pos 0))))

-- The case "evidence"
unfoldable pub evidence_command : Tools → List Text → Plan
unfolding evidence_since
evidence_command tools [] =
    asks (reading evidence (Events.list_evidence tools.net [] (pos 0) (pos 0)))
evidence_command tools (a ∷ args) = evidence_since tools (a ∷ args)

-- The switch of main, on the arguments behind the flags
unfoldable pub command : Tools → List Text → Plan
unfolding federation_trust instance_op blueprint_op lifecycle_with_reason agents_command
    evidence_command
command tools [] = usage
command tools (name ∷ args) =
    if text_eq name (text "register-service")
    then register (text "service") (text "organization_root") args
    else if text_eq name (text "register-twin")
    then register (text "twin") (text "human_master") args
    else if text_eq name (text "activate")
    then one args (λ id. asks (reading agent (Agents.activate id)))
    else if text_eq name (text "suspend")
    then lifecycle_with_reason tools true args
    else if text_eq name (text "revoke")
    then lifecycle_with_reason tools false args
    else if text_eq name (text "federation-trust")
    then federation_trust tools args
    else if text_eq name (text "instance")
    then instance_op tools args
    else if text_eq name (text "blueprint")
    then blueprint_op tools args
    else if text_eq name (text "agents")
    then agents_command tools args
    else if text_eq name (text "agent")
    then one args (λ id. asks (reading detail (Agents.agent_detail tools.net id)))
    else if text_eq name (text "evidence")
    then evidence_command tools args
    else if text_eq name (text "outbox")
    then no_more args (asks (reading outbox Events.outbox_status))
    else if text_eq name (text "fed-status")
    then no_more args (asks (reading statuses Trusts.federation_trust_statuses))
    else usage

abbrev pub main_flags : Flags
main_flags = (text "server", string (text "http://localhost:1966")) ∷ []

-- How the program ends: with a code, or with a result that is printed.
pub data Ending : Type 0 where
  exit : ℕ → Ending
  printed : Output → Ending

abbrev pub finish : Result Http.ClientError Output → Ending
finish (ok result) = printed result
finish (err e) = exit 1

abbrev pub run_plan : Net → Client → Transport → Plan → Ending
run_plan net c transport (exits code) = exit code
run_plan net c transport (asks op) = finish (perform net c transport op)

abbrev run_parsed : Tools → Transport → Flags.Parsed → Ending
run_parsed tools transport (Flags.exits code) = exit code
run_parsed tools transport (Flags.parsed flags args) =
    run_plan tools.net (new_client (string_flag flags (text "server"))) transport
      (command tools args)

-- main
unfoldable pub main : Tools → Transport → List Text → Ending
unfolding command
main tools transport args = run_parsed tools transport (parse tools.parse_int main_flags args)

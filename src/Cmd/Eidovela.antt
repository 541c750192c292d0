-- ===== src/Cmd/Eidovela.antt =====
-- The command line client, cmd/eidovela/main.go: what it asks the service for, or how it ends. Printing is
-- left out: the texts of usage and of errors, and the encoding of the result.
pub mod Dispatch
pub mod Arguments
use eidovela_open.Common.{
  ℕ, ℤ, pos, ◌≡◌, refl, Bool, true, false, not, ◌&&◌, ◌||◌, List, [], ◌∷◌, Option, none, some,
  Result, ok, err, if◌then◌else◌, zero_time,
}
use eidovela_open.Text.{Text, text, text_eq, is_empty}
use eidovela_open.Text.Split.{split}
use eidovela_open.Text.Space.{trim_space}
use eidovela_open.Sdk.Http.{Net, Operation, reading}
use eidovela_open.Sdk.V2.Types.Agents.{RegisterAgentRequest, Agent, AgentSummary, Blueprint}
use eidovela_open.Sdk.V2.Types.Instances.{Instance}
use eidovela_open.Sdk.V2.Types.Trusts.{FederationTrust, FederationTrustStatus}
use eidovela_open.Sdk.V2.Types.Events.{EvidenceRecord, OutboxStatus}
use eidovela_open.Sdk.V2.Client.Agents
use eidovela_open.Sdk.V2.Client.Enrollment
use eidovela_open.Sdk.V2.Client.Trusts
use eidovela_open.Sdk.V2.Client.Events
use eidovela_open.Cmd.Flags.{
  Flags, FlagValue, Parsed, parsed, string, int, parse, string_flag, int_flag,
}

-- The result that is printed
pub data Output : Type 0 where
  agent : Agent → Output
  agents : List AgentSummary → Output
  detail : AgentSummary → Output
  trust : FederationTrust → Output
  trusts : List FederationTrust → Output
  statuses : List FederationTrustStatus → Output
  instance' : Instance → Output
  blueprint : Blueprint → Output
  blueprints : List Blueprint → Output
  evidence : List EvidenceRecord → Output
  outbox : OutboxStatus → Output

-- How a command goes on: it ends the program with a code, or it asks the service.
pub data Plan : Type 0 where
  exits : ℕ → Plan
  asks : Operation Output → Plan

-- What the command meets outside: Go's library, and time.Parse of RFC 3339 for a lease and a listing.
pub record Tools : Type 0 where
  pub net : Net
  pub parse_int : Text → Option ℤ

-- usage, and log.Fatal
abbrev pub usage : Plan
usage = exits 2

abbrev pub fatal : Plan
fatal = exits 1

abbrev pub after : Parsed → (Flags → List Text → Plan) → Plan
after (parsed flags args) next = next flags args
after (Parsed.exits code) next = exits code

-- A single argument, or the usage
abbrev pub one : List Text → (Text → Plan) → Plan
one (a ∷ []) next = next a
one _ next = usage

abbrev pub no_more : List Text → Plan → Plan
no_more [] next = next
no_more (a ∷ args) next = usage

-- splitCSV
unfoldable pub csv_items : List Text → List Text
csv_items [] = []
csv_items (part ∷ parts) =
    let rest = csv_items parts in
    let trimmed = trim_space part in if is_empty trimmed then rest else trimmed ∷ rest

unfoldable pub split_csv : Text → List Text
unfolding csv_items
split_csv raw = csv_items (split raw b',')

abbrev pub lifecycle_flags : Flags
lifecycle_flags = (text "reason", string []) ∷ []

-- lifecycleWithReason: `op == "suspend"` is the first argument.
unfoldable pub lifecycle_with_reason : Tools → Bool → List Text → Plan
lifecycle_with_reason tools suspends (a ∷ []) =
    asks (reading agent (if suspends then Agents.suspend a else Agents.revoke a))
lifecycle_with_reason tools suspends args =
    after (parse tools.parse_int lifecycle_flags args) λ flags rest. one rest λ agent_id.
      let reason = string_flag flags (text "reason") in
      asks (
        reading agent (
          if suspends
          then Agents.suspend_with_reason agent_id reason
          else Agents.revoke_with_reason agent_id reason))

abbrev pub trust_flags : Flags
trust_flags =
    (text "jwks-uri", string [])
    ∷ (text "audiences", string [])
    ∷ (text "agent-claim", string (text "sub"))
    ∷ (text "status", string (text "active"))
    ∷ []

-- The trust that the flags describe; a field that is not set has the zero value.
abbrev pub trust_of : Text → Text → List Text → Text → Text → FederationTrust
trust_of issuer jwks_uri allowed agent_claim status = record {
  tenant_id = [];
  issuer = issuer;
  jwks_uri = jwks_uri;
  allowed_audiences = some allowed;
  claim_mappings = some ((text "agent_id", agent_claim) ∷ []);
  status = status;
  created_at = zero_time;
}

unfoldable pub create_federation_trust : Tools → List Text → Plan
create_federation_trust tools args = after (parse tools.parse_int trust_flags args) λ flags rest.
    one rest λ issuer.
      let jwks_uri = string_flag flags (text "jwks-uri") in
      let audiences = string_flag flags (text "audiences") in
      if is_empty jwks_uri || is_empty audiences
      then usage
      else asks (
          reading trust (
            Trusts.create_federation_trust tools.net (
              trust_of issuer jwks_uri (split_csv audiences)
                (string_flag flags (text "agent-claim")) (string_flag flags (text "status")))))

unfoldable pub federation_trust : Tools → List Text → Plan
unfolding create_federation_trust
federation_trust tools [] = usage
federation_trust tools (op ∷ args) =
    if text_eq op (text "list")
    then asks (reading trusts (Trusts.list_federation_trusts tools.net))
    else if text_eq op (text "get")
    then one args (λ issuer. asks (reading trust (Trusts.get_federation_trust tools.net issuer)))
    else if text_eq op (text "enable")
    then one args (λ issuer. asks (reading trust (Trusts.enable_federation_trust tools.net issuer)))
    else if text_eq op (text "disable")
    then one args
        (λ issuer. asks (reading trust (Trusts.disable_federation_trust tools.net issuer)))
    else if text_eq op (text "create")
    then create_federation_trust tools args
    else usage

abbrev pub lease_flags : Flags
lease_flags = (text "expires", string []) ∷ []

-- The case "lease" of instanceOp
unfoldable pub lease : Tools → List Text → Plan
lease tools args = after (parse tools.parse_int lease_flags args) λ flags rest.
    one rest λ instance_id.
      let expires = string_flag flags (text "expires") in
      if is_empty expires then usage else (elim (tools.net.platform.parse_rfc3339 expires) [
        | none ↦ fatal
        | some t ↦ asks (reading instance' (Enrollment.lease_instance tools.net instance_id t))
      ])

unfoldable pub instance_op : Tools → List Text → Plan
unfolding lease
instance_op tools [] = usage
instance_op tools (op ∷ args) =
    if text_eq op (text "terminate")
    then one args (λ id. asks (reading instance' (Enrollment.terminate_instance tools.net id)))
    else if text_eq op (text "lease")
    then lease tools args
    else usage

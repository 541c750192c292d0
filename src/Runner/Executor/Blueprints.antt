-- ===== src/Runner/Executor/Blueprints.antt =====
-- The operations on blueprints of conformance/runner/executor.go: blueprintRegister, blueprintPublish,
-- blueprintDeprecate, registerBlueprintAgent and blueprintList; and those on the reason of a suspension:
-- suspendWithReason and evidenceLifecycleReason. No step reaches them.
use eidovela_open.Common.{Bool, ◌||◌, ◌&&◌, [], ◌∷◌, ◌++◌, Option, none, some, if◌then◌else◌}
use eidovela_open.Text.{Text, text, text_eq, is_empty}
use eidovela_open.Base64
use eidovela_open.Json.{Value, string, null, object, Claims, members}
use eidovela_open.Json.Struct.{string_field, struct_members}
use eidovela_open.Json.Fields.{list_field}
use eidovela_open.Runner.Executor.{
  Env, Step, unmet, Action, ◌>>=◌, ◌>>◌, pure, fail, read, write, needs, or_default,
}
use eidovela_open.Runner.Executor.Http.{post, fetch}
use eidovela_open.Runner.Executor.Projections.{first, holds}

-- The answer is read into an empty struct.
abbrev nothing : Claims → Option (Unit {0})
nothing ms = some tt

-- Id, version and status
abbrev blueprint_of : Claims → Option (Text × Text × Text)
blueprint_of ms = Base64.◌>>=◌ (string_field ms (text "blueprint_id")) λ id.
    Base64.◌>>=◌ (string_field ms (text "version"))
      λ version. Base64.◌>>=◌ (string_field ms (text "status")) λ status. some (id, version, status)

abbrev blueprint_row : Value → Option (Text × Text × Text)
blueprint_row v = Base64.◌>>=◌ (struct_members v) blueprint_of

-- blueprintRegister
unfoldable pub blueprint_register : {D : Type 0} → Env D → Step → Action D (Unit {0})
blueprint_register env step =
    if is_empty step.blueprint_version || is_empty step.blueprint_class
    then fail (unmet (text "blueprint_register requires blueprint_version and blueprint_class"))
    else (do
      (id, version, status) ←
          post env (text "/v1/blueprints")
            (object (
              members (
                (text "publisher", string (or_default step.blueprint_publisher (text "axisrobo")))
                ∷ (text "version", string step.blueprint_version)
                ∷ (text "declared_class", string step.blueprint_class)
                ∷ (text "status", string (text "published"))
                ∷ [])))
            blueprint_of
      holds (text_eq status (text "draft")) (text "blueprint registration must force draft")
      write λ s. record s { managed_blueprint_id = id; managed_blueprint_version = version })

-- A post about the managed blueprint
abbrev on_managed : {D : Type 0} → Env D → Text → Text → Action D (Unit {0})
on_managed env op message = do
  id ← read λ s. s.managed_blueprint_id
  needs id message
  post env (text "/v1/blueprints/" ++ (id ++ (b'/' ∷ op))) null nothing

-- blueprintPublish
unfoldable pub blueprint_publish : {D : Type 0} → Env D → Action D (Unit {0})
blueprint_publish env =
    on_managed env (text "publish") (text "blueprint_publish requires blueprint_register first")

-- blueprintDeprecate
unfoldable pub blueprint_deprecate : {D : Type 0} → Env D → Action D (Unit {0})
blueprint_deprecate env =
    on_managed env (text "deprecate") (text "blueprint_deprecate requires blueprint_register first")

-- registerBlueprintAgent
unfoldable pub register_blueprint_agent : {D : Type 0} → Env D → Action D (Unit {0})
register_blueprint_agent env = do
  s ← read λ s. s
  needs s.managed_blueprint_id (text "register_blueprint_agent requires a published blueprint")
  agent_id ←
      post env (text "/v1/agents")
        (object (
          members (
            (text "class", string s.agent_class)
            ∷ (text "blueprint_id", string s.managed_blueprint_id)
            ∷ (text "blueprint_version", string s.managed_blueprint_version)
            ∷ (text "binding_type", string s.binding_type)
            ∷ (text "authority_root_ref", string s.authority_root_ref)
            ∷ [])))
        (λ ms. string_field ms (text "agent_id"))
  pure tt

abbrev listed : {D : Type 0} → Text → Option (Text × Text × Text) → Action D (Unit {0})
listed wanted none = fail (unmet (text "managed blueprint not in list"))
listed wanted (some (_, _, status)) = holds (text_eq status wanted) (text "blueprint status")

-- blueprintList
unfoldable pub blueprint_list : {D : Type 0} → Env D → Step → Action D (Unit {0})
blueprint_list env step = do
  s ← read λ s. s
  needs s.managed_blueprint_id (text "blueprint_list requires blueprint_register first")
  rows ←
      fetch env (text "/v1/blueprints?blueprint_id=" ++ env.query_escape s.managed_blueprint_id)
        (λ ms. list_field blueprint_row ms (text "blueprints"))
  listed step.expect_blueprint_status
      (first (λ row. text_eq row.1 s.managed_blueprint_version) rows)

-- suspendWithReason
unfoldable pub suspend_with_reason : {D : Type 0} → Env D → Step → Action D (Unit {0})
suspend_with_reason env step = do
  agent_id ← read λ s. s.agent_id
  post env (text "/v1/agents/" ++ (agent_id ++ text "/suspend"))
      (object (members ((text "reason", string step.reason) ∷ []))) nothing

-- Type, agent and reason
abbrev reason_row : Value → Option (Text × Text × Text)
reason_row v = Base64.◌>>=◌ (struct_members v) λ ms.
    Base64.◌>>=◌ (string_field ms (text "eventType")) λ type.
      Base64.◌>>=◌ (string_field ms (text "agentId"))
        λ agent. Base64.◌>>=◌ (string_field ms (text "reason")) λ reason. some (type, agent, reason)

abbrev is_suspension : Text → Text × Text × Text → Bool
is_suspension agent_id (type, agent, _) =
    text_eq type (text "identity.lifecycle.suspended") && text_eq agent agent_id

abbrev has_reason : {D : Type 0} → Text → Option (Text × Text × Text) → Action D (Unit {0})
has_reason wanted none = fail (unmet (text "suspended lifecycle evidence missing for agent"))
has_reason wanted (some (_, _, reason)) =
    holds (text_eq reason wanted) (text "suspended event reason")

-- evidenceLifecycleReason
unfoldable pub evidence_lifecycle_reason : {D : Type 0} → Env D → Step → Action D (Unit {0})
evidence_lifecycle_reason env step = do
  agent_id ← read λ s. s.agent_id
  rows ← fetch env (text "/v1/evidence") (λ ms. list_field reason_row ms (text "evidence"))
  has_reason step.reason (first (is_suspension agent_id) rows)

-- ===== src/Runner/Executor/Pages.antt =====
-- The operations on pages of agents of conformance/runner/executor.go, which no step reaches: emptyPage,
-- and cursorPageAgents, whose loop runs as long as the daemon answers with another cursor.
pub mod Walk
use eidovela_open.Common.{
  ℕ, zero, suc, ◌+◌, ◌==◌, List, [], ◌∷◌, ◌++◌, true, false, Option, none, some, Result, ok, err,
  if◌then◌else◌, Bool,
}
use eidovela_open.Text.{Text, text, text_eq, is_empty}
use eidovela_open.Base64.{◌>>=◌}
use eidovela_open.Json.{Value, Claims}
use eidovela_open.Json.Struct.{string_field, struct_members}
use eidovela_open.Json.Fields.{list_field}
use eidovela_open.Runner.Executor.{Env, World, Failure, unmet, Action}
use eidovela_open.Runner.Executor.Http.{fetch}
use eidovela_open.Runner.Executor.Projections.{checked, holds}

abbrev agent_row : Value → Option Text
agent_row v = do ms ← struct_members v; string_field ms (text "agent_id")

abbrev agents_of : Claims → Option (List Text)
agents_of ms = list_field agent_row ms (text "agents")

abbrev no_agents : List Text → Bool
no_agents [] = true
no_agents (id ∷ ids) = false

-- emptyPage
unfoldable pub empty_page : {D : Type 0} → Env D → Action D (Unit {0})
empty_page env =
    checked (fetch env (text "/v1/agents?offset=100000&limit=50") agents_of)
      λ ids. holds (no_agents ids) (text "expected empty page")

-- The agents of a page, and the next cursor
abbrev page_of : Claims → Option (List Text × Text)
page_of ms = do
  ids ← agents_of ms
  next_cursor ← string_field ms (text "next_cursor")
  some (ids, next_cursor)

-- One request of the walk
unfoldable pub page : {D : Type 0} → Env D → Text → Action D (List Text × Text)
page env cursor =
    fetch env
      (if is_empty cursor
        then text "/v1/agents?limit=2"
        else text "/v1/agents?limit=2" ++ (text "&cursor=" ++ env.query_escape cursor))
      page_of

-- How often the agent is in the list
unfoldable pub visits : Text → List Text → ℕ
visits agent_id [] = 0
visits agent_id (id ∷ ids) =
    let rest = visits agent_id ids in if text_eq id agent_id then suc rest else rest

abbrev pub seen_once : ℕ → Result Failure (Unit {0})
seen_once seen =
    if seen == 1 then ok tt else err (unmet (text "cursor walk visited agent, want exactly 1"))

-- What follows a page
abbrev pub turn :
    {D : Type 0}
    → Text
    → ℕ
    → (Text → ℕ → World D → Option (World D × Result Failure (Unit {0})))
    → World D × Result Failure (List Text × Text)
    → Option (World D × Result Failure (Unit {0}))
turn agent_id seen go (w, err e) = some (w, err e)
turn agent_id seen go (w, ok (ids, next)) =
    let later = go next (seen + visits agent_id ids) w in
    if is_empty next then some (w, seen_once (seen + visits agent_id ids)) else later

-- The loop, with fuel for this many pages; none where the fuel runs out.
unfoldable pub walk :
    {D : Type 0}
    → Env D
    → Text
    → ℕ
    → Text
    → ℕ
    → World D
    → Option (World D × Result Failure (Unit {0}))
walk env agent_id zero cursor seen w = none
walk env agent_id (suc fuel) cursor seen w =
    turn agent_id seen (walk env agent_id fuel) (page env cursor w)

-- cursorPageAgents
unfoldable pub cursor_page_agents :
    {D : Type 0} → Env D → ℕ → World D → Option (World D × Result Failure (Unit {0}))
cursor_page_agents env fuel w = walk env w.scenario.agent_id fuel [] 0 w

-- ===== src/Tests/Pages.antt =====
-- An example of the walk over the pages of agents, with a daemon that has two pages.
use eidovela_open.Common.{ℕ, ap, ◌≡◌, ◌≢◌, refl, [], ◌∷◌, none, some, ok, arith, if◌then◌else◌}
use eidovela_open.Text.{Text, text, text_eq}
use eidovela_open.Json.{Value, string, array, values, object, members}
use eidovela_open.Json.Struct.{string_field, struct_members, names_field}
use eidovela_open.Json.Fields.{list_field, field_from}
use eidovela_open.Runner.Executor.{Env, World, ◌>>=◌, pure, lift}
use eidovela_open.Runner.Executor.Http.{exchange_http, fetch}
use eidovela_open.Runner.Executor.Exec.{begin}
use eidovela_open.Runner.Executor.Pages.{page, cursor_page_agents}
use eidovela_open.Runner.Executor.Pages.Walk.{Walked, last, more, cursor_page_agents_iff}
use eidovela_open.Tests.Toy.{toy}
use eidovela_open.Tests.Registry.{started}
use eidovela_open.Tests.Fixtures.{env, keys, scenario}

abbrev agent : Text → Value
agent id = object (members ((text "agent_id", string id) ∷ []))

abbrev first_page : Value
first_page = object (
    members (
      (text "agents", array (values (agent (text "b") ∷ agent (text "a") ∷ [])))
      ∷ (text "next_cursor", string (text "c"))
      ∷ []))

abbrev last_page : Value
last_page = object (members ((text "agents", array (values (agent (text "d") ∷ []))) ∷ []))

abbrev paging : Env (Unit {0})
paging = record env {
  platform = record toy {
    json_decode = λ s. some (if text_eq s (text "1") then first_page else last_page);
  };
  answer = λ out d r. (
    d,
    r,
    some (record {
      status = 200;
      body =
          if text_eq out.url (text "http://127.0.0.1/v1/agents?limit=2")
          then text "1"
          else text "2";
    }),
  );
}

abbrev world : World (Unit {0})
world =
    let w = begin keys scenario tt started none in
    record w { scenario = record w.scenario { agent_id = text "a" } }

abbrev first : Text → ℕ
first [] = 0
first (c ∷ s) = c

b≢a : text "b" ≢ text "a"
b≢a e = omega (arith, ap first e)

d≢a : text "d" ≢ text "a"
d≢a e = omega (arith, ap first e)

two_pages : Walked paging [] world ((text "b" ∷ text "a" ∷ []) ∷ (text "d" ∷ []) ∷ []) world
unfolding page fetch exchange_http ◌>>=◌ pure lift text_eq list_field struct_members string_field
    names_field field_from begin
two_pages = more {next = text "c"} refl (λ e. cc) (last refl)

cursor_page_agents_iff_example : cursor_page_agents paging 2 world ≡ some (world, ok tt)
unfolding begin
cursor_page_agents_iff_example = (cursor_page_agents_iff paging 2 world world).1 (
  (text "b" ∷ text "a" ∷ []) ∷ (text "d" ∷ []) ∷ [],
  two_pages,
  omega arith,
  record {
    before = text "b" ∷ [];
    after = text "d" ∷ [];
    parts = refl;
    not_before = (b≢a, tt);
    not_after = (d≢a, tt);
  },
)

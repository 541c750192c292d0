-- ===== src/Runner/Executor/Pages/Walk.antt =====
-- The walk over the pages of agents (cursorPageAgents of conformance/runner/executor.go).
use eidovela_open.Common.{
  ℕ, zero, suc, ◌+◌, ◌≤◌, ◌≡◌, ◌≢◌, ◌↔◌, All, Bool-cases, inl, inr, refl, ap, ◌∙◌, List, [], ◌∷◌,
  ◌++◌, Option, some, Result, ok, err, arith, length,
}
use eidovela_open.Text.{Text, text_eq}
use eidovela_open.Text.Laws.{text_eq_iff, text_eq_sound, text_eq_refl}
use eidovela_open.Runner.Executor.{Env, World, Failure}
use eidovela_open.Runner.Executor.Pages.{page, visits, seen_once, turn, walk, cursor_page_agents}

-- From a cursor, the daemon answers with these pages, and only the last one names no further cursor.
pub data Walked {D : Type 0} (env : Env D)
    : Text → World D → List (List Text) → World D → Type 0 where
  last :
      {cursor : Text} {w v : World D} {ids : List Text}
      → page env cursor w ≡ (v, ok (ids, []))
      → Walked env cursor w (ids ∷ []) v
  more :
      {cursor next : Text} {w u v : World D} {ids : List Text} {pages : List (List Text)}
      → page env cursor w ≡ (u, ok (ids, next))
      → next ≢ []
      → Walked env next u pages v
      → Walked env cursor w (ids ∷ pages) v

abbrev pub agents_on : List (List Text) → List Text
agents_on [] = []
agents_on (ids ∷ pages) = ids ++ agents_on pages

visits-append :
    (agent_id : Text) (ids more' : List Text)
    → visits agent_id (ids ++ more') ≡ visits agent_id ids + visits agent_id more'
unfolding visits
visits-append agent_id [] more' = omega arith
visits-append agent_id (id ∷ ids) more' = ground (arith, visits-append agent_id ids more')

turn-more :
    {D : Type 0} (agent_id : Text) (seen : ℕ)
    (go : Text → ℕ → World D → Option (World D × Result Failure (Unit {0}))) (w : World D)
    (ids : List Text) (next : Text)
    → next ≢ []
    → turn agent_id seen go (w, ok (ids, next)) ≡ go next (seen + visits agent_id ids) w
turn-more agent_id seen go w ids [] n = absurd (n refl)
turn-more agent_id seen go w ids (c ∷ next) n = refl

walk-Walked :
    {D : Type 0} (env : Env D) (agent_id : Text) (fuel seen : ℕ) {cursor : Text} {w v : World D}
    {pages : List (List Text)}
    → Walked env cursor w pages v
    → length pages ≤ fuel
    → walk env agent_id fuel cursor seen w
      ≡ some (v, seen_once (seen + visits agent_id (agents_on pages)))
unfolding walk visits
walk-Walked env agent_id zero seen (last e) k = absurd (omega arith)
walk-Walked env agent_id zero seen (more e n h) k = absurd (omega arith)
walk-Walked env agent_id (suc fuel) seen (last {v = v} {ids = ids} e) k =
    rw e (ap (λ n. some (v, seen_once n)) (omega (arith, visits-append agent_id ids [])))
walk-Walked env agent_id (suc fuel) seen
      (more {next = next} {v = v} {ids = ids} {pages = pages} e n h) k =
    rw (e, turn-more agent_id seen (walk env agent_id fuel) _ ids next n)
      (walk-Walked env agent_id fuel (seen + visits agent_id ids) h (omega (arith, k))
        ∙ ap (λ n. some (v, seen_once n))
            (omega (arith, visits-append agent_id ids (agents_on pages))))

visits_zero :
    (agent_id : Text) (ids : List Text) → (visits agent_id ids ≡ 0) ↔ All (λ id. id ≢ agent_id) ids
unfolding visits
visits_zero agent_id [] = ground arith
visits_zero agent_id (id ∷ ids) = ground (arith, visits_zero agent_id ids, text_eq_iff id agent_id)

-- The agent is on the list once.
pub record IsOnce (agent_id : Text) (ids : List Text) : Type 0 where
  pub before : List Text
  pub after : List Text
  pub parts : ids ≡ before ++ (agent_id ∷ after)
  pub not_before : All (λ id. id ≢ agent_id) before
  pub not_after : All (λ id. id ≢ agent_id) after

IsOnce-of_visits :
    (agent_id : Text) (ids : List Text) → visits agent_id ids ≡ 1 → IsOnce agent_id ids
unfolding visits
IsOnce-of_visits agent_id [] h = absurd (omega arith)
IsOnce-of_visits agent_id (id ∷ ids) h = elim (Bool-cases (text_eq id agent_id)) [
  | inl same ↦ record {
    before = [];
    after = ids;
    parts = rw (text_eq_sound id agent_id same) refl;
    not_before = tt;
    not_after = (visits_zero agent_id ids).0 (omega (arith, rw same at h));
  }
  | inr other ↦
      let k = IsOnce-of_visits agent_id ids (rw other at h) in
      record {
        before = id ∷ k.before;
        after = k.after;
        parts = ap (λ is. id ∷ is) k.parts;
        not_before = (ground (arith, text_eq_iff id agent_id), k.not_before);
        not_after = k.not_after;
      }
]

visits-of_IsOnce :
    (agent_id : Text) (ids : List Text) → IsOnce agent_id ids → visits agent_id ids ≡ 1
unfolding visits
visits-of_IsOnce agent_id ids h =
    let counted = visits-append agent_id h.before (agent_id ∷ h.after) in
    let none' = (visits_zero agent_id h.before).1 h.not_before in
    let none'' = (visits_zero agent_id h.after).1 h.not_after in
    rw h.parts (counted ∙ rw (text_eq_refl agent_id) (omega (arith, none', none'')))

seen_once_iff : (n : ℕ) → (seen_once n ≡ ok tt) ↔ (n ≡ 1)
seen_once_iff n = ground arith

-- A walk that passes: its pages, and how often the agent is on them
record Passes {D : Type 0} (env : Env D) (agent_id cursor : Text) (fuel seen : ℕ) (w v : World D)
    : Type 0 where
  pages : List (List Text)
  walked : Walked env cursor w pages v
  enough : length pages ≤ fuel
  once : seen + visits agent_id (agents_on pages) ≡ 1

turn-Passes :
    {D : Type 0} (env : Env D) (agent_id cursor : Text) (fuel seen : ℕ) (w v : World D)
    (x : World D × Result Failure (List Text × Text))
    → page env cursor w ≡ x
    → turn agent_id seen (walk env agent_id fuel) x ≡ some (v, ok tt)
    → ((next : Text) (n : ℕ) (u : World D)
        → walk env agent_id fuel next n u ≡ some (v, ok tt)
        → Passes env agent_id next fuel n u v)
    → Passes env agent_id cursor (suc fuel) seen w v
unfolding visits
turn-Passes env agent_id cursor fuel seen w v (u, err e) asked h later = absurd cc
turn-Passes env agent_id cursor fuel seen w v (u, ok (ids, [])) asked h later =
    let same : u ≡ v = cc in
    let passed : seen_once (seen + visits agent_id ids) ≡ ok tt = cc in
    let counted = (seen_once_iff (seen + visits agent_id ids)).0 passed in
    record {
      pages = ids ∷ [];
      walked = last (rw same at asked);
      enough = omega arith;
      once = omega (arith, counted, visits-append agent_id ids []);
    }
turn-Passes env agent_id cursor fuel seen w v (u, ok (ids, c ∷ next)) asked h later =
    let k = later (c ∷ next) (seen + visits agent_id ids) u h in
    record {
      pages = ids ∷ k.pages;
      walked = more asked (λ e. cc) k.walked;
      enough = omega (arith, k.enough);
      once = omega (arith, k.once, visits-append agent_id ids (agents_on k.pages));
    }

walk-Passes :
    {D : Type 0} (env : Env D) (agent_id : Text) (fuel : ℕ) (cursor : Text) (seen : ℕ)
    (w v : World D)
    → walk env agent_id fuel cursor seen w ≡ some (v, ok tt)
    → Passes env agent_id cursor fuel seen w v
unfolding walk
walk-Passes env agent_id zero cursor seen w v h = absurd cc
walk-Passes env agent_id (suc fuel) cursor seen w v h =
    turn-Passes env agent_id cursor fuel seen w v _ refl h
      (λ next n u. walk-Passes env agent_id fuel next n u v)

-- cursorPageAgents passes, within this many pages, exactly when the daemon answers with at most so many pages
-- until one names no further cursor, and the agent is on one place of these pages and on no other.
pub cursor_page_agents_iff :
    {D : Type 0} (env : Env D) (fuel : ℕ) (w v : World D)
    → (cursor_page_agents env fuel w ≡ some (v, ok tt)) ↔ (
        (pages : List (List Text)) × Walked env [] w pages v
        × (length pages ≤ fuel)
        × IsOnce w.scenario.agent_id (agents_on pages))
unfolding cursor_page_agents
cursor_page_agents_iff env fuel w v = (
  λ h.
      let k = walk-Passes env w.scenario.agent_id fuel [] 0 w v h in
      (
        k.pages,
        k.walked,
        k.enough,
        IsOnce-of_visits w.scenario.agent_id (agents_on k.pages) (omega (arith, k.once)),
      ),
  λ (pages, walked, enough, once).
      let counted = visits-of_IsOnce w.scenario.agent_id (agents_on pages) once in
      walk-Walked env w.scenario.agent_id fuel 0 walked enough
      ∙ ap (λ r. some (v, r)) ((seen_once_iff _).1 (omega (arith, counted))),
)

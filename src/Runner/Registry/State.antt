-- ===== src/Runner/Registry/State.antt =====
-- What a request does to the registry's state: nothing, or one commit of an instance.
use eidovela_open.Common.{◌≡◌, ◌⊎◌, refl, ◌&&◌, Result, ok, err, Option-cases, Bool-cases, inl, inr}
use eidovela_open.Text.{Text, text, text_eq, has_prefix, has_suffix, trim_prefix, trim_suffix}
use eidovela_open.Platform.{Platform}
use eidovela_open.Runner.Registry.{
  FakeRegistry, FakeInstance, CommitBody, CommitError, unknown_agent, unknown_workload_registration,
  commit_instance,
}
use eidovela_open.Runner.Registry.Http.{Request}
use eidovela_open.Runner.Registry.Serve.{
  serve_http, handle_commit, commit_reply, commit_body, instances_prefix, instances_suffix,
}

pub commit_reply_state :
    (p : Platform) (x : FakeRegistry × Result CommitError FakeInstance) → (commit_reply p x).0 ≡ x.0
commit_reply_state p (r, ok inst) = refl
commit_reply_state p (r, err unknown_agent) = refl
commit_reply_state p (r, err unknown_workload_registration) = refl

-- The state is that before, or that behind a commit.
abbrev pub IsKeptOrCommitted : Platform → FakeRegistry → FakeRegistry → Type 0
IsKeptOrCommitted p r s =
    (s ≡ r)
    ⊎ ((agent_id : Text) × (body : CommitBody) × (s
          ≡ (commit_instance p.parse_rfc3339 agent_id body r).0))

handle_commit_state :
    (p : Platform) (agent_id body : Text) (r : FakeRegistry)
    → IsKeptOrCommitted p r (handle_commit p agent_id body r).0
unfolding handle_commit
handle_commit_state p agent_id body r = elim (Option-cases (commit_body p body)) [
  | inl e ↦ rw (e, handle_commit) (inl refl)
  | inr (b, e) ↦
      rw (e, handle_commit)
        (inr (agent_id, b, commit_reply_state p (commit_instance p.parse_rfc3339 agent_id b r)))
]

pub serve_http_state :
    (p : Platform) (req : Request) (r : FakeRegistry) → IsKeptOrCommitted p r (serve_http p req r).0
unfolding serve_http
serve_http_state p req r = elim (Bool-cases (text_eq req.method (text "GET"))) [
  | inl get ↦ rw get (inl refl)
  | inr other ↦
      let path = trim_suffix req.path (text "/") in
      elim (Bool-cases (
        text_eq req.method (text "POST")
        && (has_prefix path instances_prefix && has_suffix path instances_suffix))) [
          | inr no_post ↦ rw (other, no_post) (inl refl)
          | inl post ↦
              rw (other, post)
                (handle_commit_state p
                  (trim_suffix (trim_prefix path instances_prefix) instances_suffix) req.body r)
        ]
]

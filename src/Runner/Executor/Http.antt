-- ===== src/Runner/Executor/Http.antt =====
-- post and get of conformance/runner/executor.go. An answer that is no success is the failure; its
-- message is not read.
use eidovela_open.Common.{leb, ltb, Bool, ◌&&◌, ◌++◌, Option, none, some, ok, err, if◌then◌else◌}
use eidovela_open.Text.{Text, text}
use eidovela_open.Base64
use eidovela_open.Json.{Value, Claims}
use eidovela_open.Json.Struct.{struct_members}
use eidovela_open.Platform.{Response}
use eidovela_open.Runner.Executor.{
  Env, Outgoing, refused, transport, malformed, Action, ◌>>=◌, pure, fail, lift,
}

-- Client.Do
unfoldable pub exchange_http : {D : Type 0} → Env D → Outgoing → Action D Response
exchange_http env out w =
    let (daemon, registry, response) = env.answer out w.daemon w.registry in
    let w' = record w { daemon = daemon; registry = registry } in
    elim response [ none ↦ (w', err transport) | some r ↦ (w', ok r) ]

abbrev is_success : Response → Bool
is_success r = leb 200 r.status && ltb r.status 300

abbrev pub success : {D : Type 0} → Response → Action D Response
success r = if is_success r then pure r else fail (refused r)

-- post; the target is decoded by `target`, or not looked at where the caller passes none.
unfoldable pub post : {D A : Type 0} → Env D → Text → Value → (Claims → Option A) → Action D A
post env path payload target = do
  r ←
      exchange_http env
        (record { method = text "POST"; url = env.base_url ++ path; payload = some payload })
  s ← success r
  lift (Base64.◌>>=◌ (env.platform.json_decode s.body) λ v. Base64.◌>>=◌ (struct_members v) target)
      malformed

-- get
unfoldable pub fetch : {D A : Type 0} → Env D → Text → (Claims → Option A) → Action D A
fetch env path target = do
  r ← exchange_http env (record { method = text "GET"; url = env.base_url ++ path; payload = none })
  s ← success r
  lift (Base64.◌>>=◌ (env.platform.json_decode s.body) λ v. Base64.◌>>=◌ (struct_members v) target)
      malformed

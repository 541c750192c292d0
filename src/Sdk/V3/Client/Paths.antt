-- ===== src/Sdk/V3/Client/Paths.antt =====
-- Where an id stands in the path of a request of package v3.
use eidovela_open.Common.{ℕ, ◌≡◌, ◌≢◌, refl, [], ◌∷◌, ◌++◌, List, some, All-append, All-imp, arith}
use eidovela_open.Text.{Text, text}
use eidovela_open.Text.Split.{split, Lacks, split_of_Lacks, split-append}
use eidovela_open.Text.Url.{path_escape, path_unescape}
use eidovela_open.Text.Url.RoundTrip.{path_unescape-path_escape, path_escape-All, IsSegmentByte}
use eidovela_open.Base64.RoundTrip.{IsBytes}
use eidovela_open.Sdk.Http.{Net, path_of}
use eidovela_open.Sdk.V3.Client.Views.{
  get_registry_agent, list_registry_instances, redrive_outbox_event,
}
use eidovela_open.Sdk.V3.Client.Trusts.{set_authentication_state, get_attestation}

-- The id is one segment of the path, between these, and no query or fragment begins.
abbrev pub HasSegment : Text → List Text → Text → List Text → Type 0
HasSegment path before id behind =
    (segment : Text) × (split path b'/' ≡ before ++ (segment ∷ behind))
    × (path_unescape segment ≡ some id)
    × Lacks b'?' path
    × Lacks b'#' path

abbrev pub IsClear : Text → Type 0
IsClear s = Lacks b'?' s × Lacks b'#' s

module _ (id : Text) (bytes : IsBytes id) where
  segment-Lacks : (b : ℕ) → ((c : ℕ) → IsSegmentByte c → c ≢ b) → Lacks b (path_escape id)
  segment-Lacks b f =
      All-imp IsSegmentByte (λ c. c ≢ b) (path_escape id) f (path_escape-All id bytes)

  path-Lacks :
      (b : ℕ) (before behind : Text)
      → ((c : ℕ) → IsSegmentByte c → c ≢ b)
      → Lacks b before
      → Lacks b behind
      → Lacks b (before ++ (path_escape id ++ behind))
  path-Lacks b before behind f h k =
      All-append (λ c. c ≢ b) before (path_escape id ++ behind) h
        (All-append (λ c. c ≢ b) (path_escape id) behind (segment-Lacks b f) k)

  -- An id that is escaped, in front of further segments.
  HasSegment-middle :
      (before : Text) (segments : List Text) (behind : Text)
      → ((s : Text) → split (before ++ s) b'/' ≡ segments ++ split s b'/')
      → IsClear before
      → IsClear behind
      → HasSegment (before ++ (path_escape id ++ (b'/' ∷ behind))) segments id (split behind b'/')
  HasSegment-middle before segments behind parts h k = (
    path_escape id,
    rw
        (
          parts (path_escape id ++ (b'/' ∷ behind)),
          split-append (path_escape id) behind b'/' (segment-Lacks b'/' (λ c q. q.0)),
        )
        refl,
    path_unescape-path_escape id bytes,
    path-Lacks b'?' before (b'/' ∷ behind) (λ c q. q.1) (h.0) (omega arith, k.0),
    path-Lacks b'#' before (b'/' ∷ behind) (λ c q. q.2) (h.1) (omega arith, k.1),
  )

  -- An id that is escaped at the end.
  HasSegment-last :
      (before : Text) (segments : List Text)
      → ((s : Text) → split (before ++ s) b'/' ≡ segments ++ split s b'/')
      → IsClear before
      → HasSegment (before ++ path_escape id) segments id []
  HasSegment-last before segments parts h = (
    path_escape id,
    rw
        (
          parts (path_escape id),
          split_of_Lacks (path_escape id) b'/' (segment-Lacks b'/' (λ c q. q.0)),
        )
        refl,
    path_unescape-path_escape id bytes,
    All-append (λ c. c ≢ b'?') before (path_escape id) (h.0) (segment-Lacks b'?' (λ c q. q.1)),
    All-append (λ c. c ≢ b'#') before (path_escape id) (h.1) (segment-Lacks b'#' (λ c q. q.2)),
  )

abbrev v1 : List Text → List Text
v1 segments = [] ∷ text "v1" ∷ segments

-- An id of any bytes is one segment of the path of GetRegistryAgent, ListRegistryInstances,
-- RedriveOutboxEvent, GetAttestation, and, with an operation that holds no "/", "?" or "#",
-- SetAuthenticationState; the path has no query and no fragment.
pub id-HasSegment :
    (net : Net) (id op reason : Text)
    → IsBytes id
    → Lacks b'/' op
    → IsClear op
    → HasSegment (path_of (get_registry_agent id)) (v1 (text "registry" ∷ text "agents" ∷ [])) id []
      × HasSegment
          (path_of (list_registry_instances id))
          (v1 (text "registry" ∷ text "agents" ∷ []))
          id
          (text "instances" ∷ [])
      × HasSegment
          (path_of (redrive_outbox_event id))
          (v1 (text "ops" ∷ text "outbox" ∷ text "events" ∷ []))
          id
          (text "redrive" ∷ [])
      × HasSegment (path_of (get_attestation net id)) (v1 (text "attestations" ∷ [])) id []
      × HasSegment
          (path_of (set_authentication_state net id op reason))
          (v1 (text "authentication-state" ∷ []))
          id
          (op ∷ [])
unfolding get_registry_agent list_registry_instances redrive_outbox_event get_attestation
    set_authentication_state split
id-HasSegment net id op reason b o k = (
  HasSegment-last id b (text "/v1/registry/agents/") (v1 (text "registry" ∷ text "agents" ∷ []))
      (λ s. refl) (omega arith, omega arith),
  HasSegment-middle id b (text "/v1/registry/agents/") (v1 (text "registry" ∷ text "agents" ∷ []))
      (text "instances") (λ s. refl) (omega arith, omega arith) (omega arith, omega arith),
  HasSegment-middle id b (text "/v1/ops/outbox/events/")
      (v1 (text "ops" ∷ text "outbox" ∷ text "events" ∷ [])) (text "redrive") (λ s. refl)
      (omega arith, omega arith) (omega arith, omega arith),
  HasSegment-last id b (text "/v1/attestations/") (v1 (text "attestations" ∷ [])) (λ s. refl)
      (omega arith, omega arith),
  rw (split_of_Lacks op b'/' o) at (
      HasSegment-middle id b (text "/v1/authentication-state/")
        (v1 (text "authentication-state" ∷ [])) op (λ s. refl) (omega arith, omega arith) k),
)

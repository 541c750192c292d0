-- ===== src/Sdk/Http/Laws.antt =====
-- When a call of a client succeeds, and what its refusal says.
use eidovela_open.Common.{
  ℕ, ◌≤◌, ◌<◌, ◌≡◌, ◌≢◌, All, if◌then◌else◌, false, refl, ◌↔◌, ◌⊎◌, inl, inr, true, false, [], ◌∷◌,
  ◌++◌, Option, none, some, Result, ok, err, Option-cases, arith, >>=-eq-ok, ◌>>◌, guard-eq-ok,
  require-bind-eq-ok, require-eq-ok,
}
use eidovela_open.Text.{Text, text, is_empty}
use eidovela_open.Json.{Value, Claims, Members, entries, object, string}
use eidovela_open.Json.Struct.{names_field}
use eidovela_open.Platform.{Platform}
use eidovela_open.Sdk.Http.{
  Net, Client, Transport, WireRequest, WireResponse, ClientError, refused, is_success, answer,
  failure_text, error_from, error_of, do_request, post, get, post_request, get_request, Operation,
  posting, getting, perform, check_address,
}

-- The request that an operation sends.
abbrev pub Sends : {A : Type 0} → Net → Client → Operation A → WireRequest → Type 0
Sends net c (posting path request read) req =
    (v : Value) × (request ≡ some v) × (req ≡ post_request net c path v)
Sends net c (getting path read) req = req ≡ get_request c path

abbrev pub read_of : {A : Type 0} → Operation A → Value → Option A
read_of (posting path request read) = read
read_of (getting path read) = read

-- The answer is a success that is read as the value.
abbrev pub Answers : {A : Type 0} → Net → (Value → Option A) → WireResponse → A → Type 0
Answers net read res a =
    (200 ≤ res.status_code)
    × (res.status_code < 300)
    × ((v : Value) × (net.platform.json_decode res.body ≡ some v) × (read v ≡ some a))

is_success_iff : (n : ℕ) → (is_success n ≡ true) ↔ ((200 ≤ n) × (n < 300))
unfolding is_success
is_success_iff n = ground arith

answer-Answers :
    {A : Type 0} (net : Net) (read : Value → Option A) (res : WireResponse) (a : A)
    → answer net read res ≡ ok a
    → Answers net read res a
unfolding answer
answer-Answers net read res a h =
    let (success, rest) = guard-eq-ok (is_success res.status_code) _ _ h in
    let (v, decoded, e) = require-bind-eq-ok (net.platform.json_decode res.body) _ _ rest in
    let (low, high) = (is_success_iff res.status_code).0 success in
    (low, high, (v, decoded, require-eq-ok (read v) _ e))

answer_of_Answers :
    {A : Type 0} (net : Net) (read : Value → Option A) (res : WireResponse) (a : A)
    → Answers net read res a
    → answer net read res ≡ ok a
unfolding answer
answer_of_Answers net read res a (low, high, (v, decoded, e)) =
    rw ((is_success_iff res.status_code).1 (low, high), decoded, e) refl

-- The transport answers the request, whose address is accepted, and the answer is read as the value.
abbrev pub Exchanges :
    {A : Type 0} → Net → Transport → WireRequest → (Value → Option A) → A → Type 0
Exchanges net transport req read a =
    (net.request_error req.url ≡ none)
    × ((res : WireResponse) × (transport req ≡ ok res) × Answers net read res a)

send : {A : Type 0} → Net → Transport → WireRequest → (Value → Option A) → Result ClientError A
send net transport req read = check_address net req.url >> do_request net transport req read

send_iff :
    {A : Type 0} (net : Net) (transport : Transport) (req : WireRequest) (read : Value → Option A)
    (a : A)
    → (send net transport req read ≡ ok a) ↔ Exchanges net transport req read a
unfolding send do_request
send_iff net transport req read a = (
  λ h. elim (Option-cases (net.request_error req.url)) [
    | inl e ↦
        let (res, sent, h') = >>=-eq-ok (transport req) _ (rw e at h) in
        (e, (res, sent, answer-Answers net read res a h'))
    | inr (m, e) ↦ cc (rw e at h)
  ],
  λ (e, (res, sent, said)). rw (e, sent) (answer_of_Answers net read res a said),
)

-- An operation succeeds with a value exactly when its document can be written, its address is
-- accepted, and the transport answers its request with a status from 200 to 299 and a document that
-- is read as the value.
pub perform_iff :
    {A : Type 0} (net : Net) (c : Client) (transport : Transport) (op : Operation A) (a : A)
    → (perform net c transport op ≡ ok a)
      ↔ ((req : WireRequest) × Sends net c op req × Exchanges net transport req (read_of op) a)
unfolding perform post get send
perform_iff net c transport (getting path read) a =
    let req = get_request c path in
    let both = send_iff net transport req read a in
    (λ h. (req, refl, both.0 h), λ (req', e, x). both.1 (rw e at x))
perform_iff net c transport (posting path none read) a = (λ h. cc, λ (req', (v, e, _), x). cc)
perform_iff net c transport (posting path (some v) read) a =
    let req = post_request net c path v in
    let both = send_iff net transport req read a in
    (
      λ h. (req, (v, refl, refl), both.0 h),
      λ (req', (v', e, e'), x). let same : v ≡ v' = ground arith in both.1 (rw (e', ← same) at x),
    )

send_refused :
    {A : Type 0} (net : Net) (transport : Transport) (req : WireRequest) (read : Value → Option A)
    (res : WireResponse)
    → net.request_error req.url ≡ none
    → transport req ≡ ok res
    → is_success res.status_code ≡ false
    → send net transport req read
      ≡ err (refused (text "eidovela: " ++ failure_text net.platform res))
unfolding send do_request answer
send_refused net transport req read res u t f = rw (u, t, f) refl

outside : (n : ℕ) → (n < 200) ⊎ (300 ≤ n) → is_success n ≡ false
unfolding is_success
outside n (inl h) = ground arith
outside n (inr h) = ground arith

abbrev pub IsOther : Text × Value → Type 0
IsOther (name, v) = names_field name (text "error") ≡ false

-- The message of an answer: its last member "error", if this is a text that is not empty; the status line,
-- if the answer is an object without such a member, or no document.
pub data IsMessage (p : Platform) (res : WireResponse) : Text → Type 0 where
  named :
      {ms : Members} (before after : Claims) (name : Text) {message : Text}
      → p.json_decode res.body ≡ some (object ms)
      → entries ms ≡ before ++ ((name, string message) ∷ after)
      → names_field name (text "error") ≡ true
      → message ≢ []
      → All IsOther after
      → IsMessage p res message
  unnamed :
      {ms : Members}
      → p.json_decode res.body ≡ some (object ms)
      → All IsOther (entries ms)
      → IsMessage p res res.status
  garbled : p.json_decode res.body ≡ none → IsMessage p res res.status

error_from-other : (old : Text) (ms : Claims) → All IsOther ms → error_from old ms ≡ old
unfolding error_from
error_from-other old [] h = refl
error_from-other old ((name, v) ∷ ms) (n, h) = rw n (error_from-other old ms h)

error_from-append :
    (before : Claims) (old name message : Text) (after : Claims)
    → names_field name (text "error") ≡ true
    → All IsOther after
    → error_from old (before ++ ((name, string message) ∷ after)) ≡ message
unfolding error_from
error_from-append [] old name message after n h =
    rw (error_from, n) (error_from-other message after h)
error_from-append ((k, v) ∷ before) old name message after n h =
    error_from-append before _ name message after n h

set-message :
    (message status : Text)
    → message ≢ []
    → (if is_empty message then status else message) ≡ message
set-message [] status n = absurd (n refl)
set-message (c ∷ s) status n = refl

failure_text-IsMessage :
    (p : Platform) (res : WireResponse) (message : Text)
    → IsMessage p res message
    → failure_text p res ≡ message
unfolding failure_text error_of error_from
failure_text-IsMessage p res message (named before after name decoded said n set other) =
    rw (decoded, said, error_from-append before [] name message after n other)
      (set-message message res.status set)
failure_text-IsMessage p res message (unnamed {ms = ms} decoded other) =
    rw (decoded, error_from-other [] (entries ms) other) refl
failure_text-IsMessage p res message (garbled decoded) = rw decoded refl

-- Where the request is sent and the answer has a status outside 200 to 299, an operation fails, whatever
-- it reads. The error's message is the last member "error" of the answer, if this is a text that is not
-- empty, and the status line, if the answer is an object without such a member, or no document.
pub perform_refused :
    {A : Type 0} (net : Net) (c : Client) (transport : Transport) (op : Operation A)
    (req : WireRequest) (res : WireResponse) (message : Text)
    → Sends net c op req
    → net.request_error req.url ≡ none
    → transport req ≡ ok res
    → (res.status_code < 200) ⊎ (300 ≤ res.status_code)
    → IsMessage net.platform res message
    → perform net c transport op ≡ err (refused (text "eidovela: " ++ message))
unfolding perform post get send
perform_refused net c transport (getting path read) req res message s u t f said =
    rw (← failure_text-IsMessage net.platform res message said)
      (rw s at (send_refused net transport req read res u t (outside res.status_code f)))
perform_refused net c transport (posting path request read) req res message (v, e, s) u t f said =
    rw (← failure_text-IsMessage net.platform res message said)
      (rw e (rw s at (send_refused net transport req read res u t (outside res.status_code f))))

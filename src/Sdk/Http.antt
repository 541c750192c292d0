-- ===== src/Sdk/Http.antt =====
-- The requests of the two SDK clients and the reading of the answers: Client, NewClient, post, get and
-- do of sdk/go/eidovela/v3/client.go, and post and get of sdk/go/eidovela/client.go, which hold the text
-- of do. A value that is returned beside an error is not kept.
pub mod Laws
use eidovela_open.Common.{
  ℕ, ℤ, Bool, ◌&&◌, [], ◌∷◌, ◌++◌, List, Option, none, some, Result, ok, err, ◌>>=◌, ◌>>◌, guard,
  require, leb, ltb, if◌then◌else◌,
}
use eidovela_open.Text.{Text, text, text_eq, is_empty, trim_suffix}
use eidovela_open.Json.{Value, string, object, null, Claims, entries}
use eidovela_open.Json.Struct.{names_field}
use eidovela_open.Platform.{Platform}

-- The HTTP client that it holds is the transport, a parameter of every call.
pub record Client : Type 0 where
  pub base_url : Text

unfoldable pub new_client : Text → Client
new_client base_url = record { base_url = trim_suffix base_url (text "/") }

pub record WireRequest : Type 0 where
  pub method : Text
  pub url : Text
  pub content_type : Option Text
  pub body : Option Text

-- The status code, and the text of the status with its code.
pub record WireResponse : Type 0 where
  pub status_code : ℕ
  pub status : Text
  pub body : Text

pub data ClientError : Type 0 where
  marshal_failed no_randomness : ClientError
  bad_request transport_failed refused undecodable : Text → ClientError

abbrev pub Transport : Type 0
Transport = WireRequest → Result ClientError WireResponse

-- What the clients meet outside: Go's library, with time.Time's MarshalJSON and UnmarshalJSON of a
-- string, and the error of http.NewRequestWithContext for an address.
pub record Net : Type 0 where
  pub platform : Platform
  pub time_json : ℤ → Option Text
  pub time_of_json : Text → Option ℤ
  pub request_error : Text → Option Text

-- The member "error" of a refusal. An error of the decoder is ignored, and leaves what was read.
abbrev assign_error : Text → Value → Text
assign_error old (string s) = s
assign_error old _ = old

error_from : Text → Claims → Text
error_from old [] = old
error_from old ((name, v) ∷ ms) =
    error_from (if names_field name (text "error") then assign_error old v else old) ms

error_of : Option Value → Text
unfolding error_from
error_of (some (object ms)) = error_from [] (entries ms)
error_of _ = []

-- The message of a refusal
unfoldable pub failure_text : Platform → WireResponse → Text
unfolding error_of
failure_text p res =
    let error = error_of (p.json_decode res.body) in if is_empty error then res.status else error

unfoldable pub is_success : ℕ → Bool
is_success code = leb 200 code && ltb code 300

-- The reading of an answer
unfoldable pub answer :
    {A : Type 0} → Net → (Value → Option A) → WireResponse → Result ClientError A
unfolding is_success
answer net read res = do
  guard (is_success res.status_code) (refused (text "eidovela: " ++ failure_text net.platform res))
  v ← require (net.platform.json_decode res.body) (undecodable (net.platform.json_error res.body))
  require (read v) (undecodable (net.platform.json_error res.body))

-- do: the client's response is never nil
unfoldable pub do_request :
    {A : Type 0} → Net → Transport → WireRequest → (Value → Option A) → Result ClientError A
do_request net transport req read = do res ← transport req; answer net read res

abbrev accepted : Option Text → Result ClientError (Unit {0})
accepted none = ok tt
accepted (some e) = err (bad_request e)

abbrev check_address : Net → Text → Result ClientError (Unit {0})
check_address net url = accepted (net.request_error url)

abbrev pub post_request : Net → Client → Text → Value → WireRequest
post_request net c path v = record {
  method = text "POST";
  url = c.base_url ++ path;
  content_type = some (text "application/json");
  body = some (net.platform.json_marshal v);
}

abbrev pub get_request : Client → Text → WireRequest
get_request c path = record {
  method = text "GET";
  url = c.base_url ++ path;
  content_type = none;
  body = none;
}

-- A document that cannot be encoded is none.
unfoldable pub post :
    {A : Type 0}
    → Net
    → Client
    → Transport
    → Text
    → Option Value
    → (Value → Option A)
    → Result ClientError A
post net c transport path request read = do
  v ← require request marshal_failed
  check_address net (c.base_url ++ path)
  do_request net transport (post_request net c path v) read

unfoldable pub get :
    {A : Type 0} → Net → Client → Transport → Text → (Value → Option A) → Result ClientError A
get net c transport path read = do
  check_address net (c.base_url ++ path)
  do_request net transport (get_request c path) read

-- What an operation of a client asks for: a path, a document to post, and the reading of the answer.
pub data Operation (A : Type 0) : Type 0 where
  posting : Text → Option Value → (Value → Option A) → Operation A
  getting : Text → (Value → Option A) → Operation A

abbrev pub path_of : {A : Type 0} → Operation A → Text
path_of (posting path request read) = path
path_of (getting path read) = path

unfoldable pub perform :
    {A : Type 0} → Net → Client → Transport → Operation A → Result ClientError A
perform net c transport (posting path request read) = post net c transport path request read
perform net c transport (getting path read) = get net c transport path read

-- The part of an answer that an operation returns.
abbrev pub reading : {A B : Type 0} → (A → B) → Operation A → Operation B
reading f (posting path request read) =
    posting path request (λ v. elim (read v) [ none ↦ none | some a ↦ some (f a) ])
reading f (getting path read) =
    getting path (λ v. elim (read v) [ none ↦ none | some a ↦ some (f a) ])

-- A reading into an empty struct
abbrev pub ignoring : Value → Option (Unit {0})
ignoring null = some tt
ignoring (object ms) = some tt
ignoring _ = none

-- ===== src/NetHelper.antt =====
-- common/src/websocket/net_helper.rs: the parts of a path, and requests and responses as messages of a
-- websocket. Paths and headers are bytes.
pub mod Paths
pub mod Responses
use denim.Prelude.{
  ℕ, ◌+◌, Bool, true, false, not, ◌||◌, String, Option, none, some, List, [], ◌∷◌, ◌++◌, length,
  get_elem?, leb, ltb, ◌==◌, Outcome, Run, ok, err, or_err, ◌>>=◌, if◌then◌else◌,
}
use denim.Text.{split, Text, codes, decimal, starts_with}

pub record PathExtractor : Type 0 where
  pub parts : List Text

-- `remove(0)`
abbrev pub without_first : List Text → List Text
without_first [] = []
without_first (p ∷ ps) = ps

-- The argument is the path of the URI.
unfoldable pub new_extractor : Text → Run PathExtractor
unfolding split starts_with
new_extractor uri =
    if length (split b'/' uri) == 0
    then err "PathExtractor: Is empty!"
    else if starts_with uri (b'/' ∷ [])
    then ok (record { parts = without_first (split b'/' uri) })
    else ok (record { parts = split b'/' uri })

-- `T::from_str` is the argument `from_str`.
unfoldable pub extract : {T : Type 0} → (Text → Option T) → PathExtractor → ℕ → Run T
extract from_str e index =
    if leb (length e.parts) index then err "PathExtractor: Larger than count" else (do
      part ← or_err (get_elem? e.parts index) "PathExtractor: Larger than count"
      or_err (from_str part) "failed to convert")

-- The protobuf messages of common/proto.
pub record WebSocketRequestMessage : Type 0 where
  pub verb : Option Text
  pub path : Option Text
  pub body : Option (List ℕ)
  pub headers : List Text
  pub id : Option ℕ

pub record WebSocketResponseMessage : Type 0 where
  pub id : Option ℕ
  pub status : Option ℕ
  pub message : Option Text
  pub headers : List Text
  pub body : Option (List ℕ)

pub record WebSocketMessage : Type 0 where
  pub kind : Option ℕ
  pub request : Option WebSocketRequestMessage
  pub response : Option WebSocketResponseMessage

abbrev pub request_kind : ℕ
request_kind = 1

abbrev pub response_kind : ℕ
response_kind = 2

abbrev pub has_content_length : List Text → Bool
has_content_length [] = false
has_content_length (h ∷ hs) = starts_with h (codes "Content-Length") || has_content_length hs

abbrev pub body_length : Option (List ℕ) → ℕ
body_length none = 0
body_length (some bytes) = length bytes

-- `canonical_reason` is the HTTP library's.
unfoldable pub create_response :
    (ℕ → Option Text) → ℕ → ℕ → List Text → Option (List ℕ) → Run WebSocketMessage
unfolding decimal
create_response canonical_reason id status_code headers body = do
  reason ← or_err (canonical_reason status_code) "Invalid canonical reason"
  ok (record {
    kind = some response_kind;
    request = none;
    response = some (record {
      id = some id;
      status = some status_code;
      message = some reason;
      headers =
          if has_content_length headers
          then headers
          else headers ++ (codes "Content-Length: " ++ decimal (body_length body)) ∷ [];
      body = body;
    });
  })

unfoldable pub create_request : ℕ → Text → Text → List Text → Option (List ℕ) → WebSocketMessage
create_request id verb path headers body = record {
  kind = some request_kind;
  request =
      some (record {
        verb = some verb;
        path = some path;
        body = body;
        headers = headers;
        id = some id;
      });
  response = none;
}

-- serde's JSON of `DenimMessages` and the check of UTF-8 are arguments.
unfoldable pub unpack_messages :
    {M : Type 0} → (List ℕ → Option Text) → (Text → Option M) → Option (List ℕ) → Run M
unpack_messages from_utf8 from_json body = do
  bytes ← or_err body "Body was none"
  json ← or_err (from_utf8 bytes) "Failed to convert req body to string"
  or_err (from_json json) "Failed to convert json to DenimMessages"

-- ===== src/Http/Packets.antt =====
-- `Request_header`, `Response_header` and `Packet` (libiqxmlrpc/http.cc, http.h). The name and version
-- of the library, and the present date, are parameters.
use libiqxmlrpc.Base64.{Base64Error, is_space, from_data, from_base64, get_base64}
use libiqxmlrpc.Http.Errors.{
  HttpError, malformed_packet, bad_request, method_not_allowed, unauthorized, ErrorHead,
}
use libiqxmlrpc.Http.Headers.{
  Level, check_weak, request, response, Header, new_header, set_option, set_option_default,
  option_exists, get_string, parse_header, set_content_length, set_conn_keep_alive, dump_header,
  host_name, user_agent_name, server_name, date_name, authorization_name,
}
use libiqxmlrpc.Http.Texts.{Texts}
use libiqxmlrpc.Prelude.Bytes.{Bytes, codes, str_eq}
use libiqxmlrpc.Prelude.Int.{ℤ, pos}
use libiqxmlrpc.Prelude.{
  ℕ, Bool, true, false, List, [], ◌∷◌, ◌++◌, Option, none, some, Result, ok, err, ◌>>=◌, length,
  ◌==◌, if◌then◌else◌,
}

-- `Packet`: a header, which the C++ objects share, and a content.
pub record Packet : Type 0 where
  pub header : Header
  pub content : Bytes

abbrev pub is_blank_or_tab : ℕ → Bool
is_blank_or_tab c = if c == b' ' then true else c == 9

-- The user and the password, at the first colon.
unfoldable pub split_user : Bytes → Bytes × Bytes
split_user [] = ([], [])
split_user (c ∷ s) =
    let rest : Bytes × Bytes = split_user s in if c == b':' then ([], s) else (c ∷ rest.0, rest.1)

-- What `get_authinfo` throws: an exception of HTTP, or `Malformed_base64`.
pub data AuthError : Type 0 where
  refused : HttpError → AuthError
  malformed_auth : AuthError

abbrev or_malformed : {A : Type 0} → Result Base64Error A → Result AuthError A
or_malformed (ok a) = ok a
or_malformed (err _) = err malformed_auth

abbrev or_refused : {A : Type 0} → Result HttpError A → Result AuthError A
or_refused (ok a) = ok a
or_refused (err e) = err (refused e)

abbrev basic : Bytes
basic = codes "basic"

module _ (t : Texts) where
  abbrev second : List Bytes → Bytes → Bytes
  second [] d = d
  second (w ∷ ws) d = w

  -- The words of the first line of a request, and of a response.
  abbrev pub request_line : List Bytes → Header → Result HttpError Header
  request_line [] h = err bad_request
  request_line (w ∷ ws) h =
      if str_eq w (codes "POST")
      then ok (record h { kind = request (second ws []) })
      else err method_not_allowed

  -- `Request_header( lev, to_parse )`
  unfoldable pub parse_request_header : Level → Bytes → Result HttpError Header
  parse_request_header level s = do
    h ← parse_header t s (new_header (request []) level)
    let h' =
        set_option_default user_agent_name (codes "unknown") (set_option_default host_name [] h)
    request_line (t.split is_space true h'.head_line) h'

  abbrev code_or_zero : Option ℤ → ℤ
  code_or_zero (some c) = c
  code_or_zero none = pos 0

  abbrev pub response_line : List Bytes → Header → Result HttpError Header
  response_line (_ ∷ c ∷ ws) h =
      ok (record h { kind = response (code_or_zero (t.to_int c)) (second ws []) })
  response_line _ h = err malformed_packet

  -- `Response_header( lev, to_parse )`
  unfoldable pub parse_response_header : Level → Bytes → Result HttpError Header
  parse_response_header level s = do
    h ← parse_header t s (new_header (response (pos 0) []) level)
    let h' = set_option_default server_name (codes "unknown") h
    response_line (t.split is_space true h'.head_line) h'

  -- `Request_header( req_uri, vhost, port )`
  unfoldable pub new_request_header : Bytes → Bytes → Bytes → ℤ → Header
  new_request_header agent uri vhost port = set_option user_agent_name agent (
      set_option host_name (vhost ++ codes ":" ++ t.of_int port)
        (new_header (request uri) check_weak))

  -- `Response_header( c, p )`
  unfoldable pub new_response_header : Bytes → Bytes → ℤ → Bytes → Header
  new_response_header agent date code phrase =
      set_option server_name agent
        (set_option date_name date (new_header (response code phrase) check_weak))

  abbrev credentials : List Bytes → Result AuthError (Bytes × Bytes)
  credentials (scheme ∷ secret ∷ []) =
      if str_eq (t.to_lower scheme) basic
      then (do b ← or_malformed (from_base64 secret); ok (split_user b.bytes))
      else err (refused unauthorized)
  credentials _ = err (refused unauthorized)

  -- `get_authinfo`, and `set_authinfo`
  unfoldable pub get_authinfo : Header → Result AuthError (Bytes × Bytes)
  get_authinfo h =
      if option_exists h authorization_name
      then (do
        v ← or_refused (get_string h authorization_name)
        credentials (t.split is_blank_or_tab false v))
      else err (refused unauthorized)

  unfoldable pub set_authinfo : Bytes → Bytes → Header → Header
  set_authinfo user password h =
      set_option authorization_name
        (codes "Basic " ++ (get_base64 (from_data (user ++ codes ":" ++ password))).base64) h

  -- The constructor of `Packet`, which sets the length in the header.
  unfoldable pub new_packet : Header → Bytes → Packet
  new_packet h content = record {
    header = set_content_length t (length content) h;
    content = content;
  }

  unfoldable pub set_keep_alive : Bool → Packet → Packet
  set_keep_alive k p = record p { header = set_conn_keep_alive k p.header }

  unfoldable pub dump_packet : Packet → Bytes
  dump_packet p = dump_header t p.header ++ p.content

  -- The packet that an `Error_response` is.
  abbrev add_options : List (Bytes × Bytes) → Packet → Packet
  add_options [] p = p
  add_options ((k, v) ∷ os) p = add_options os (record p { header = set_option k v p.header })

  unfoldable pub error_packet : Bytes → Bytes → ErrorHead → Packet
  error_packet agent date e =
      add_options e.options (new_packet (new_response_header agent date e.code e.phrase) [])

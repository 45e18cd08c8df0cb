-- ===== src/Http/Headers.antt =====
-- `Header` (libiqxmlrpc/http.cc, http.h): options, their validators, reading and writing.
use libiqxmlrpc.Http.Errors.{
  HttpError, malformed_packet, length_required, unsupported_content_type, expectation_failed,
}
use libiqxmlrpc.Http.Texts.{Texts, is_crlf}
use libiqxmlrpc.Prelude.Bytes.{Bytes, codes, str_eq}
use libiqxmlrpc.Prelude.Int.{ℤ}
use libiqxmlrpc.Prelude.Maps.{Map, find, insert, contains}
use libiqxmlrpc.Prelude.{
  ℕ, Bool, true, false, ◌&&◌, List, [], ◌∷◌, ◌++◌, Option, none, some, Result, ok, err, ◌>>=◌, ◌==◌,
  if◌then◌else◌,
}

abbrev pub crlf : Bytes
crlf = 13 ∷ 10 ∷ []

abbrev pub content_length_name : Bytes
content_length_name = codes "content-length"

abbrev pub content_type_name : Bytes
content_type_name = codes "content-type"

abbrev pub connection_name : Bytes
connection_name = codes "connection"

abbrev pub host_name : Bytes
host_name = codes "host"

abbrev pub user_agent_name : Bytes
user_agent_name = codes "user-agent"

abbrev pub server_name : Bytes
server_name = codes "server"

abbrev pub date_name : Bytes
date_name = codes "date"

abbrev pub authorization_name : Bytes
authorization_name = codes "authorization"

abbrev pub expect_name : Bytes
expect_name = codes "expect"

-- `Verification_level`
pub data Level : Type 0 where
  check_weak check_strict : Level

-- `level <= ver_level_`
abbrev pub level_le : Level → Level → Bool
level_le check_weak l = true
level_le check_strict check_strict = true
level_le check_strict check_weak = false

-- What the subclasses add: the target of a request, or the code and the phrase of a response.
pub data Kind : Type 0 where
  request : Bytes → Kind
  response : ℤ → Bytes → Kind

-- `Header`; the validators are the same for all, and stand below.
pub record Header : Type 0 where
  pub kind : Kind
  pub head_line : Bytes
  pub options : Map Bytes
  pub ver_level : Level

unfoldable pub set_option : Bytes → Bytes → Header → Header
set_option name value h = record h { options = insert name value h.options }

abbrev pub option_exists : Header → Bytes → Bool
option_exists h name = contains name h.options

unfoldable pub set_option_default : Bytes → Bytes → Header → Header
unfolding set_option
set_option_default name value h = if option_exists h name then h else set_option name value h

-- The constructor of `Header`.
unfoldable pub new_header : Kind → Level → Header
unfolding set_option_default
new_header kind level =
    set_option_default connection_name (codes "close")
      (record { kind = kind; head_line = []; options = []; ver_level = level })

unfoldable pub set_conn_keep_alive : Bool → Header → Header
unfolding set_option
set_conn_keep_alive c h =
    set_option connection_name (if c then codes "keep-alive" else codes "close") h

abbrev pub present : Option Bytes → Result HttpError Bytes
present (some v) = ok v
present none = err malformed_packet

-- `get_option<std::string>`
unfoldable pub get_string : Header → Bytes → Result HttpError Bytes
get_string h name = present (find name h.options)

unfoldable pub conn_keep_alive : Header → Result HttpError Bool
unfolding get_string
conn_keep_alive h = do v ← get_string h connection_name; ok (str_eq v (codes "keep-alive"))

abbrev pub expects_continue : Header → Bool
expects_continue h = option_exists h expect_name

-- `get_xheaders` is in libiqxmlrpc.XHeaders. `set_xheaders`:
unfoldable pub set_xheaders : Map Bytes → Header → Header
unfolding set_option
set_xheaders [] h = h
set_xheaders ((k, v) ∷ m) h = set_xheaders m (set_option k v h)

module _ (t : Texts) where
  abbrev numeric : Option ℕ → Result HttpError ℕ
  numeric (some n) = ok n
  numeric none = err malformed_packet

  -- `validator::unsigned_number`, `content_type` and `expect_continue`
  unfoldable pub check_number : Bytes → Result HttpError (Unit {0})
  check_number v =
      if t.all_digits v then (do n ← numeric (t.to_unsigned v); ok tt) else err malformed_packet

  unfoldable pub check_type : Bytes → Result HttpError (Unit {0})
  check_type v = elim (t.find_first (codes "text/xml") (t.to_lower v)) [
    | some _ ↦ ok tt
    | none ↦ err (unsupported_content_type (t.to_lower v))
  ]

  unfoldable pub check_expect : Bytes → Result HttpError (Unit {0})
  check_expect v =
      if t.starts_with (t.to_lower v) (codes "100-continue") then ok tt else err expectation_failed

  -- `validators_`, a multimap
  abbrev pub validators : List (Bytes × Level × (Bytes → Result HttpError (Unit {0})))
  validators =
      (content_length_name, check_weak, check_number)
      ∷ (content_type_name, check_strict, check_type)
      ∷ (expect_name, check_weak, check_expect)
      ∷ []

  -- The loop of `set_option_checked`, over the validators of the name.
  unfoldable pub run_validators :
      List (Bytes × Level × (Bytes → Result HttpError (Unit {0})))
      → Level
      → Bytes
      → Bytes
      → Result HttpError (Unit {0})
  run_validators [] level name value = ok tt
  run_validators ((n, l, fn) ∷ vs) level name value =
      let rest : Result HttpError (Unit {0}) = run_validators vs level name value in
      if str_eq n name && level_le l level then (fn value >>= λ _. rest) else rest

  unfoldable pub set_option_checked : Bytes → Bytes → Header → Result HttpError Header
  unfolding set_option
  set_option_checked name value h = do
    done ← run_validators validators h.ver_level name value
    ok (set_option name value h)

  -- One round of the loop of `Header::parse`.
  unfoldable pub parse_option : Header → Bytes → Result HttpError Header
  parse_option h line = elim (t.find_first (codes ":") line) [
    | none ↦ err malformed_packet
    | some (name, value) ↦ set_option_checked (t.to_lower (t.trim name)) (t.trim value) h
  ]

  unfoldable pub parse_options : List Bytes → Header → Result HttpError Header
  parse_options [] h = ok h
  parse_options (line ∷ lines) h = do h' ← parse_option h line; parse_options lines h'

  abbrev pub parse_lines : List Bytes → Header → Result HttpError Header
  parse_lines [] h = ok h
  parse_lines (l ∷ lines) h = parse_options lines (record h { head_line = l })

  unfoldable pub parse_header : Bytes → Header → Result HttpError Header
  parse_header s h = parse_lines (t.split is_crlf true s) h

  unfoldable pub get_unsigned : Header → Bytes → Result HttpError ℕ
  unfolding get_string
  get_unsigned h name = do v ← get_string h name; numeric (t.to_unsigned v)

  unfoldable pub content_length : Header → Result HttpError ℕ
  content_length h =
      if option_exists h content_length_name
      then get_unsigned h content_length_name
      else err length_required

  unfoldable pub set_content_length : ℕ → Header → Header
  unfolding set_option
  set_content_length len h =
      let h' : Header = set_option content_length_name (t.of_size len) h in
      if len == 0 then h' else set_option content_type_name (codes "text/xml") h'

  -- `dump_head` of the subclasses
  unfoldable pub dump_head : Kind → Bytes
  dump_head (request uri) = codes "POST " ++ uri ++ codes " HTTP/1.0" ++ crlf
  dump_head (response code phrase) =
      codes "HTTP/1.1 " ++ t.of_int code ++ codes " " ++ phrase ++ crlf

  unfoldable pub dump_options : Map Bytes → Bytes
  dump_options [] = []
  dump_options ((k, v) ∷ m) = k ++ codes ": " ++ v ++ crlf ++ dump_options m

  unfoldable pub dump_header : Header → Bytes
  unfolding dump_head dump_options
  dump_header h = dump_head h.kind ++ dump_options h.options ++ crlf

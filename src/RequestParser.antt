-- ===== src/RequestParser.antt =====
-- Requests (libiqxmlrpc/request.cc, request_parser.cc): `parse_request` and `dump_request`, over
-- the nodes that libxml2 reports and the calls that its writer gets.
pub mod Rounds
pub mod RoundTrip
use libiqxmlrpc.Prelude.Bytes.{Bytes, codes}
use libiqxmlrpc.Prelude.{
  ℕ, Bool, true, false, List, [], ◌∷◌, ◌++◌, Option, none, some, Result, ok, err, ◌>>=◌,
  if◌then◌else◌,
}
use libiqxmlrpc.Value.{Value}
use libiqxmlrpc.ValueParser.{Lexical, Defaults, SubBuild, build_value}
use libiqxmlrpc.Xml.{
  Node, XmlError, xml_rpc_violation, Reader, open_reader, read_data, Builder, Methods, parse, start,
  change,
}
use libiqxmlrpc.XmlBuilder.{Event, close, textnode, value_to_xml}

pub data RequestState : Type 0 where
  request_none method_call method_name params_state param_state value_state : RequestState

abbrev pub request_index : RequestState → ℕ
request_index request_none = 0
request_index method_call = 1
request_index method_name = 2
request_index params_state = 3
request_index param_state = 4
request_index value_state = 5

abbrev pub request_trans : List (RequestState × RequestState × Bytes)
request_trans =
    (request_none, method_call, codes "methodCall")
    ∷ (method_call, method_name, codes "methodName")
    ∷ (method_name, params_state, codes "params")
    ∷ (params_state, param_state, codes "param")
    ∷ (param_state, value_state, codes "value")
    ∷ (value_state, param_state, codes "param")
    ∷ []

-- A parameter is a `Value` whose pointer may be null.
pub record RequestFields (D : Type 0) : Type 0 where
  pub state : RequestState
  pub name : Option Bytes
  pub params : List (Option (Value D))

-- `Request`
pub record Request (D : Type 0) : Type 0 where
  pub name : Bytes
  pub params : List (Option (Value D))

module _ {D : Type 0} where
  -- `RequestBuilder::do_visit_element`, in the new state
  request_visit :
      SubBuild (Option (Value D))
      → RequestState
      → Builder (RequestFields D)
      → Reader
      → Result XmlError (Builder (RequestFields D) × Reader)
  request_visit sub method_name b r = do
    (name, r') ← read_data r
    ok (record b { derived = record b.derived { state = method_name; name = some name } }, r')
  request_visit sub value_state b r = do
    (v, r') ← sub r
    ok (
      record b {
        derived = record b.derived { state = value_state; params = b.derived.params ++ v ∷ [] };
      },
      r',
    )
  request_visit sub s b r = ok (record b { derived = record b.derived { state = s } }, r)

  unfoldable pub request_methods : SubBuild (Option (Value D)) → Methods (RequestFields D)
  unfolding request_visit
  request_methods sub = record {
    expects_text = false;
    visit_element = λ tag b r. (do
      s ← change request_index request_trans b.derived.state tag
      request_visit sub s b r);
    visit_element_end = λ tag b. ok b;
    visit_text = λ s b. ok b;
  }

  -- `RequestBuilder::get`
  unfoldable pub request_of : RequestFields D → Result XmlError (Request D)
  request_of f = elim f.name [
    | some name ↦ ok (record { name = name; params = f.params })
    | none ↦ err xml_rpc_violation
  ]

module _ (l : Lexical) where
  open l use {Double}

  abbrev pub request_start : RequestFields Double
  request_start = record { state = request_none; name = none; params = [] }

  -- `parse_request`; the fuel bounds the rounds of the parser and the depth of the values.
  unfoldable pub parse_request : Defaults → ℕ → List Node → Bool → Result XmlError (Request Double)
  parse_request d fuel nodes broken = do
    (b, r) ←
        parse (request_methods (build_value l d fuel true)) fuel (start false request_start)
          (open_reader nodes broken)
    request_of b.derived

  -- The loop of `dump_request`.
  pub params_to_xml : List (Value Double) → List Event → List Event
  params_to_xml [] rest = rest
  params_to_xml (v ∷ vs) rest =
      Event.start (codes "param") ∷ value_to_xml l false v (close ∷ params_to_xml vs rest)

  -- `dump_request`; `stop` closes the root element.
  unfoldable pub dump_request : Bytes → List (Value Double) → List Event
  unfolding params_to_xml
  dump_request name params =
      Event.start (codes "methodCall")
      ∷ textnode (codes "methodName") name
          (Event.start (codes "params") ∷ params_to_xml params (close ∷ close ∷ []))

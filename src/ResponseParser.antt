-- ===== src/ResponseParser.antt =====
-- Responses (libiqxmlrpc/response.cc, response_parser.cc): `parse_response` and `dump_response`, over
-- the nodes that libxml2 reports and the calls that its writer gets.
pub mod RoundTrip
use libiqxmlrpc.Prelude.Bytes.{Bytes, codes}
use libiqxmlrpc.Prelude.Int.{ℤ, pos}
use libiqxmlrpc.Prelude.{
  ℕ, Bool, true, false, not, ◌&&◌, List, [], ◌∷◌, Option, none, some, Result, ok, err, ◌>>=◌, ◌==◌,
  if◌then◌else◌,
}
use libiqxmlrpc.Value.{
  Value, int, string, struct, Fields, no_fields, ValueError, is_struct, the_struct, struct_size,
  has_field, struct_at, struct_insert, get_int, get_string,
}
use libiqxmlrpc.ValueParser.{Lexical, Defaults, SubBuild, build_value}
use libiqxmlrpc.Xml.{
  Node, XmlError, xml_rpc_violation, bad_cast, null_pointer, Reader, open_reader, Builder, Methods,
  parse, start, change,
}
use libiqxmlrpc.XmlBuilder.{Event, close, value_to_xml}

pub data ResponseState : Type 0 where
  response_none response ok_response ok_param ok_param_value fault_response : ResponseState
  fault_response_value : ResponseState

abbrev pub response_index : ResponseState → ℕ
response_index response_none = 0
response_index response = 1
response_index ok_response = 2
response_index ok_param = 3
response_index ok_param_value = 4
response_index fault_response = 5
response_index fault_response_value = 6

abbrev pub response_trans : List (ResponseState × ResponseState × Bytes)
response_trans =
    (response_none, response, codes "methodResponse")
    ∷ (response, ok_response, codes "params")
    ∷ (ok_response, ok_param, codes "param")
    ∷ (ok_param, ok_param_value, codes "value")
    ∷ (response, fault_response, codes "fault")
    ∷ (fault_response, fault_response_value, codes "value")
    ∷ []

-- `Response`: a value or a fault.
pub data Response (D : Type 0) : Type 0 where
  result : Value D → Response D
  fault : ℤ → Bytes → Response D

-- The fields of `ResponseBuilder`.
pub record ResponseFields (D : Type 0) : Type 0 where
  pub state : ResponseState
  pub ok_value : Option (Value D)
  pub fault_code : ℤ
  pub fault_str : Option Bytes

abbrev pub fault_code_name : Bytes
fault_code_name = codes "faultCode"

abbrev pub fault_string_name : Bytes
fault_string_name = codes "faultString"

abbrev cast_result : {A : Type 0} → Result ValueError A → Result XmlError A
cast_result (ok a) = ok a
cast_result (err _) = err bad_cast

module _ {D : Type 0} where
  -- `parse_fault`, behind the build of the value: a null pointer is no struct.
  unfoldable pub read_fault : Option (Value D) → Result XmlError (ℤ × Bytes)
  read_fault (some (struct s)) =
      if struct_size s == 2 && has_field fault_code_name s && has_field fault_string_name s
      then (do
        code ← cast_result (struct_at fault_code_name s >>= get_int)
        text ← cast_result (struct_at fault_string_name s >>= get_string)
        ok (code, text))
      else err xml_rpc_violation
  read_fault _ = err xml_rpc_violation

  -- `ok_` gets a copy of the value.
  abbrev copied : Option (Value D) → Result XmlError (Value D)
  copied (some v) = ok v
  copied none = err null_pointer

  -- `ResponseBuilder::do_visit_element`, in the new state; the builds of values are flat or not.
  response_visit :
      (Bool → SubBuild (Option (Value D)))
      → ResponseState
      → Builder (ResponseFields D)
      → Reader
      → Result XmlError (Builder (ResponseFields D) × Reader)
  response_visit sub ok_param_value b r = do
    (v, r') ← sub true r
    v' ← copied v
    ok (record b { derived = record b.derived { state = ok_param_value; ok_value = some v' } }, r')
  response_visit sub fault_response_value b r = do
    (v, r') ← sub false r
    (code, text) ← read_fault v
    ok (
      record b {
        derived = record b.derived {
          state = fault_response_value;
          fault_code = code;
          fault_str = some text;
        };
      },
      r',
    )
  response_visit sub s b r = ok (record b { derived = record b.derived { state = s } }, r)

  unfoldable pub response_methods :
      (Bool → SubBuild (Option (Value D))) → Methods (ResponseFields D)
  unfolding response_visit
  response_methods sub = record {
    expects_text = false;
    visit_element = λ tag b r. (do
      s ← change response_index response_trans b.derived.state tag
      response_visit sub s b r);
    visit_element_end = λ tag b. ok b;
    visit_text = λ s b. ok b;
  }

  abbrev fault_of : ℤ → Option Bytes → Result XmlError (Response D)
  fault_of code (some text) = ok (fault code text)
  fault_of code none = err xml_rpc_violation

  -- `ResponseBuilder::get`
  abbrev pub response_of : ℤ → Option Bytes → Option (Value D) → Result XmlError (Response D)
  response_of code text (some v) = ok (result v)
  response_of code text none = fault_of code text

  -- The fault of `dump_response`, as a struct.
  abbrev pub fault_struct : ℤ → Bytes → Fields D
  fault_struct code text =
      struct_insert fault_string_name (string text)
        (struct_insert fault_code_name (int code) no_fields)

module _ (l : Lexical) where
  open l use {Double}

  abbrev pub response_start : ResponseFields Double
  response_start = record {
    state = response_none;
    ok_value = none;
    fault_code = pos 0;
    fault_str = none;
  }

  -- `parse_response`; the fuel is as for requests.
  unfoldable pub parse_response :
      Defaults → ℕ → List Node → Bool → Result XmlError (Response Double)
  parse_response d fuel nodes broken = do
    (b, r) ←
        parse (response_methods (build_value l d fuel)) fuel (start false response_start)
          (open_reader nodes broken)
    response_of b.derived.fault_code b.derived.fault_str b.derived.ok_value

  -- `dump_response`, which may omit the tag of strings.
  unfoldable pub dump_response : Bool → Response Double → List Event
  dump_response omit (result v) =
      Event.start (codes "methodResponse")
      ∷ Event.start (codes "params")
      ∷ Event.start (codes "param")
      ∷ value_to_xml l omit v (close ∷ close ∷ close ∷ [])
  dump_response omit (fault code text) =
      Event.start (codes "methodResponse")
      ∷ Event.start (codes "fault")
      ∷ value_to_xml l omit (struct (fault_struct code text)) (close ∷ close ∷ [])

-- ===== src/Exceptions.antt =====
-- The exceptions of the library (libiqxmlrpc/except.h), and what a `catch` clause sees of them.
use libiqxmlrpc.Http.Errors.{HttpError, ErrorHead, error_head}
use libiqxmlrpc.Prelude.Bytes.{Bytes, codes}
use libiqxmlrpc.Prelude.Int.{ℤ, negsuc}
use libiqxmlrpc.Prelude.{◌++◌, Option, none, some}
use libiqxmlrpc.Xml.{
  XmlError, parse_error, xml_rpc_violation, bad_lexical_cast, malformed_base64, malformed_iso8601,
  bad_cast, null_pointer, out_of_fuel,
}

-- What is thrown: an exception of the reading of a document, with its text; one of HTTP; a `Fault`; an
-- `Exception` of another kind; another `std::exception`; anything else.
pub data Thrown : Type 0 where
  xml : XmlError → Bytes → Thrown
  http : HttpError → Thrown
  fault : ℤ → Bytes → Thrown
  exception : ℤ → Bytes → Thrown
  std_exception : Bytes → Thrown
  unknown : Thrown

-- The code of `Exception` where the constructor gets none.
abbrev pub undefined_error : ℤ
undefined_error = negsuc 31999

abbrev pub parser_error : ℤ
parser_error = negsuc 32699

abbrev pub violation_error : ℤ
violation_error = negsuc 32599

abbrev pub xml_build_error : Bytes → Thrown
xml_build_error d = exception (negsuc 32704) (codes "XML build error. " ++ d)

abbrev pub unknown_method : Bytes → Thrown
unknown_method name =
    exception (negsuc 32600) (codes "Server error. Method '" ++ name ++ codes "' not found.")

-- `Malformed_base64`, of no document
abbrev pub malformed_binary : Thrown
malformed_binary = exception undefined_error (codes "Malformed base64 format.")

abbrev pub invalid_meth_params : Thrown
invalid_meth_params = exception (negsuc 32601) (codes "Server error. Invalid method parameters.")

-- What the clauses tell apart: an `Error_response`, an `Exception` by its code and its text, another
-- `std::exception`, anything else. Where the model of the parser has met a null pointer, or has run
-- out of fuel, nothing is caught.
pub data Caught : Type 0 where
  error_response : ErrorHead → Bytes → Caught
  coded : ℤ → Bytes → Caught
  standard : Bytes → Caught
  anything : Caught
  undefined : Caught

abbrev caught_xml : XmlError → Bytes → Caught
caught_xml parse_error text = coded parser_error text
caught_xml xml_rpc_violation text = coded violation_error text
caught_xml bad_lexical_cast text = standard text
caught_xml malformed_base64 text = coded undefined_error text
caught_xml malformed_iso8601 text = coded undefined_error text
caught_xml bad_cast text = coded undefined_error text
caught_xml null_pointer text = undefined
caught_xml out_of_fuel text = undefined

-- An exception of HTTP that is no `Error_response` is `Malformed_packet`.
abbrev caught_http : Option ErrorHead → Caught
caught_http (some head) = error_response head (codes "HTTP: " ++ head.phrase)
caught_http none = coded undefined_error (codes "Malformed HTTP packet received.")

unfoldable pub caught : Thrown → Caught
caught (xml e text) = caught_xml e text
caught (http e) = caught_http (error_head e)
caught (fault c s) = coded c s
caught (exception c s) = coded c s
caught (std_exception s) = standard s
caught unknown = anything

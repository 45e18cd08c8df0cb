-- ===== src/Tests/Values.antt =====
-- Concrete runs of structs, of the builders of libiqxmlrpc/value_parser.cc and of requests, over casts
-- that write numbers in unary.
use libiqxmlrpc.Prelude.Bytes.{Bytes, codes, str_lt, str_eq}
use libiqxmlrpc.Prelude.Int.{ℤ, pos, negsuc}
use libiqxmlrpc.Prelude.{
  ℕ, zero, suc, true, false, if◌then◌else◌, ◌==◌, List, [], ◌∷◌, none, some, Option, ok, ◌≡◌, refl,
  ap, inr, arith, length,
}
use libiqxmlrpc.RequestParser.RoundTrip.{request_with, parse_request-dump_request}
use libiqxmlrpc.RequestParser.{parse_request, dump_request}
use libiqxmlrpc.ResponseParser.RoundTrip.{written_response, parse_response-dump_response}
use libiqxmlrpc.ResponseParser.{Response, fault, parse_response, dump_response}
use libiqxmlrpc.Value.Copies.{clone, clone_same}
use libiqxmlrpc.Value.Structs.{IsSorted, struct_find-struct_insert}
use libiqxmlrpc.Value.{
  Value, int, bool, string, array, struct, no_items, item, Fields, no_fields, field, struct_find,
  struct_insert,
}
use libiqxmlrpc.ValueParser.Flat.{BuildsFlat, build_value-flat}
use libiqxmlrpc.ValueParser.RoundTrip.{build_value-content}
use libiqxmlrpc.ValueParser.Scalars.{at, Builds}
use libiqxmlrpc.ValueParser.Nested.{read-content}
use libiqxmlrpc.ValueParser.Writable.{LexicalLaws, IsWritable, written}
use libiqxmlrpc.ValueParser.{Lexical, Defaults, build_value}
use libiqxmlrpc.Xml.{Node, element, end_element}
use libiqxmlrpc.XmlBuilder.Nodes.{value_tag, content, nodes_of-value_to_xml}
use libiqxmlrpc.XmlBuilder.{is_blank, close, value_to_xml, nodes_of}

abbrev ones : ℕ → Bytes
ones zero = []
ones (suc n) = b'1' ∷ ones n

abbrev show_int : ℤ → Bytes
show_int (pos n) = b'+' ∷ ones n
show_int (negsuc n) = b'-' ∷ ones n

abbrev read_int : Bytes → Option ℤ
read_int [] = none
read_int (c ∷ s) =
    if c == b'+'
    then some (pos (length s))
    else if c == b'-'
    then some (negsuc (length s))
    else if c == b'1'
    then some (pos 1)
    else if c == b'0'
    then some (pos 0)
    else none

abbrev pub unary : Lexical
unary = record {
  Double = ℤ;
  to_int = read_int;
  to_int64 = read_int;
  to_double = read_int;
  of_int = show_int;
  of_int64 = show_int;
  of_double = show_int;
}

length-ones : (n : ℕ) → length (ones n) ≡ n
length-ones zero = refl
length-ones (suc n) = ap suc (length-ones n)

read_int-show_int : (i : ℤ) → read_int (show_int i) ≡ some i
read_int-show_int (pos n) = ap (λ m. some (pos m)) (length-ones n)
read_int-show_int (negsuc n) = ap (λ m. some (negsuc m)) (length-ones n)

show_int-shown : (i : ℤ) → is_blank (show_int i) ≡ false
unfolding is_blank
show_int-shown (pos n) = refl
show_int-shown (negsuc n) = refl

pub unary-laws : LexicalLaws unary
unary-laws = record {
  int_law = λ i h. read_int-show_int i;
  int64_law = λ i h. read_int-show_int i;
  double_law = read_int-show_int;
  int_shown = show_int-shown;
  int64_shown = show_int-shown;
  double_shown = show_int-shown;
  one_law = refl;
  zero_law = refl;
}

abbrev pub no_defaults : Defaults
no_defaults = record { default_int = none; default_int64 = none }

abbrev some_fields : Fields ℤ
some_fields =
    field (codes "a") (int (negsuc 2))
      (field (codes "b") (array (item (bool true) no_items)) no_fields)

some_fields-IsSorted : IsSorted some_fields
unfolding str_lt
some_fields-IsSorted = ((refl, tt), (tt, tt))

abbrev some_struct : Value ℤ
some_struct = struct some_fields

some_struct-IsWritable : IsWritable some_struct
unfolding is_blank
some_struct-IsWritable = (some_fields-IsSorted, (refl, omega arith, (refl, (tt, tt), tt)))

abbrev some_array : Value ℤ
some_array = array (item (bool true) no_items)

nodes_of-value_to_xml_example :
    nodes_of [] (value_to_xml unary true some_struct (close ∷ []))
    ≡ element value_tag false
      ∷ content unary true some_struct (end_element value_tag ∷ nodes_of [] (close ∷ []))
nodes_of-value_to_xml_example = nodes_of-value_to_xml unary true some_struct [] (close ∷ [])

abbrev value_end : Node
value_end = end_element value_tag

abbrev member_end : Node
member_end = end_element (codes "member")

build_value-content_example :
    Builds
      (build_value unary no_defaults 60 false
        (at false (element value_tag false) (content unary false some_struct (value_end ∷ []))))
      (some (written some_struct))
      false
      value_end
      []
build_value-content_example =
    build_value-content unary no_defaults false unary-laws some_struct 60
      (at false (element value_tag false) (content unary false some_struct (value_end ∷ [])))
      value_end [] (omega arith) some_struct-IsWritable
      (read-content unary no_defaults false some_struct value_end [])

build_value-flat_example :
    BuildsFlat unary no_defaults false unary-laws 60
      (at false
        (element value_tag false)
        (content unary false some_struct (value_end ∷ member_end ∷ [])))
      (written some_struct)
      member_end
      []
build_value-flat_example =
    build_value-flat unary no_defaults false unary-laws some_struct 60
      (at false (element value_tag false)
        (content unary false some_struct (value_end ∷ member_end ∷ [])))
      member_end [] (omega arith) some_struct-IsWritable
      (read-content unary no_defaults false some_struct value_end (member_end ∷ []))

abbrev some_params : List (Value ℤ)
some_params = string (codes "x y") ∷ some_struct ∷ int (pos 7) ∷ []

parse_request-dump_request_example :
    parse_request unary no_defaults 120
      (nodes_of [] (dump_request unary (codes "echo") some_params))
      false
    ≡ ok (request_with unary no_defaults (codes "echo") some_params)
parse_request-dump_request_example =
    parse_request-dump_request unary no_defaults unary-laws (codes "echo") some_params 120
      (nodes_of [] (dump_request unary (codes "echo") some_params)) (unfold is_blank in refl)
      (inr (unfold is_blank in refl), (some_struct-IsWritable, (omega arith, tt))) (omega arith)
      refl

abbrev some_fault : Response ℤ
some_fault = fault (pos 3) (codes "no such method")

parse_response-dump_response_example :
    parse_response unary no_defaults 60 (nodes_of [] (dump_response unary false some_fault)) false
    ≡ ok (written_response unary no_defaults some_fault)
parse_response-dump_response_example =
    parse_response-dump_response unary no_defaults unary-laws some_fault 60
      (nodes_of [] (dump_response unary false some_fault))
      (omega arith, inr (unfold is_blank in refl)) (omega arith) refl

clone_same_example : clone some_struct ≡ some_struct
clone_same_example = clone_same some_struct (some_fields-IsSorted, (tt, ((tt, tt), tt)))

-- A name that is replaced, and one that is new.
struct_find-struct_insert_example :
    struct_find (codes "b") (struct_insert (codes "b") (int (negsuc 4)) some_fields) ≡ (
      if str_eq (codes "b") (codes "b")
      then some (int (negsuc 4))
      else struct_find (codes "b") some_fields)
struct_find-struct_insert_example =
    struct_find-struct_insert (codes "b") (codes "b") (int (negsuc 4)) some_fields

-- ===== src/XmlBuilder.antt =====
-- Writing XML (libiqxmlrpc/xml_builder.cc, value_type_xml.cc). The calls that the code makes of the
-- libxml2 text writer are a list of events, each function putting its own in front of those that
-- follow. What a libxml2 reader reports of the document that was written is a parameter of the
-- users of this module; `nodes_of` says what that is for texts that XML can carry.
pub mod Nodes
use mathlib.Core.Option
use libiqxmlrpc.Base64.{BinaryData, get_base64}
use libiqxmlrpc.DateTime.{Tm, to_string}
use libiqxmlrpc.Prelude.Bytes.{Bytes, codes}
use libiqxmlrpc.Prelude.{
  ℕ, Bool, true, false, ◌&&◌, ◌||◌, List, [], ◌∷◌, Option, none, some, ◌==◌, if◌then◌else◌,
}
use libiqxmlrpc.Value.{
  Value, nil, int, int64, bool, double, string, array, struct, binary, datetime, Items, no_items,
  item, Fields, no_fields, field,
}
use libiqxmlrpc.ValueParser.{Lexical}
use libiqxmlrpc.Xml.{Node, element, end_element, text, other}

-- `XmlBuilder::Node`'s constructor and destructor, and `add_textdata`.
pub data Event : Type 0 where
  start : Bytes → Event
  close : Event
  chars : Bytes → Event

-- `add_textnode`
abbrev pub textnode : Bytes → Bytes → List Event → List Event
textnode name cont rest = start name ∷ chars cont ∷ close ∷ rest

-- The text of a date. Where `to_string` has nothing to give, the source copies a buffer that was
-- never written; the text is empty here.
abbrev pub date_text : Tm → Bytes
date_text t = Option.get_or (to_string t) []

-- `Value_type_to_xml`, with `omit` for `server_mode_ && Value::omit_string_tag_in_responses()`.
module _ (l : Lexical) (omit : Bool) where
  open l use {Double, of_int, of_int64, of_double}

  unfoldable mutual
    -- `apply_visitor` of each class, with the visitor's method that it calls
    pub type_to_xml : Value Double → List Event → List Event
    type_to_xml nil rest = start (codes "nil") ∷ close ∷ rest
    type_to_xml (int i) rest = textnode (codes "i4") (of_int i) rest
    type_to_xml (int64 i) rest = textnode (codes "i8") (of_int64 i) rest
    type_to_xml (double d) rest = textnode (codes "double") (of_double d) rest
    type_to_xml (bool b) rest = textnode (codes "boolean") (if b then codes "1" else codes "0") rest
    type_to_xml (string s) rest = if omit then chars s ∷ rest else textnode (codes "string") s rest
    type_to_xml (array a) rest =
        start (codes "array") ∷ start (codes "data") ∷ items_to_xml a (close ∷ close ∷ rest)
    type_to_xml (struct s) rest = start (codes "struct") ∷ fields_to_xml s (close ∷ rest)
    type_to_xml (binary b) rest = textnode (codes "base64") (get_base64 b).base64 rest
    type_to_xml (datetime t) rest = textnode (codes "dateTime.iso8601") (date_text t) rest

    -- The loops of `do_visit_array` and `do_visit_struct`. Each value is written by
    -- `do_visit_value`, in a `value` element.
    pub items_to_xml : Items Double → List Event → List Event
    items_to_xml no_items rest = rest
    items_to_xml (item v a) rest =
        start (codes "value") ∷ type_to_xml v (close ∷ items_to_xml a rest)

    pub fields_to_xml : Fields Double → List Event → List Event
    fields_to_xml no_fields rest = rest
    fields_to_xml (field k v s) rest =
        start (codes "member")
        ∷ textnode (codes "name") k
            (start (codes "value") ∷ type_to_xml v (close ∷ close ∷ fields_to_xml s rest))

  -- `do_visit_value`
  abbrev pub value_to_xml : Value Double → List Event → List Event
  value_to_xml v rest = start (codes "value") ∷ type_to_xml v (close ∷ rest)

-- XML's white space.
abbrev xml_space : ℕ → Bool
xml_space c = c == b' ' || c == 9 || c == 10 || c == 13

unfoldable pub is_blank : Bytes → Bool
is_blank [] = true
is_blank (c ∷ s) = xml_space c && is_blank s

-- The node for a text: none for no characters, and white space is no `XML_READER_TYPE_TEXT`.
unfoldable pub text_nodes : Bytes → List Node → List Node
text_nodes [] rest = rest
text_nodes (c ∷ s) rest = if is_blank (c ∷ s) then other ∷ rest else text (c ∷ s) ∷ rest

-- An element that is closed at once is written as an empty element.
is_close : List Event → Bool
is_close (close ∷ _) = true
is_close _ = false

-- The end of the innermost open element.
close_nodes : List (Bytes × Bool) → List Node → List Node
close_nodes [] rest = rest
close_nodes ((name, empty) ∷ _) rest = if empty then rest else end_element name ∷ rest

abbrev pop : List (Bytes × Bool) → List (Bytes × Bool)
pop [] = []
pop (_ ∷ opened) = opened

-- The nodes of the document that the events write, inside the elements that are open.
unfoldable pub nodes_of : List (Bytes × Bool) → List Event → List Node
unfolding is_close close_nodes
nodes_of opened [] = []
nodes_of opened (start name ∷ es) =
    element name (is_close es) ∷ nodes_of ((name, is_close es) ∷ opened) es
nodes_of opened (close ∷ es) = close_nodes opened (nodes_of (pop opened) es)
nodes_of opened (chars s ∷ es) = text_nodes s (nodes_of opened es)

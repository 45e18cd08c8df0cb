-- ===== src/XmlBuilder/Nodes.antt =====
-- The nodes that a reader meets inside the `value` element of a written value, by recursion on the
-- value, and the proof that they are those of the events.
use libiqxmlrpc.Base64.{get_base64}
use libiqxmlrpc.Prelude.Bytes.{Bytes, codes}
use libiqxmlrpc.Prelude.{
  Bool, true, false, List, ◌∷◌, ◌≡◌, refl, ap, ◌∙◌, arith, Bool-cases, inl, inr, if◌then◌else◌,
}
use libiqxmlrpc.Value.{
  Value, nil, int, int64, bool, double, string, array, struct, binary, datetime, Items, no_items,
  item, Fields, no_fields, field,
}
use libiqxmlrpc.ValueParser.{Lexical}
use libiqxmlrpc.Xml.{Node, element, end_element}
use libiqxmlrpc.XmlBuilder.{
  Event, start, close, date_text, type_to_xml, value_to_xml, items_to_xml, fields_to_xml,
  text_nodes, nodes_of, is_close,
}

abbrev pub element_nodes : Bytes → Bytes → List Node → List Node
element_nodes name s rest = element name false ∷ text_nodes s (end_element name ∷ rest)

abbrev pub value_tag : Bytes
value_tag = codes "value"

module _ (l : Lexical) (omit : Bool) where
  open l use {Double, of_int, of_int64, of_double}

  unfoldable mutual
    pub content : Value Double → List Node → List Node
    content nil rest = element (codes "nil") true ∷ rest
    content (int i) rest = element_nodes (codes "i4") (of_int i) rest
    content (int64 i) rest = element_nodes (codes "i8") (of_int64 i) rest
    content (double d) rest = element_nodes (codes "double") (of_double d) rest
    content (bool b) rest =
        element_nodes (codes "boolean") (if b then codes "1" else codes "0") rest
    content (string s) rest =
        if omit then text_nodes s rest else element_nodes (codes "string") s rest
    content (array no_items) rest =
        element (codes "array") false
        ∷ element (codes "data") true
        ∷ end_element (codes "array")
        ∷ rest
    content (array (item v a)) rest =
        element (codes "array") false
        ∷ element (codes "data") false
        ∷ items_content (item v a) (end_element (codes "data") ∷ end_element (codes "array") ∷ rest)
    content (struct no_fields) rest = element (codes "struct") true ∷ rest
    content (struct (field k v s)) rest =
        element (codes "struct") false
        ∷ fields_content (field k v s) (end_element (codes "struct") ∷ rest)
    content (binary b) rest = element_nodes (codes "base64") (get_base64 b).base64 rest
    content (datetime t) rest = element_nodes (codes "dateTime.iso8601") (date_text t) rest

    pub items_content : Items Double → List Node → List Node
    items_content no_items rest = rest
    items_content (item v a) rest =
        element value_tag false ∷ content v (end_element value_tag ∷ items_content a rest)

    pub fields_content : Fields Double → List Node → List Node
    fields_content no_fields rest = rest
    fields_content (field k v s) rest =
        element (codes "member") false
        ∷ element_nodes (codes "name") k (
            element value_tag false
            ∷ content v
                (end_element value_tag ∷ end_element (codes "member") ∷ fields_content s rest))

  abbrev Opened : Type 0
  Opened = List (Bytes × Bool)

  -- No value begins with the end of its element.
  is_close-type_to_xml :
      (v : Value Double) (es : List Event) → is_close (type_to_xml l omit v es) ≡ false
  unfolding is_close type_to_xml
  is_close-type_to_xml (string s) es = ground arith
  is_close-type_to_xml _ es = refl

  nodes_of-start :
      (name : Bytes) (opened : Opened) (es : List Event)
      → is_close es ≡ false
      → nodes_of opened (start name ∷ es)
        ≡ element name false ∷ nodes_of ((name, false) ∷ opened) es
  unfolding nodes_of
  nodes_of-start name opened es h = rw h

  nodes_of-close :
      (name : Bytes) (opened : Opened) (es : List Event)
      → nodes_of ((name, false) ∷ opened) (close ∷ es) ≡ end_element name ∷ nodes_of opened es
  unfolding nodes_of
  nodes_of-close name opened es = refl

  -- A value's element, from what its content and the events behind it write.
  pub value_nodes :
      (v : Value Double) (opened : Opened) (es : List Event) {rest : List Node}
      → nodes_of ((value_tag, false) ∷ opened) (type_to_xml l omit v (close ∷ es))
        ≡ content v (nodes_of ((value_tag, false) ∷ opened) (close ∷ es))
      → nodes_of opened es ≡ rest
      → nodes_of opened (start value_tag ∷ type_to_xml l omit v (close ∷ es))
        ≡ element value_tag false ∷ content v (end_element value_tag ∷ rest)
  value_nodes v opened es h e =
      nodes_of-start value_tag opened _ (is_close-type_to_xml v (close ∷ es))
      ∙ ap (◌∷◌ (element value_tag false)) (
          h
          ∙ ap (content v)
              (nodes_of-close value_tag opened es ∙ ap (◌∷◌ (end_element value_tag)) e))

  nodes_of-string :
      (s : Bytes) (opened : Opened) (es : List Event)
      → nodes_of opened (type_to_xml l omit (string s) es) ≡ content (string s) (nodes_of opened es)
  unfolding nodes_of type_to_xml content
  nodes_of-string s opened es = elim (Bool-cases omit) [ inl e ↦ rw e | inr e ↦ rw e ]

  -- What the events of a value write, in front of any others.
  mutual
    unfolding nodes_of type_to_xml content

    pub nodes_of-type_to_xml :
        (v : Value Double) (opened : Opened) (es : List Event)
        → nodes_of opened (type_to_xml l omit v es) ≡ content v (nodes_of opened es)
    nodes_of-type_to_xml nil opened es = refl
    nodes_of-type_to_xml (int i) opened es = refl
    nodes_of-type_to_xml (int64 i) opened es = refl
    nodes_of-type_to_xml (bool b) opened es = refl
    nodes_of-type_to_xml (double d) opened es = refl
    nodes_of-type_to_xml (string s) opened es = nodes_of-string s opened es
    nodes_of-type_to_xml (array no_items) opened es = refl
    nodes_of-type_to_xml (array (item v a)) opened es =
        ap (λ ns. element (codes "array") false ∷ element (codes "data") false ∷ ns)
          (nodes_of-items_to_xml (item v a)
            ((codes "data", false) ∷ (codes "array", false) ∷ opened) (close ∷ close ∷ es))
    nodes_of-type_to_xml (struct no_fields) opened es = refl
    nodes_of-type_to_xml (struct (field k v s)) opened es =
        ap (λ ns. element (codes "struct") false ∷ ns)
          (nodes_of-fields_to_xml (field k v s) ((codes "struct", false) ∷ opened) (close ∷ es))
    nodes_of-type_to_xml (binary b) opened es = refl
    nodes_of-type_to_xml (datetime t) opened es = refl

    nodes_of-items_to_xml :
        (a : Items Double) (opened : Opened) (es : List Event)
        → nodes_of opened (items_to_xml l omit a es) ≡ items_content a (nodes_of opened es)
    nodes_of-items_to_xml no_items opened es = refl
    nodes_of-items_to_xml (item v a) opened es =
        value_nodes v opened (items_to_xml l omit a es)
          (nodes_of-type_to_xml v ((value_tag, false) ∷ opened) (close ∷ items_to_xml l omit a es))
          (nodes_of-items_to_xml a opened es)

    nodes_of-fields_to_xml :
        (s : Fields Double) (opened : Opened) (es : List Event)
        → nodes_of opened (fields_to_xml l omit s es) ≡ fields_content s (nodes_of opened es)
    nodes_of-fields_to_xml no_fields opened es = refl
    nodes_of-fields_to_xml (field k v s) opened es =
        let inside : Opened = (codes "member", false) ∷ opened in
        ap (λ ns. element (codes "member") false ∷ element_nodes (codes "name") k ns)
          (value_nodes v inside (close ∷ fields_to_xml l omit s es)
            (nodes_of-type_to_xml v ((value_tag, false) ∷ inside)
              (close ∷ close ∷ fields_to_xml l omit s es))
            (ap (◌∷◌ (end_element (codes "member"))) (nodes_of-fields_to_xml s opened es)))

  -- The nodes of the events that `value_to_xml` writes, in front of any others, are a `value` element
  -- around the value's content, whether the tag of strings is omitted or not.
  pub nodes_of-value_to_xml :
      (v : Value Double) (opened : Opened) (es : List Event)
      → nodes_of opened (value_to_xml l omit v es)
        ≡ element value_tag false ∷ content v (end_element value_tag ∷ nodes_of opened es)
  nodes_of-value_to_xml v opened es =
      value_nodes v opened es (nodes_of-type_to_xml v ((value_tag, false) ∷ opened) (close ∷ es))
        refl

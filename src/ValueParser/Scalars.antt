-- ===== src/ValueParser/Scalars.antt =====
-- Reading an element that holds a text, or nothing (libiqxmlrpc/value_parser.cc, parser2.cc).
use libiqxmlrpc.Prelude.Bytes.{Bytes}
use libiqxmlrpc.Prelude.{ℕ, suc, Bool, true, false, List, ◌∷◌, some, Result, ok, ◌≡◌}
use libiqxmlrpc.Value.{Value}
use libiqxmlrpc.ValueParser.{
  Lexical, Defaults, ValueState, value_state, value_index, value_trans, ValueFields, SubBuild,
  is_value_state, value_methods, value_visit, value_start, exit_if_set, text_value, default_value,
}
use libiqxmlrpc.XmlBuilder.Nodes.{value_tag}
use libiqxmlrpc.Xml.{
  Node, element, end_element, text, XmlError, Reader, step_at, read, tag_name, Builder, Methods,
  start, change, parse, round,
}

-- The state of a parser that has just moved to a node.
abbrev pub at : Bool → Node → List Node → Reader
at broken node rest = record {
  rest = rest;
  broken = broken;
  node = node;
  curr = step_at node;
  pushed_back = false;
}

-- A build that succeeds, and leaves the parser where it moves to `node` next.
abbrev pub Builds :
    {A : Type 0} → Result XmlError (A × Reader) → A → Bool → Node → List Node → Type 0
Builds res a broken node rest =
    (r : Reader) × (res ≡ ok (a, r)) × (read r ≡ ok (at broken node rest))

-- The nodes behind the content of a value, and the end tag that a build reads last.
abbrev pub behind : Bool → Node → List Node → List Node
behind false n ns = n ∷ ns
behind true n ns = end_element value_tag ∷ n ∷ ns

abbrev pub last_tag : Bool → Bytes → Bytes
last_tag false tag = tag
last_tag true tag = value_tag

module _ (l : Lexical) (d : Defaults) where
  open l use {Double}

  -- The states in which a builder waits for a text.
  abbrev pub IsLeaf : ValueState → Type 0
  IsLeaf st =
      (sub_struct sub_array : SubBuild (Value Double)) (b : Builder (ValueFields Double))
      (r : Reader)
      → value_visit l d sub_struct sub_array st b r ≡ ok (exit_if_set l d b, r)

  -- The builder when it has its value and goes. A flat build also reads the end of the `value`
  -- element around the value.
  abbrev pub finished : ValueState → Value Double → Builder (ValueFields Double)
  finished st v = record {
    depth = 0;
    wants_exit = true;
    derived = record { state = st; retval = some v };
  }

  module _ (sub_struct sub_array : SubBuild (Value Double)) (tag : Bytes) (st : ValueState)
      (br : Bool) (ns : List Node) (ht : tag_name (element tag false) ≡ tag)
      (hc : change value_index value_trans value_state tag ≡ ok st) (hl : IsLeaf st) where
    abbrev pub m : Methods (ValueFields Double)
    m = value_methods l d sub_struct sub_array

    pub parse-text :
        (flat : Bool) (s : Bytes) (v : Value Double) (n : Node) (k : ℕ) (r : Reader)
        → is_value_state st ≡ false
        → text_value l d st s ≡ ok v
        → read r ≡ ok (at br (element tag false) (text s ∷ end_element tag ∷ behind flat n ns))
        → parse m (suc (suc (suc (suc k)))) (start flat (value_start l d)) r
          ≡ ok (finished st v, at br (end_element (last_tag flat tag)) (n ∷ ns))
    unfolding parse round read value_methods
    parse-text false s v n k r hs hv hr = rw (hr, ht, hc, hl, hv, hs)
    parse-text true s v n k r hs hv hr = rw (hr, ht, hc, hl, hv, hs)

    pub parse-empty :
        (flat : Bool) (v : Value Double) (n : Node) (k : ℕ) (r : Reader)
        → default_value l d st ≡ ok v
        → read r ≡ ok (at br (element tag false) (end_element tag ∷ behind flat n ns))
        → parse m (suc (suc (suc k))) (start flat (value_start l d)) r
          ≡ ok (finished st v, at br (end_element (last_tag flat tag)) (n ∷ ns))
    unfolding parse round read value_methods
    parse-empty false v n k r hv hr = rw (hr, ht, hc, hl, hv)
    parse-empty true v n k r hv hr = rw (hr, ht, hc, hl, hv)

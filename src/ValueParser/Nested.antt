-- ===== src/ValueParser/Nested.antt =====
-- The rounds of the parser's loops around a struct or an array (libiqxmlrpc/value_parser.cc,
-- parser2.cc), and what comes next behind each tag of a written value.
use libiqxmlrpc.Prelude.Bytes.{Bytes, codes, str_eq}
use libiqxmlrpc.Prelude.{
  ℕ, suc, Bool, true, false, List, [], ◌∷◌, Option, some, ok, ◌≡◌, refl, ap, ◌∙◌, if◌then◌else◌,
}
use libiqxmlrpc.Value.{Value, nil, array, struct, Items, no_items, item, Fields, no_fields, field}
use libiqxmlrpc.ValueParser.Leaves.{next, build_value-parse, build_struct-parse, build_array-parse}
use libiqxmlrpc.ValueParser.Members.{between, inside}
use libiqxmlrpc.ValueParser.Scalars.{at, Builds}
use libiqxmlrpc.ValueParser.{
  Lexical, Defaults, ValueState, struct_state, array_state, data_state, values_state, array_index,
  array_trans, ValueFields, StructFields, ArrayFields, SubBuild, value_methods, struct_methods,
  array_methods, value_start, array_start, build_value, build_struct, build_array,
}
use libiqxmlrpc.Xml.{
  Node, element, end_element, Reader, read, local_name, Builder, start, change, parse, round,
}
use libiqxmlrpc.XmlBuilder.Nodes.{value_tag, content, items_content, fields_content}

abbrev pub array_close : List Node → List Node
array_close ns = end_element (codes "data") ∷ end_element (codes "array") ∷ ns

abbrev pub struct_close : List Node → List Node
struct_close ns = end_element (codes "struct") ∷ ns

pub change-data : change array_index array_trans data_state (codes "value") ≡ ok values_state
unfolding change str_eq
change-data = refl

pub change-values : change array_index array_trans values_state (codes "value") ≡ ok values_state
unfolding change str_eq
change-values = refl

module _ {D : Type 0} where
  abbrev pub owner : Bool → ValueState → Value D → Builder (ValueFields D)
  owner flat st v = record {
    depth = if flat then 2 else 1;
    wants_exit = true;
    derived = record { state = st; retval = some v };
  }

module _ (l : Lexical) (d : Defaults) (br : Bool) where
  open l use {Double}

  -- A value whose element is that of a struct, or of an array.
  pub parse-struct :
      (flat : Bool) (sub_struct sub_array : SubBuild (Value Double)) (k : ℕ) (empty : Bool)
      (r r' : Reader) (v : Value Double) (ns : List Node)
      → read r ≡ ok (at br (element (codes "struct") empty) ns)
      → sub_struct (at br (element (codes "struct") empty) ns) ≡ ok (v, r')
      → parse (value_methods l d sub_struct sub_array) (suc k) (start flat (value_start l d)) r
        ≡ ok (owner flat struct_state v, r')
  unfolding parse round read value_methods change str_eq local_name
  parse-struct false sub_struct sub_array k empty r r' v ns hr hs = rw (hr, hs)
  parse-struct true sub_struct sub_array k empty r r' v ns hr hs = rw (hr, hs)

  pub parse-array :
      (flat : Bool) (sub_struct sub_array : SubBuild (Value Double)) (k : ℕ) (r r' : Reader)
      (v : Value Double) (ns : List Node)
      → read r ≡ ok (at br (element (codes "array") false) ns)
      → sub_array (at br (element (codes "array") false) ns) ≡ ok (v, r')
      → parse (value_methods l d sub_struct sub_array) (suc k) (start flat (value_start l d)) r
        ≡ ok (owner flat array_state v, r')
  unfolding parse round read value_methods change str_eq local_name
  parse-array false sub_struct sub_array k r r' v ns hr hs = rw (hr, hs)
  parse-array true sub_struct sub_array k r r' v ns hr hs = rw (hr, hs)

  -- Empty containers.
  pub build_struct-empty :
      (k : ℕ) (m : Node) (ns : List Node)
      → Builds
          (build_struct l d (suc (suc k)) (at br (element (codes "struct") true) (m ∷ ns)))
          (struct no_fields)
          br
          m
          ns
  unfolding build_value parse round read struct_methods str_eq
  build_struct-empty k m ns = (_, refl, refl)

  pub build_array-empty :
      (k : ℕ) (m : Node) (ns : List Node)
      → Builds
          (build_array l d (suc (suc (suc (suc k)))) (
            at br
              (element (codes "array") false)
              (element (codes "data") true ∷ end_element (codes "array") ∷ m ∷ ns)))
          (array no_items)
          br
          m
          ns
  unfolding build_value parse round read array_methods change str_eq local_name
  build_array-empty k m ns = (_, refl, refl)

  pub parse-data :
      (sub : SubBuild (Option (Value Double))) (k : ℕ) (ns : List Node)
      → parse
          (array_methods sub)
          (suc k)
          (start true (array_start l d))
          (at br (element (codes "array") false) (element (codes "data") false ∷ ns))
        ≡ parse
            (array_methods sub)
            k
            (inside sub br data_state no_items)
            (at br (element (codes "data") false) ns)
  unfolding parse round read array_methods change str_eq local_name
  parse-data sub k ns = refl

  -- What comes next behind the start of a value's element, or the end of one.
  pub read-content :
      (v : Value Double) (m : Node) (ns : List Node)
      → read (at br (element value_tag false) (content l false v (m ∷ ns)))
        ≡ next br (content l false v (m ∷ ns))
  unfolding read content
  read-content (array no_items) m ns = refl
  read-content (array (item v a)) m ns = refl
  read-content (struct no_fields) m ns = refl
  read-content (struct (field k v s)) m ns = refl
  read-content _ m ns = refl

  module _ (n : Node)
      (plain : (ns : List Node) (m : Node) → read (at br n (m ∷ ns)) ≡ ok (at br m ns)) where
    pub read-items :
        (a : Items Double) (ns : List Node)
        → read (at br n (items_content l false a (array_close ns)))
          ≡ next br (items_content l false a (array_close ns))
    unfolding content
    read-items no_items ns = plain _ _
    read-items (item v a) ns = plain _ _

    pub read-fields :
        (s : Fields Double) (ns : List Node)
        → read (at br n (fields_content l false s (struct_close ns)))
          ≡ next br (fields_content l false s (struct_close ns))
    unfolding content
    read-fields no_fields ns = plain _ _
    read-fields (field k v s) ns = plain _ _

  pub read_after_end :
      (tag : Bytes) (ns : List Node) (m : Node)
      → read (at br (end_element tag) (m ∷ ns)) ≡ ok (at br m ns)
  unfolding read
  read_after_end tag ns m = refl

  pub read_after_start :
      (tag : Bytes) (ns : List Node) (m : Node)
      → read (at br (element tag false) (m ∷ ns)) ≡ ok (at br m ns)
  unfolding read
  read_after_start tag ns m = refl

  -- From the loops to the value that holds the items or the fields.
  pub array_done :
      (flat : Bool) (k : ℕ) (r r' : Reader) (ns : List Node) (b : Builder (ArrayFields Double))
      (a : Items Double)
      → read r ≡ ok (at br (element (codes "array") false) (element (codes "data") false ∷ ns))
      → parse
          (array_methods (build_value l d (suc k) false))
          k
          (inside (build_value l d (suc k) false) br data_state no_items)
          (at br (element (codes "data") false) ns)
        ≡ ok (b, r')
      → b.derived.items ≡ a
      → build_value l d (suc (suc (suc k))) flat r ≡ ok (some (array a), r')
  array_done flat k r r' ns b a hr h e =
      build_value-parse l d (suc (suc k)) flat r r' (owner flat array_state (array b.derived.items))
        (parse-array flat _ _ (suc k) r r' (array b.derived.items) _ hr (
          build_array-parse l d (suc k) _ r' b
            (parse-data (build_value l d (suc k) false) k ns ∙ h)))
      ∙ ap (λ x. ok (some (array x), r')) e

  pub struct_done :
      (flat : Bool) (k : ℕ) (r r' : Reader) (ns : List Node) (b : Builder (StructFields Double))
      (s : Fields Double)
      → read r ≡ ok (at br (element (codes "struct") false) ns)
      → parse
          (struct_methods (build_value l d (suc k) false))
          (suc k)
          (between (build_value l d (suc k) false) br [] nil no_fields)
          (at br (element (codes "struct") false) ns)
        ≡ ok (b, r')
      → b.derived.fields ≡ s
      → build_value l d (suc (suc (suc k))) flat r ≡ ok (some (struct s), r')
  struct_done flat k r r' ns b s hr h e =
      build_value-parse l d (suc (suc k)) flat r r'
        (owner flat struct_state (struct b.derived.fields))
        (parse-struct flat _ _ (suc k) false r r' (struct b.derived.fields) _ hr
          (build_struct-parse l d (suc k) _ r' b h))
      ∙ ap (λ x. ok (some (struct x), r')) e

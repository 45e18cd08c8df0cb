-- ===== src/ValueParser/RoundTrip.antt =====
-- Reading a written value gives the value back (libiqxmlrpc/value_parser.cc, parser2.cc,
-- value_type_xml.cc).
use libiqxmlrpc.Prelude.Bytes.{Bytes, codes}
use libiqxmlrpc.Prelude.{
  ℕ, suc, ◌≤◌, Bool, true, false, List, [], ◌∷◌, some, ok, ◌≡◌, ap, ◌∙◌, arith,
}
use libiqxmlrpc.Value.{
  Value, nil, int, int64, bool, double, string, array, struct, binary, datetime, Items, no_items,
  item, Fields, no_fields, field, array_push_back, struct_insert,
}
use libiqxmlrpc.Value.Structs.{IsSorted}
use libiqxmlrpc.ValueParser.Joins.{
  join_items, join_fields, join_items-no_items, join_fields-no_fields, join_items-array_push_back,
  join_fields-struct_insert, IsSorted-same_names,
}
use libiqxmlrpc.ValueParser.Leaves.{next, text_nodes-shown, at_least, build_value-parse}
use libiqxmlrpc.ValueParser.Members.{
  between, parse-member, parse-struct_end, inside, parse-item, parse-array_end,
}
use libiqxmlrpc.ValueParser.Scalars.{at, Builds}
use libiqxmlrpc.ValueParser.Simple.{
  build-bool, build-string, build-int, build-int64, build-double, build-datetime, build-binary,
}
use libiqxmlrpc.ValueParser.Writable.{
  LexicalLaws, IsWritable, AreWritable, FieldsAreWritable, written, written_items, written_fields,
  size, size_items, size_fields,
}
use libiqxmlrpc.ValueParser.{
  Lexical, Defaults, struct_state, array_state, ArrayState, data_state, values_state, array_index,
  array_trans, StructFields, ArrayFields, struct_methods, array_methods, build_value,
}
use libiqxmlrpc.Xml.{Node, element, end_element, Reader, read, Builder, change, parse}
use libiqxmlrpc.XmlBuilder.Nodes.{value_tag, content, items_content, fields_content}
use libiqxmlrpc.ValueParser.Nested.{
  owner, array_close, struct_close, parse-struct, parse-array, build_struct-empty,
  build_array-empty, read-content, read-items, read-fields, read_after_end, read_after_start,
  change-data, change-values, array_done, struct_done,
}

module _ (l : Lexical) (d : Defaults) (br : Bool) where
  open l use {Double}

  module _ (laws : LexicalLaws l) where
    -- The loops over items and fields, for a builder that has collected some already.
    abbrev pub ReadsItems :
        Items Double → Items Double → ℕ → ℕ → ArrayState → Reader → List Node → Type 0
    ReadsItems a acc n k st r ns =
        (b : Builder (ArrayFields Double)) × (parse (array_methods (build_value l d n false)) k
            (inside (build_value l d n false) br st acc) r
          ≡ ok (b, at br (end_element (codes "array")) ns))
        × (b.derived.items ≡ join_items acc (written_items a))

    abbrev pub ReadsFields :
        Fields Double → Bytes → Value Double → Fields Double → ℕ → ℕ → Reader → List Node → Type 0
    ReadsFields s name value acc n k r ns =
        (b : Builder (StructFields Double)) × (parse (struct_methods (build_value l d n false)) k
            (between (build_value l d n false) br name value acc) r
          ≡ ok (b, at br (end_element (codes "struct")) ns))
        × (b.derived.fields ≡ join_fields acc (written_fields s))

    -- The insertion of one more field, in the order of the names.
    next_field-IsSorted :
        (k : Bytes) (v w : Value Double) (acc s : Fields Double)
        → IsSorted (join_fields acc (field k v s))
        → IsSorted (join_fields (struct_insert k w acc) s)
    next_field-IsSorted k v w acc s h =
        rw (join_fields-struct_insert k w v acc s s h) (IsSorted-same_names k v w acc s h)

    mutual
      unfolding content

      pub build-content :
          (v : Value Double) (n : ℕ) (r : Reader) (m : Node) (ns : List Node)
          → size v ≤ n
          → IsWritable v
          → read r ≡ next br (content l false v (m ∷ ns))
          → Builds (build_value l d n false r) (some (written v)) br m ns
      build-content nil n r m ns h w hr = absurd w
      build-content (int i) n r m ns h w hr = build-int l d br laws i w false n r m ns h hr
      build-content (int64 i) n r m ns h w hr = build-int64 l d br laws i w false n r m ns h hr
      build-content (bool b) n r m ns h w hr = build-bool l d br laws b false n r m ns h hr
      build-content (double x) n r m ns h w hr = build-double l d br laws x false n r m ns h hr
      build-content (string s) n r m ns h w hr = build-string l d br laws s w false n r m ns h hr
      build-content (binary b) n r m ns h w hr = build-binary l d br laws b w false n r m ns h hr
      build-content (datetime t) n r m ns h w hr =
          build-datetime l d br laws t w false n r m ns h hr
      build-content (array no_items) n r m ns h w hr =
          let (k, e) = at_least 6 n h in
          let (r', built, after) = build_array-empty l d br (suc k) m ns in
          rw e (
            r',
            build_value-parse l d _ false r r' (owner false array_state (array no_items))
                (parse-array l d br false _ _ _ r r' (array no_items) _ hr built),
            after,
          )
      build-content (array (item v a)) n r m ns h w hr =
          let (k, e) = at_least 3 n (omega arith) in
          let (b, parsed, collected) =
            parse-items (item v a) no_items (suc k) k data_state _ (m ∷ ns) (omega arith)
              (omega arith) w change-data
              (read-items l d br _ (read_after_start l d br _) (item v a) (m ∷ ns)) in
          rw e (
            at br (end_element (codes "array")) (m ∷ ns),
            array_done l d br false k r _ _ b (written_items (item v a)) hr parsed collected,
            read_after_end l d br _ ns m,
          )
      build-content (struct no_fields) n r m ns h w hr =
          let (k, e) = at_least 3 n (omega arith) in
          let (r', built, after) = build_struct-empty l d br k m ns in
          rw e (
            r',
            build_value-parse l d _ false r r' (owner false struct_state (struct no_fields))
                (parse-struct l d br false _ _ _ true r r' (struct no_fields) _ hr built),
            after,
          )
      build-content (struct (field k v s)) n r m ns h w hr =
          let (j, e) = at_least 3 n (omega arith) in
          let (b, parsed, collected) =
            parse-fields (field k v s) [] nil no_fields (suc j) (suc j) _ (m ∷ ns) (omega arith)
              (omega arith) w.0 w.1
              (read-fields l d br _ (read_after_start l d br _) (field k v s) (m ∷ ns)) in
          rw e (
            at br (end_element (codes "struct")) (m ∷ ns),
            struct_done l d br false j r _ _ b (written_fields (field k v s)) hr parsed collected,
            read_after_end l d br _ ns m,
          )

      pub parse-items :
          (a : Items Double) (acc : Items Double) (n k : ℕ) (st : ArrayState) (r : Reader)
          (ns : List Node)
          → size_items a ≤ k
          → size_items a ≤ n
          → AreWritable a
          → change array_index array_trans st (codes "value") ≡ ok values_state
          → read r ≡ next br (items_content l false a (array_close ns))
          → ReadsItems a acc n k st r ns
      parse-items no_items acc n k st r ns hk hn w hc hr =
          let (j, e) = at_least 2 k hk in
          rw e (_, parse-array_end _ br j st acc r ns hr, join_items-no_items acc)
      parse-items (item v a) acc n k st r ns hk hn w hc hr =
          let (j, e) = at_least 2 k (omega arith) in
          let rest : List Node = items_content l false a (array_close ns) in
          let (r1, built, after) =
            build-content v n
              (at br (element value_tag false) (content l false v (end_element value_tag ∷ rest)))
              (end_element value_tag) rest (omega arith) w.0 (read-content l d br v _ _) in
          let (b, parsed, collected) =
            parse-items a (array_push_back acc (written v)) n j values_state
              (at br (end_element value_tag) rest) ns (omega arith) (omega arith) w.1 change-values
              (read-items l d br _ (read_after_end l d br _) a ns) in
          rw e (
            b,
            parse-item _ br j st (written v) acc r r1 _ rest hc hr built after ∙ parsed,
            collected ∙ join_items-array_push_back acc (written v) (written_items a),
          )

      pub parse-fields :
          (s : Fields Double) (name : Bytes) (value : Value Double) (acc : Fields Double) (n k : ℕ)
          (r : Reader) (ns : List Node)
          → size_fields s ≤ k
          → size_fields s ≤ n
          → IsSorted (join_fields acc s)
          → FieldsAreWritable s
          → read r ≡ next br (fields_content l false s (struct_close ns))
          → ReadsFields s name value acc n k r ns
      parse-fields no_fields name value acc n k r ns hk hn o w hr =
          let (j, e) = at_least 1 k hk in
          rw e (_, parse-struct_end _ br j name value acc r ns hr, join_fields-no_fields acc)
      parse-fields (field key v s) name value acc n k r ns hk hn o w hr =
          let (j, e) = at_least 6 k (omega arith) in
          let rest : List Node = fields_content l false s (struct_close ns) in
          let (r1, built, after) =
            build-content v n
              (at br (element value_tag false)
                (content l false v (end_element value_tag ∷ end_element (codes "member") ∷ rest)))
              (end_element value_tag) (end_element (codes "member") ∷ rest) (omega arith) w.1
              (read-content l d br v _ _) in
          let (b, parsed, collected) =
            parse-fields s key (written v) (struct_insert key (written v) acc) n j
              (at br (end_element (codes "member")) rest) ns (omega arith) (omega arith)
              (next_field-IsSorted key v (written v) acc s o) w.2
              (read-fields l d br _ (read_after_end l d br _) s ns) in
          rw e (
            b,
            parse-member _ br j name key value (written v) acc r r1 _ rest
                  (hr
                    ∙ ap
                        (λ t. ok (
                          at br (element (codes "member") false)
                            (element (codes "name") false ∷ t)))
                        (text_nodes-shown key _ w.0))
                  built after
                ∙ parsed,
            collected ∙ join_fields-struct_insert key (written v) v acc s (written_fields s) o,
          )

  -- A written value, read where its content begins, is the value that was written, with the caches
  -- of its binary objects filled, and the parser stops in front of the end of the `value` element.
  -- The value is writable (no nil,
  -- no text or name of blanks only, no empty name, numbers and dates in their ranges), the casts read back what they write, and the fuel is at least the size of
  -- the value.
  pub build_value-content :
      LexicalLaws l
      → (v : Value Double) (n : ℕ) (r : Reader) (m : Node) (ns : List Node) → size v ≤ n
      → IsWritable v
      → read r ≡ next br (content l false v (m ∷ ns))
      → Builds (build_value l d n false r) (some (written v)) br m ns
  build_value-content laws v n r m ns = build-content laws v n r m ns

-- ===== src/ValueParser/Flat.antt =====
-- A flat build of a written value, as the builders of requests and responses make it
-- (libiqxmlrpc/value_parser.cc, parser2.cc). It stops behind the end of the `value` element, but in
-- front of it where the value is a struct or an array.
use libiqxmlrpc.Prelude.Bytes.{codes}
use libiqxmlrpc.Prelude.{
  ◌⊎◌, inl, inr, ℕ, suc, ◌≤◌, Bool, true, false, List, [], ◌∷◌, some, ◌≡◌, arith,
}
use libiqxmlrpc.Value.{
  Value, nil, int, int64, bool, double, string, array, struct, binary, datetime, no_items, item,
  no_fields, field,
}
use libiqxmlrpc.ValueParser.Leaves.{next, at_least, build_value-parse}
use libiqxmlrpc.ValueParser.Scalars.{at, Builds}
use libiqxmlrpc.ValueParser.Simple.{
  build-bool, build-string, build-int, build-int64, build-double, build-datetime, build-binary,
}
use libiqxmlrpc.ValueParser.Writable.{
  LexicalLaws, IsWritable, written, written_items, written_fields, size,
}
use libiqxmlrpc.ValueParser.{Lexical, Defaults, struct_state, array_state, data_state, build_value}
use libiqxmlrpc.Xml.{Node, end_element, Reader, read}
use libiqxmlrpc.XmlBuilder.Nodes.{value_tag, content}
use libiqxmlrpc.ValueParser.Nested.{
  owner, parse-struct, parse-array, build_struct-empty, build_array-empty, read-items, read-fields,
  read_after_end, read_after_start, change-data, array_done, struct_done,
}
use libiqxmlrpc.ValueParser.RoundTrip.{parse-items, parse-fields}

module _ (l : Lexical) (d : Defaults) (br : Bool) (laws : LexicalLaws l) where
  open l use {Double}

  -- Where a flat build may stop, with `m` and `ns` behind the `value` element.
  abbrev pub BuildsFlat : ℕ → Reader → Value Double → Node → List Node → Type 0
  BuildsFlat n r v m ns =
      Builds (build_value l d n true r) (some v) br m ns
      ⊎ Builds (build_value l d n true r) (some v) br (end_element value_tag) (m ∷ ns)

  -- A flat build of a written value gives the value back, and stops behind the end of the `value`
  -- element or in front of it. The value is writable, the casts read back what they write, the fuel
  -- is at least the size of the value, and the reader is in front of its content.
  pub build_value-flat :
      (v : Value Double) (n : ℕ) (r : Reader) (m : Node) (ns : List Node)
      → size v ≤ n
      → IsWritable v
      → read r ≡ next br (content l false v (end_element value_tag ∷ m ∷ ns))
      → BuildsFlat n r (written v) m ns
  unfolding content
  build_value-flat nil n r m ns h w hr = absurd w
  build_value-flat (int i) n r m ns h w hr = inl (build-int l d br laws i w true n r m ns h hr)
  build_value-flat (int64 i) n r m ns h w hr = inl (build-int64 l d br laws i w true n r m ns h hr)
  build_value-flat (bool b) n r m ns h w hr = inl (build-bool l d br laws b true n r m ns h hr)
  build_value-flat (double x) n r m ns h w hr = inl (build-double l d br laws x true n r m ns h hr)
  build_value-flat (string s) n r m ns h w hr =
      inl (build-string l d br laws s w true n r m ns h hr)
  build_value-flat (binary b) n r m ns h w hr =
      inl (build-binary l d br laws b w true n r m ns h hr)
  build_value-flat (datetime t) n r m ns h w hr =
      inl (build-datetime l d br laws t w true n r m ns h hr)
  build_value-flat (array no_items) n r m ns h w hr =
      let (k, e) = at_least 6 n h in
      let (r', built, after) = build_array-empty l d br (suc k) (end_element value_tag) (m ∷ ns) in
      inr (
        rw e (
          r',
          build_value-parse l d _ true r r' (owner true array_state (array no_items))
              (parse-array l d br true _ _ _ r r' (array no_items) _ hr built),
          after,
        ))
  build_value-flat (array (item v a)) n r m ns h w hr =
      let (k, e) = at_least 3 n (omega arith) in
      let ns' : List Node = end_element value_tag ∷ m ∷ ns in
      let (b, parsed, collected) =
        parse-items l d br laws (item v a) no_items (suc k) k data_state _ ns' (omega arith)
          (omega arith) w change-data
          (read-items l d br _ (read_after_start l d br _) (item v a) ns') in
      inr (
        rw e (
          at br (end_element (codes "array")) ns',
          array_done l d br true k r _ _ b (written_items (item v a)) hr parsed collected,
          read_after_end l d br _ (m ∷ ns) (end_element value_tag),
        ))
  build_value-flat (struct no_fields) n r m ns h w hr =
      let (k, e) = at_least 3 n (omega arith) in
      let (r', built, after) = build_struct-empty l d br k (end_element value_tag) (m ∷ ns) in
      inr (
        rw e (
          r',
          build_value-parse l d _ true r r' (owner true struct_state (struct no_fields))
              (parse-struct l d br true _ _ _ true r r' (struct no_fields) _ hr built),
          after,
        ))
  build_value-flat (struct (field k v s)) n r m ns h w hr =
      let (j, e) = at_least 3 n (omega arith) in
      let ns' : List Node = end_element value_tag ∷ m ∷ ns in
      let (b, parsed, collected) =
        parse-fields l d br laws (field k v s) [] nil no_fields (suc j) (suc j) _ ns' (omega arith)
          (omega arith) w.0 w.1
          (read-fields l d br _ (read_after_start l d br _) (field k v s) ns') in
      inr (
        rw e (
          at br (end_element (codes "struct")) ns',
          struct_done l d br true j r _ _ b (written_fields (field k v s)) hr parsed collected,
          read_after_end l d br _ (m ∷ ns) (end_element value_tag),
        ))

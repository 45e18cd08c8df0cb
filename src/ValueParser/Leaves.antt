-- ===== src/ValueParser/Leaves.antt =====
-- Reading back a value that is written as one element (libiqxmlrpc/value_parser.cc).
use libiqxmlrpc.Prelude.Bytes.{Bytes}
use libiqxmlrpc.Prelude.{
  ℕ, zero, suc, ◌≤◌, Bool, true, false, List, [], ◌∷◌, some, Result, ok, err, ◌>>=◌, ◌≡◌, refl, ap,
  ◌∙◌, arith,
}
use libiqxmlrpc.Value.{Value, struct, array}
use libiqxmlrpc.ValueParser.Scalars.{at, Builds, IsLeaf, behind, last_tag, parse-text, parse-empty}
use libiqxmlrpc.ValueParser.{
  Lexical, Defaults, ValueState, value_state, value_index, value_trans, ValueFields, StructFields,
  ArrayFields, is_value_state, value_methods, value_start, text_value, default_value, build_value,
  build_struct, build_array, value_result, struct_result, array_result, struct_start, array_start,
  struct_methods, array_methods,
}
use libiqxmlrpc.Xml.{
  Node, element, end_element, text, XmlError, parse_error, Reader, read, tag_name, Builder, start,
  change, parse,
}
use libiqxmlrpc.XmlBuilder.Nodes.{element_nodes}
use libiqxmlrpc.XmlBuilder.{is_blank, text_nodes}

-- What `read` gives where these nodes are next.
abbrev pub next : Bool → List Node → Result XmlError Reader
next br [] = err parse_error
next br (n ∷ ns) = ok (at br n ns)

pub text_nodes-shown :
    (s : Bytes) (rest : List Node) → is_blank s ≡ false → text_nodes s rest ≡ text s ∷ rest
unfolding text_nodes is_blank
text_nodes-shown [] rest h = cc
text_nodes-shown (c ∷ s) rest h = ground arith

abbrev pub plus : ℕ → ℕ → ℕ
plus zero j = j
plus (suc k) j = suc (plus k j)

pub at_least : (k n : ℕ) → k ≤ n → (j : ℕ) × (n ≡ plus k j)
at_least zero n h = (n, refl)
at_least (suc k) zero h = absurd (omega arith)
at_least (suc k) (suc n) h = let (j, e) = at_least k n (omega arith) in (j, ap suc e)

module _ (l : Lexical) (d : Defaults) where
  open l use {Double}

  pub build_value-parse :
      (n : ℕ) (flat : Bool) (r r' : Reader) (b : Builder (ValueFields Double))
      → parse
          (value_methods l d (build_struct l d n) (build_array l d n))
          n
          (start flat (value_start l d))
          r
        ≡ ok (b, r')
      → build_value l d (suc n) flat r ≡ ok (b.derived.retval, r')
  unfolding build_value
  build_value-parse n flat r r' b h = ap (λ x. x >>= λ res. ok (value_result l d res)) h

  pub build_struct-parse :
      (n : ℕ) (r r' : Reader) (b : Builder (StructFields Double))
      → parse (struct_methods (build_value l d n false)) n (start true (struct_start l d)) r
        ≡ ok (b, r')
      → build_struct l d (suc n) r ≡ ok (struct b.derived.fields, r')
  unfolding build_value
  build_struct-parse n r r' b h = ap (λ x. x >>= λ res. ok (struct_result l d res)) h

  pub build_array-parse :
      (n : ℕ) (r r' : Reader) (b : Builder (ArrayFields Double))
      → parse (array_methods (build_value l d n false)) n (start true (array_start l d)) r
        ≡ ok (b, r')
      → build_array l d (suc n) r ≡ ok (array b.derived.items, r')
  unfolding build_value
  build_array-parse n r r' b h = ap (λ x. x >>= λ res. ok (array_result l d res)) h

  module _ (tag : Bytes) (st : ValueState) (br : Bool) (m : Node) (ns : List Node)
      (ht : tag_name (element tag false) ≡ tag)
      (hc : change value_index value_trans value_state tag ≡ ok st) (hl : IsLeaf l d st) where
    pub build-shown :
        (flat : Bool) (s : Bytes) (v : Value Double) (n : ℕ) (r : Reader)
        → 5 ≤ n
        → is_blank s ≡ false
        → is_value_state st ≡ false
        → text_value l d st s ≡ ok v
        → read r ≡ next br (element_nodes tag s (behind flat m ns))
        → Builds (build_value l d n flat r) (some v) br m ns
    build-shown flat s v n r h hb hs hv hr =
        let (k, e) = at_least 5 n h in
        rw e (
          at br (end_element (last_tag flat tag)) (m ∷ ns),
          build_value-parse _ flat r _ _ (
              parse-text l d _ _ tag st br ns ht hc hl flat s v m k r hs hv
                (hr ∙ ap (λ t. ok (at br (element tag false) t)) (text_nodes-shown s _ hb))),
          unfold read in refl,
        )

    pub build-empty :
        (flat : Bool) (v : Value Double) (n : ℕ) (r : Reader)
        → 5 ≤ n
        → default_value l d st ≡ ok v
        → read r ≡ next br (element_nodes tag [] (behind flat m ns))
        → Builds (build_value l d n flat r) (some v) br m ns
    unfolding text_nodes
    build-empty flat v n r h hv hr =
        let (k, e) = at_least 5 n h in
        rw e (
          at br (end_element (last_tag flat tag)) (m ∷ ns),
          build_value-parse _ flat r _ _
              (parse-empty l d _ _ tag st br ns ht hc hl flat v m (suc k) r hv hr),
          unfold read in refl,
        )

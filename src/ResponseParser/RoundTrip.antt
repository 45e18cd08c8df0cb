-- ===== src/ResponseParser/RoundTrip.antt =====
-- Reading a written response gives the response back (libiqxmlrpc/response.cc, response_parser.cc).
use libiqxmlrpc.Prelude.Bytes.{Bytes, codes, str_eq, str_lt}
use libiqxmlrpc.Prelude.Int.{ℤ, FitsInt}
use libiqxmlrpc.Prelude.{
  ℕ, suc, ◌≤◌, ◌+◌, true, false, List, [], ◌∷◌, some, ok, ◌≡◌, ◌⊎◌, inl, inr, refl, ap, arith,
}
use libiqxmlrpc.ResponseParser.{
  Response, result, fault, fault_struct, read_fault, response_visit, response_methods,
  parse_response, dump_response,
}
use libiqxmlrpc.Value.{Value, struct, struct_find, struct_at, struct_insert, get_int, get_string}
use libiqxmlrpc.ValueParser.Flat.{BuildsFlat, build_value-flat}
use libiqxmlrpc.ValueParser.Leaves.{at_least}
use libiqxmlrpc.ValueParser.Nested.{read-content}
use libiqxmlrpc.ValueParser.RoundTrip.{build_value-content}
use libiqxmlrpc.ValueParser.Scalars.{at}
use libiqxmlrpc.ValueParser.Writable.{LexicalLaws, IsWritable, written, size}
use libiqxmlrpc.ValueParser.{Lexical, Defaults, build_value}
use libiqxmlrpc.Xml.{Node, element, end_element, Reader, open_reader, read, change, parse, round}
use libiqxmlrpc.XmlBuilder.Nodes.{value_tag, content, nodes_of-value_to_xml}
use libiqxmlrpc.XmlBuilder.{close, nodes_of, is_blank}

module _ (l : Lexical) (d : Defaults) where
  open l use {Double}

  -- The nodes around the value of a response.
  abbrev result_close : List Node
  result_close = end_element (codes "params") ∷ end_element (codes "methodResponse") ∷ []

  abbrev value_nodes : Value Double → List Node → List Node
  value_nodes v rest = element value_tag false ∷ content l false v (end_element value_tag ∷ rest)

  abbrev result_nodes : Value Double → List Node
  result_nodes v =
      element (codes "methodResponse") false
      ∷ element (codes "params") false
      ∷ element (codes "param") false
      ∷ value_nodes v (end_element (codes "param") ∷ result_close)

  abbrev fault_nodes : Value Double → List Node
  fault_nodes v =
      element (codes "methodResponse") false
      ∷ element (codes "fault") false
      ∷ value_nodes v (end_element (codes "fault") ∷ end_element (codes "methodResponse") ∷ [])

  nodes_of-result :
      (v : Value Double) → nodes_of [] (dump_response l false (result v)) ≡ result_nodes v
  unfolding nodes_of dump_response
  nodes_of-result v =
      ap
        (λ ns.
          element (codes "methodResponse") false
          ∷ element (codes "params") false
          ∷ element (codes "param") false
          ∷ ns)
        (nodes_of-value_to_xml l false v _ (close ∷ close ∷ close ∷ []))

  nodes_of-fault :
      (code : ℤ) (text : Bytes)
      → nodes_of [] (dump_response l false (fault code text))
        ≡ fault_nodes (struct (fault_struct code text))
  unfolding nodes_of dump_response
  nodes_of-fault code text =
      ap (λ ns. element (codes "methodResponse") false ∷ element (codes "fault") false ∷ ns)
        (nodes_of-value_to_xml l false (struct (fault_struct code text)) _ (close ∷ close ∷ []))

  abbrev value_at : Value Double → List Node → Reader
  value_at v rest =
      at false (element value_tag false) (content l false v (end_element value_tag ∷ rest))

  -- The rounds around the build of the value, which stops behind its element or in front of the end.
  parse_response-past :
      (k : ℕ) (v w : Value Double) (r : Reader)
      → build_value l d
          (suc (suc (suc (suc (suc (suc (suc (suc (suc k)))))))))
          true
          (value_at v (end_element (codes "param") ∷ result_close))
        ≡ ok (some w, r)
      → read r ≡ ok (at false (end_element (codes "param")) result_close)
      → parse_response l d
          (suc (suc (suc (suc (suc (suc (suc (suc (suc k)))))))))
          (result_nodes v)
          false
        ≡ ok (result w)
  unfolding parse_response parse round read response_methods response_visit change str_eq
      open_reader
  parse_response-past k v w r built after = rw (built, after)

  parse_response-before :
      (k : ℕ) (v w : Value Double) (r : Reader)
      → build_value l d
          (suc (suc (suc (suc (suc (suc (suc (suc (suc k)))))))))
          true
          (value_at v (end_element (codes "param") ∷ result_close))
        ≡ ok (some w, r)
      → read r ≡ ok (at false (end_element value_tag) (end_element (codes "param") ∷ result_close))
      → parse_response l d
          (suc (suc (suc (suc (suc (suc (suc (suc (suc k)))))))))
          (result_nodes v)
          false
        ≡ ok (result w)
  unfolding parse_response parse round read response_methods response_visit change str_eq
      open_reader
  parse_response-before k v w r built after = rw (built, after)

  parse_response-fault :
      (k : ℕ) (v w : Value Double) (code : ℤ) (text : Bytes) (r : Reader)
      → build_value l d
          (suc (suc (suc (suc (suc (suc (suc (suc (suc k)))))))))
          false
          (value_at v (end_element (codes "fault") ∷ end_element (codes "methodResponse") ∷ []))
        ≡ ok (some w, r)
      → read_fault (some w) ≡ ok (code, text)
      → read r
        ≡ ok (
            at false
              (end_element value_tag)
              (end_element (codes "fault") ∷ end_element (codes "methodResponse") ∷ []))
      → parse_response l d
          (suc (suc (suc (suc (suc (suc (suc (suc (suc k)))))))))
          (fault_nodes v)
          false
        ≡ ok (fault code text)
  unfolding parse_response parse round read response_methods response_visit change str_eq
      open_reader
  parse_response-fault k v w code text r built checked after = rw (built, checked, after)

  read_fault-fault_struct :
      (code : ℤ) (text : Bytes)
      → read_fault {D = Double} (some (written (struct (fault_struct code text)))) ≡ ok (code, text)
  unfolding read_fault struct_find struct_at struct_insert str_eq str_lt get_int get_string
  read_fault-fault_struct code text = refl

  -- The responses that survive being written and read.
  abbrev pub IsWritableResponse : Response Double → Type 0
  IsWritableResponse (result v) = IsWritable v
  IsWritableResponse (fault code text) = FitsInt 31 code × ((text ≡ []) ⊎ (is_blank text ≡ false))

  abbrev pub written_response : Response Double → Response Double
  written_response (result v) = result (written v)
  written_response (fault code text) = fault code text

  -- Fuel that is enough to read a response back.
  abbrev pub response_size : Response Double → ℕ
  response_size (result v) = size v + 9
  response_size (fault code text) = 40

  abbrev fault_value : ℤ → Bytes → Value Double
  fault_value code text = struct (fault_struct code text)

  fault_struct-IsWritable :
      (code : ℤ) (text : Bytes)
      → IsWritableResponse (fault code text)
      → IsWritable (fault_value code text)
  unfolding struct_insert str_lt str_eq is_blank
  fault_struct-IsWritable code text w = (((refl, tt), (tt, tt)), (refl, w.0, (refl, w.1, tt)))

  fault_size : (code : ℤ) (text : Bytes) (n : ℕ) → 40 ≤ n → size (fault_value code text) ≤ n
  unfolding struct_insert str_lt str_eq
  fault_size code text n h = omega arith

  -- A response whose value is writable (as for requests), or a fault with a code of 32 bits and a text that
  -- is empty or not blank, written by `dump_response` with the tags of strings and read by
  -- `parse_response`, is the same response, with the caches of its binary objects filled. `nodes` is
  -- what libxml2 reports for the document, and is supposed to be the nodes of what was written; the
  -- fuel is at least the size of the response.
  pub parse_response-dump_response :
      LexicalLaws l
      → (q : Response Double) (n : ℕ) (nodes : List Node) → IsWritableResponse q
      → response_size q ≤ n
      → nodes ≡ nodes_of [] (dump_response l false q)
      → parse_response l d n nodes false ≡ ok (written_response q)
  parse_response-dump_response laws (result v) n nodes w h hd =
      let (k, e) = at_least 9 n (omega arith) in
      let flat : BuildsFlat l d false laws n
          (value_at v (end_element (codes "param") ∷ result_close)) (written v)
          (end_element (codes "param")) result_close =
        build_value-flat l d false laws v n
          (value_at v (end_element (codes "param") ∷ result_close)) (end_element (codes "param"))
          result_close (omega arith) w (read-content l d false v _ _) in
      rw (hd, nodes_of-result v)
        (elim flat [
          | inl (r, built, after) ↦
              rw e (parse_response-past k v (written v) r (rw e at built) after)
          | inr (r, built, after) ↦
              rw e (parse_response-before k v (written v) r (rw e at built) after)
        ])
  parse_response-dump_response laws (fault code text) n nodes w h hd =
      let v : Value Double = struct (fault_struct code text) in
      let rest : List Node =
        end_element (codes "fault") ∷ end_element (codes "methodResponse") ∷ [] in
      let (k, e) = at_least 9 n (omega arith) in
      let (r, built, after) =
        build_value-content l d false laws v n (value_at v rest) (end_element value_tag) rest
          (fault_size code text n h) (fault_struct-IsWritable code text w)
          (read-content l d false v _ _) in
      rw (hd, nodes_of-fault code text, e)
        (parse_response-fault k v (written v) code text r (rw e at built)
          (read_fault-fault_struct code text) after)

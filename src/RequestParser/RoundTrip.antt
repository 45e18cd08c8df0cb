-- ===== src/RequestParser/RoundTrip.antt =====
-- Reading a written request gives the request back (libiqxmlrpc/request.cc, request_parser.cc).
use mathlib.Core.List.{append_assoc, append-nil}
use libiqxmlrpc.Prelude.Bytes.{Bytes, codes, str_eq}
use libiqxmlrpc.Prelude.{
  ℕ, zero, suc, ◌≤◌, ◌+◌, Bool, true, false, List, [], ◌∷◌, ◌++◌, Option, some, ok, ◌≡◌, inl, inr,
  refl, sym, ap, ◌∙◌, arith,
}
use libiqxmlrpc.RequestParser.{
  params_state, value_state, RequestState, RequestFields, Request, request_visit, request_methods,
  request_of, request_start, parse_request, params_to_xml, dump_request,
}
use libiqxmlrpc.Value.{Value}
use libiqxmlrpc.ValueParser.Flat.{BuildsFlat, build_value-flat}
use libiqxmlrpc.ValueParser.Leaves.{next, text_nodes-shown, at_least}
use libiqxmlrpc.ValueParser.Nested.{read-content, read_after_end, read_after_start}
use libiqxmlrpc.ValueParser.Scalars.{at}
use libiqxmlrpc.ValueParser.Writable.{LexicalLaws, IsWritable, written, size}
use libiqxmlrpc.ValueParser.{Lexical, Defaults, SubBuild, build_value}
use libiqxmlrpc.Xml.{
  Node, element, end_element, Reader, open_reader, read, Builder, change, parse, round, start,
}
use libiqxmlrpc.XmlBuilder.Nodes.{value_tag, value_nodes, content, nodes_of-type_to_xml}
use libiqxmlrpc.XmlBuilder.{Event, close, nodes_of, is_blank}
use libiqxmlrpc.RequestParser.Rounds.{
  params_close, request_nodes, inside, CanGoOn, parse-param_past, parse-param, parse-close,
  parse-open, start_params, can_go_on,
}

module _ (l : Lexical) (d : Defaults) where
  open l use {Double}

  abbrev params_nodes : List (Value Double) → List Node
  params_nodes [] = params_close
  params_nodes (v ∷ vs) =
      element (codes "param") false
      ∷ element value_tag false
      ∷ content l false v (end_element value_tag ∷ end_element (codes "param") ∷ params_nodes vs)

  abbrev pub AreWritableParams : List (Value Double) → Type 0
  AreWritableParams [] = Unit
  AreWritableParams (v ∷ vs) = IsWritable v × AreWritableParams vs

  -- The parameters as they are after they were written.
  abbrev pub written_params : List (Value Double) → List (Option (Value Double))
  written_params [] = []
  written_params (v ∷ vs) = some (written v) ∷ written_params vs

  -- Fuel that is enough to read parameters back.
  abbrev pub params_size : List (Value Double) → ℕ
  params_size [] = 3
  params_size (v ∷ vs) = size v + suc (suc (suc (suc (params_size vs))))

  read-params :
      (n : Node)
      (plain : (ns : List Node) (m : Node) → read (at false n (m ∷ ns)) ≡ ok (at false m ns))
      (vs : List (Value Double))
      → read (at false n (params_nodes vs)) ≡ next false (params_nodes vs)
  read-params n plain [] = plain _ _
  read-params n plain (v ∷ vs) = plain _ _

  module _ (laws : LexicalLaws l) (fuel : ℕ) where
    abbrev sub : SubBuild (Option (Value Double))
    sub = build_value l d fuel true

    parse-params :
        (vs : List (Value Double)) (k spare : ℕ) (st : RequestState) (name : Bytes)
        (ps : List (Option (Value Double))) (r : Reader)
        → params_size vs ≤ k
        → params_size vs ≤ fuel
        → AreWritableParams vs
        → CanGoOn sub st
        → read r ≡ next false (params_nodes vs)
        → (b : Builder (RequestFields Double)) × (r' : Reader) × (parse
              (request_methods sub)
              k
              (inside sub spare st name ps)
              r
            ≡ ok (b, r'))
          × (b.derived.name ≡ some name)
          × (b.derived.params ≡ ps ++ written_params vs)
    parse-params [] k spare st name ps r hk hf w hc hr =
        let (j, e) = at_least 3 k hk in
        let (b, r', parsed, fields) = parse-close sub j spare st name ps r hr in
        rw e
          (b, r', parsed, ap (λ f. f.name) fields, ap (λ f. f.params) fields ∙ sym (append-nil ps))
    parse-params (v ∷ vs) k spare st name ps r hk hf w hc hr =
        let (j, e) = at_least 4 k (omega arith) in
        let rest : List Node = params_nodes vs in
        let inner : List Node =
          content l false v (end_element value_tag ∷ end_element (codes "param") ∷ rest) in
        let flat : BuildsFlat l d false laws fuel (at false (element value_tag false) inner)
            (written v) (end_element (codes "param")) rest =
          build_value-flat l d false laws v fuel (at false (element value_tag false) inner)
            (end_element (codes "param")) rest (omega arith) w.0 (read-content l d false v _ _) in
        let ps' : List (Option (Value Double)) = ps ++ some (written v) ∷ [] in
        elim flat [
          | inl (r1, built, after) ↦
              let (b, r', parsed, named, collected) =
                parse-params vs (suc j) (suc spare) value_state name ps'
                  (at false (end_element (codes "param")) rest) (omega arith) (omega arith) w.1
                  can_go_on (read-params _ (read_after_end l d false (codes "param")) vs) in
              rw e (
                b,
                r',
                parse-param_past sub (suc j) spare st name ps _ r r1 inner rest hc hr built after
                    ∙ parsed,
                named,
                collected ∙ append_assoc ps (some (written v) ∷ []) (written_params vs),
              )
          | inr (r1, built, after) ↦
              let (b, r', parsed, named, collected) =
                parse-params vs j spare value_state name ps'
                  (at false (end_element (codes "param")) rest) (omega arith) (omega arith) w.1
                  can_go_on (read-params _ (read_after_end l d false (codes "param")) vs) in
              rw e (
                b,
                r',
                parse-param sub j spare st name ps _ r r1 inner rest hc hr built after ∙ parsed,
                named,
                collected ∙ append_assoc ps (some (written v) ∷ []) (written_params vs),
              )
        ]

  abbrev in_params : List (Bytes × Bool)
  in_params = (codes "params", false) ∷ (codes "methodCall", false) ∷ []

  nodes_of-params_to_xml :
      (vs : List (Value Double))
      → nodes_of in_params (params_to_xml l vs (close ∷ close ∷ [])) ≡ params_nodes vs
  unfolding nodes_of params_to_xml
  nodes_of-params_to_xml [] = refl
  nodes_of-params_to_xml (v ∷ vs) =
      let opened : List (Bytes × Bool) = (codes "param", false) ∷ in_params in
      let es : List Event = close ∷ params_to_xml l vs (close ∷ close ∷ []) in
      ap (◌∷◌ (element (codes "param") false)) (
        value_nodes l false v opened es
          (nodes_of-type_to_xml l false v ((value_tag, false) ∷ opened) (close ∷ es))
          (ap (◌∷◌ (end_element (codes "param"))) (nodes_of-params_to_xml vs)))

  -- The nodes of a whole request with parameters, and of one without.
  nodes_of-dump_request :
      (name : Bytes) (v : Value Double) (vs : List (Value Double))
      → nodes_of [] (dump_request l name (v ∷ vs)) ≡ request_nodes name (params_nodes (v ∷ vs))
  unfolding nodes_of dump_request params_to_xml
  nodes_of-dump_request name v vs = ap (request_nodes name) (nodes_of-params_to_xml (v ∷ vs))

  -- The request that a reader should get.
  abbrev pub request_with : Bytes → List (Value Double) → Request Double
  request_with name vs = record { name = name; params = written_params vs }

  parse_request-empty :
      (name : Bytes) (k : ℕ)
      → is_blank name ≡ false
      → parse_request l d
          (suc (suc (suc (suc (suc (suc (suc k)))))))
          (nodes_of [] (dump_request l name []))
          false
        ≡ ok (request_with name [])
  unfolding nodes_of dump_request params_to_xml parse_request parse round read request_methods
      request_visit change str_eq open_reader request_of
  parse_request-empty name k h = rw (
      text_nodes-shown name
        (end_element (codes "methodName")
          ∷ element (codes "params") true
          ∷ end_element (codes "methodCall")
          ∷ [])
        h)

  parse_request-parse :
      (n : ℕ) (nodes : List Node) (b : Builder (RequestFields Double)) (r : Reader)
      (q : Request Double)
      → parse
          (request_methods (build_value l d n true))
          n
          (start false (request_start l))
          (open_reader nodes false)
        ≡ ok (b, r)
      → b.derived.name ≡ some q.name
      → b.derived.params ≡ q.params
      → parse_request l d n nodes false ≡ ok q
  unfolding parse_request request_of
  parse_request-parse n nodes b r q h hn hp = rw (h, hn, hp)

  -- A request whose name is not blank and whose values are writable (no nil, no text or name of
  -- blanks only, no empty name, numbers and dates in their ranges), written by
  -- `dump_request` and read by `parse_request`, is the same request, with the caches of its binary
  -- objects filled. `nodes` is what libxml2 reports for the document, and is supposed to be the
  -- nodes of what was written; the fuel is at least four more than the size of the parameters.
  pub parse_request-dump_request :
      LexicalLaws l
      → (name : Bytes) (vs : List (Value Double)) (n : ℕ) (nodes : List Node)
      → is_blank name ≡ false
      → AreWritableParams vs
      → params_size vs + 4 ≤ n
      → nodes ≡ nodes_of [] (dump_request l name vs)
      → parse_request l d n nodes false ≡ ok (request_with name vs)
  parse_request-dump_request laws name [] n nodes hb w hn hd =
      let (k, e) = at_least 7 n hn in rw (hd, e) (parse_request-empty name k hb)
  parse_request-dump_request laws name (v ∷ vs) n nodes hb w hn hd =
      let (k, e) = at_least 4 n (omega arith) in
      let (b, r, parsed, named, collected) =
        parse-params laws n (v ∷ vs) k zero params_state name []
          (at false (element (codes "params") false) (params_nodes (v ∷ vs))) (omega arith)
          (omega arith) w start_params
          (read-params _ (read_after_start l d false (codes "params")) (v ∷ vs)) in
      rw (hd, nodes_of-dump_request name v vs)
        (parse_request-parse n _ b r (request_with name (v ∷ vs))
          (ap
              (λ m.
                parse (request_methods (build_value l d n true)) m (start false (request_start l))
                  (open_reader (request_nodes name (params_nodes (v ∷ vs))) false))
              e
            ∙ parse-open (build_value l d n true) k name (params_nodes (v ∷ vs)) hb
            ∙ parsed)
          named collected)

-- ===== src/RequestParser/Rounds.antt =====
-- The rounds of the loop over a request (libiqxmlrpc/request_parser.cc, parser2.cc): its beginning,
-- one parameter, and its end.
use libiqxmlrpc.Prelude.Bytes.{Bytes, codes, str_eq}
use libiqxmlrpc.Prelude.{
  ℕ, zero, suc, ◌-◌, ◌==◌, ◌+◌, false, List, [], ◌∷◌, ◌++◌, Option, none, some, ok, ◌≡◌, refl,
  arith,
}
use libiqxmlrpc.RequestParser.{
  params_state, value_state, param_state, RequestState, RequestFields, request_index, request_trans,
  request_visit, request_methods,
}
use libiqxmlrpc.Value.{Value}
use libiqxmlrpc.ValueParser.Leaves.{next, text_nodes-shown}
use libiqxmlrpc.ValueParser.Scalars.{at}
use libiqxmlrpc.ValueParser.{SubBuild}
use libiqxmlrpc.Xml.{
  Node, element, end_element, Reader, open_reader, read, Builder, change, parse, round, start,
}
use libiqxmlrpc.XmlBuilder.{is_blank, text_nodes}

abbrev pub params_close : List Node
params_close = end_element (codes "params") ∷ end_element (codes "methodCall") ∷ []

-- Two tags in, one out.
two_in : (n : ℕ) → n + 1 + 1 ≡ suc (suc n)
two_in n = omega arith

one_out : (n : ℕ) → suc n - 1 ≡ n
one_out n = omega arith

not_out : (n : ℕ) → (suc n == 0) ≡ false
not_out n = ground arith

-- The nodes up to the first parameter, in front of `ns`.
abbrev pub request_nodes : Bytes → List Node → List Node
request_nodes name ns =
    element (codes "methodCall") false
    ∷ element (codes "methodName") false
    ∷ text_nodes name (end_element (codes "methodName") ∷ element (codes "params") false ∷ ns)

module _ {D : Type 0} (sub : SubBuild (Option (Value D))) where
  -- The builder inside the `params` element; `spare` is by how much the values that took their own
  -- end tag have let its depth grow.
  abbrev pub inside : ℕ → RequestState → Bytes → List (Option (Value D)) → Builder (RequestFields D)
  inside spare st name ps = record {
    depth = suc (suc spare);
    wants_exit = false;
    derived = record { state = st; name = some name; params = ps };
  }

  abbrev pub CanGoOn : RequestState → Type 0
  CanGoOn st = change request_index request_trans st (codes "param") ≡ ok param_state

  -- One parameter, whose build stops behind its value's element.
  pub parse-param_past :
      (k spare : ℕ) (st : RequestState) (name : Bytes) (ps : List (Option (Value D)))
      (v : Option (Value D)) (r r1 : Reader) (inner rest : List Node)
      → CanGoOn st
      → read r
        ≡ ok (at false (element (codes "param") false) (element (codes "value") false ∷ inner))
      → sub (at false (element (codes "value") false) inner) ≡ ok (v, r1)
      → read r1 ≡ ok (at false (end_element (codes "param")) rest)
      → parse (request_methods sub) (suc (suc (suc k))) (inside spare st name ps) r
        ≡ parse
            (request_methods sub)
            k
            (inside (suc spare) value_state name (ps ++ v ∷ []))
            (at false (end_element (codes "param")) rest)
  unfolding parse round read request_methods request_visit change str_eq
  parse-param_past k spare st name ps v r r1 inner rest hc hr hs he = rw (
    hr,
    hc,
    hs,
    he,
    two_in (suc (suc spare)),
    not_out (suc (suc (suc spare))),
    one_out (suc (suc (suc spare))),
    not_out (suc (suc spare)),
  )

  -- One parameter, whose build stops in front of the end of its value's element.
  pub parse-param :
      (k spare : ℕ) (st : RequestState) (name : Bytes) (ps : List (Option (Value D)))
      (v : Option (Value D)) (r r1 : Reader) (inner rest : List Node)
      → CanGoOn st
      → read r
        ≡ ok (at false (element (codes "param") false) (element (codes "value") false ∷ inner))
      → sub (at false (element (codes "value") false) inner) ≡ ok (v, r1)
      → read r1 ≡ ok (at false (end_element (codes "value")) (end_element (codes "param") ∷ rest))
      → parse (request_methods sub) (suc (suc (suc (suc k)))) (inside spare st name ps) r
        ≡ parse
            (request_methods sub)
            k
            (inside spare value_state name (ps ++ v ∷ []))
            (at false (end_element (codes "param")) rest)
  unfolding parse round read request_methods request_visit change str_eq
  parse-param k spare st name ps v r r1 inner rest hc hr hs he = rw (
    hr,
    hc,
    hs,
    he,
    two_in (suc (suc spare)),
    not_out (suc (suc (suc spare))),
    one_out (suc (suc (suc spare))),
    not_out (suc (suc spare)),
    not_out (suc (suc spare)),
    one_out (suc (suc spare)),
    not_out (suc spare),
  )

  -- The end of the document, at any depth.
  pub parse-close :
      (k spare : ℕ) (st : RequestState) (name : Bytes) (ps : List (Option (Value D))) (r : Reader)
      → read r ≡ next false params_close
      → (b : Builder (RequestFields D)) × (r' : Reader) × (parse
            (request_methods sub)
            (suc (suc (suc k)))
            (inside spare st name ps)
            r
          ≡ ok (b, r'))
        × (b.derived ≡ record { state = st; name = some name; params = ps })
  unfolding parse round read request_methods request_visit change str_eq
  parse-close k zero st name ps r hr = rw hr (_, _, refl, refl)
  parse-close k (suc spare) st name ps r hr =
      rw
        (
          hr,
          not_out (suc (suc spare)),
          one_out (suc (suc spare)),
          not_out (suc spare),
          not_out (suc spare),
          one_out (suc spare),
          not_out spare,
        )
        (_, _, refl, refl)

  -- From the start of the document to the inside of `params`.
  pub parse-open :
      (k : ℕ) (name : Bytes) (ns : List Node)
      → is_blank name ≡ false
      → parse
          (request_methods sub)
          (suc (suc (suc (suc k))))
          (start false (record { state = RequestState.request_none; name = none; params = [] }))
          (open_reader (request_nodes name ns) false)
        ≡ parse
            (request_methods sub)
            k
            (inside zero params_state name [])
            (at false (element (codes "params") false) ns)
  unfolding parse round read request_methods request_visit change str_eq open_reader
  parse-open k name ns h = rw (
      text_nodes-shown name (end_element (codes "methodName") ∷ element (codes "params") false ∷ ns)
        h)

pub start_params : change request_index request_trans params_state (codes "param") ≡ ok param_state
unfolding change str_eq
start_params = refl

pub can_go_on : change request_index request_trans value_state (codes "param") ≡ ok param_state
unfolding change str_eq
can_go_on = refl

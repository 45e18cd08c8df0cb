-- ===== src/Xml.antt =====
-- The pull parser (libiqxmlrpc/parser2.cc, parser2.h): `Parser::Impl` over the libxml2 text reader,
-- `BuilderBase` with its virtual methods, `Parser::parse` and `StateMachine`. The reader itself is
-- libxml2's; here it is the list of nodes that it moves to, and whether it then reports an error.
-- The texts of the exceptions, which name a place in the document, are left out.
use libiqxmlrpc.Prelude.Bytes.{Bytes, str_eq}
use libiqxmlrpc.Prelude.{
  ℕ, zero, suc, ◌+◌, ◌-◌, Bool, true, false, not, ◌&&◌, List, [], ◌∷◌, Result, ok, err, ◌>>=◌, ◌==◌,
  if◌then◌else◌,
}

-- What `xmlTextReaderRead` moves to: the start of an element, with its name and whether it is
-- written as an empty element, the end of one, a text, or any other node (white space, a comment).
pub data Node : Type 0 where
  element : Bytes → Bool → Node
  end_element : Bytes → Node
  text : Bytes → Node
  other : Node

-- The exceptions of a parse: `Parse_error`, `XML_RPC_violation`, `boost::bad_lexical_cast`,
-- `Malformed_base64`, `Malformed_iso8601`, `Value::Bad_cast`. The model's own are `null_pointer`, where
-- the source uses one, and `out_of_fuel`.
pub data XmlError : Type 0 where
  parse_error xml_rpc_violation bad_lexical_cast malformed_base64 malformed_iso8601 : XmlError
  bad_cast null_pointer out_of_fuel : XmlError

pub record ParseStep : Type 0 where
  pub done : Bool
  pub element_begin : Bool
  pub element_end : Bool
  pub is_empty : Bool
  pub is_text : Bool

-- `Parser::Impl`. `rest` and `broken` are what libxml2 has still to report, `node` is its current
-- node.
pub record Reader : Type 0 where
  pub rest : List Node
  pub broken : Bool
  pub node : Node
  pub curr : ParseStep
  pub pushed_back : Bool

-- The constructors of `ParseStep`. The flags that the first leaves out are not read before they are
-- set.
abbrev pub fresh_step : ParseStep
fresh_step = record {
  done = false;
  element_begin = false;
  element_end = false;
  is_empty = false;
  is_text = false;
}

abbrev pub step_at : Node → ParseStep
step_at (element name empty) = record fresh_step { element_begin = true; is_empty = empty }
step_at (end_element name) = record fresh_step { element_end = true }
step_at (text s) = record fresh_step { is_text = true }
step_at other = fresh_step

-- `Parser( const std::string& )`, for a document with these nodes
unfoldable pub open_reader : List Node → Bool → Reader
open_reader nodes broken = record {
  rest = nodes;
  broken = broken;
  node = other;
  curr = fresh_step;
  pushed_back = false;
}

-- The call of `xmlTextReaderRead` and what follows it.
advance : List Node → Reader → Result XmlError Reader
advance [] r =
    if r.broken then err parse_error else ok (record r { curr = record r.curr { done = true } })
advance (n ∷ rest) r = ok (record r { rest = rest; node = n; curr = step_at n })

-- `Impl::read`; its result is the `curr` of the new state.
unfoldable pub read : Reader → Result XmlError Reader
unfolding advance
read r =
    if r.pushed_back
    then ok (record r { pushed_back = false })
    else if r.curr.is_empty
    then ok (record r {
      curr = record r.curr { element_begin = false; element_end = true; is_empty = false };
    })
    else advance r.rest r

-- `rv.find_first_of(":")` and `rv.erase(0, pos+1)`: the name after the first colon, if there is one.
after_colon : Bytes → Bytes → Bytes
after_colon whole [] = whole
after_colon whole (c ∷ s) = if c == b':' then s else after_colon whole s

unfoldable pub local_name : Bytes → Bytes
unfolding after_colon
local_name s = after_colon s s

-- `Impl::tag_name`
unfoldable pub tag_name : Node → Bytes
unfolding local_name
tag_name (element name _) = local_name name
tag_name (end_element name) = local_name name
tag_name (text _) = local_name (b'#' ∷ b't' ∷ b'e' ∷ b'x' ∷ b't' ∷ [])
tag_name other = []

-- `xmlTextReaderValue` of a node that is a text or a tag
abbrev pub node_value : Node → Bytes
node_value (text s) = s
node_value _ = []

-- The second test of `read_data`, on the step that was read.
text_or_end : Reader → Result XmlError (Bytes × Reader)
text_or_end r =
    if not r.curr.is_text && not r.curr.element_end
    then err xml_rpc_violation
    else ok (node_value r.node, r)

-- `Impl::read_data`: the text, and the state that it leaves.
unfoldable pub read_data : Reader → Result XmlError (Bytes × Reader)
unfolding read text_or_end
read_data r =
    if not r.curr.is_text && not r.curr.element_end
    then (read r >>= text_or_end)
    else ok (node_value r.node, r)

-- The fields of `BuilderBase` that change, with those of the class derived from it.
pub record Builder (S : Type 0) : Type 0 where
  pub depth : ℕ
  pub wants_exit : Bool
  pub derived : S

-- The virtual methods, and `expect_text_`. The method for the start of an element may read on.
pub record Methods (S : Type 0) : Type 0 where
  pub expects_text : Bool
  pub visit_element : Bytes → Builder S → Reader → Result XmlError (Builder S × Reader)
  pub visit_element_end : Bytes → Builder S → Result XmlError (Builder S)
  pub visit_text : Bytes → Builder S → Result XmlError (Builder S)

-- How a round of the loop in `Parser::parse` ends.
pub data Round (S : Type 0) : Type 0 where
  stop : Builder S → Reader → Round S
  more : Builder S → Reader → Round S

module _ {S : Type 0} where
  -- `if (builder.wants_exit()) break;`
  abbrev pub next_round : Builder S × Reader → Round S
  next_round (b, r) = if b.wants_exit then stop b r else more b r

  -- `BuilderBase::visit_element`
  abbrev pub enter : Methods S → Bytes → Builder S → Reader → Result XmlError (Builder S × Reader)
  enter m tag b r = m.visit_element tag (record b { depth = b.depth + 1 }) r

  -- `BuilderBase::visit_element_end`, called at a depth that is not 0
  abbrev pub leave : Methods S → Bytes → Builder S → Result XmlError (Builder S)
  leave m tag b = do
    b' ← m.visit_element_end tag (record b { depth = b.depth - 1 })
    ok (if b'.depth == 0 then record b' { wants_exit = true } else b')

  -- One round, at the step that `read` returned.
  unfoldable pub round : Methods S → Builder S → Reader → Result XmlError (Round S)
  unfolding tag_name read_data
  round m b r =
      if r.curr.done
      then ok (stop b r)
      else if r.curr.element_begin
      then (do res ← enter m (tag_name r.node) b r; ok (next_round res))
      else if r.curr.element_end
      then (if b.depth == 0
          then ok (stop b (record r { pushed_back = true }))
          else (do b' ← leave m (tag_name r.node) b; ok (next_round (b', r))))
      else if r.curr.is_text && m.expects_text
      then (do (s, r') ← read_data r; b' ← m.visit_text s b; ok (next_round (b', r')))
      else ok (next_round (b, r))

  -- `Parser::parse`. Every round reads; the fuel bounds their number.
  unfoldable pub parse : Methods S → ℕ → Builder S → Reader → Result XmlError (Builder S × Reader)
  parse m zero b r = err out_of_fuel
  parse m (suc fuel) b r = do
    r' ← read r
    res ← round m b r'
    elim res [ stop b' s ↦ ok (b', s) | more b' s ↦ parse m fuel b' s ]

  -- The constructor and `BuilderBase::build`.
  abbrev pub start : Bool → S → Builder S
  start flat s = record { depth = if flat then 1 else 0; wants_exit = false; derived = s }

-- `StateMachine::change`. The states of a machine are numbered.
module _ {State : Type 0} (index : State → ℕ) where
  unfoldable pub change : List (State × State × Bytes) → State → Bytes → Result XmlError State
  change [] curr tag = err xml_rpc_violation
  change ((prev, new, t) ∷ trans) curr tag =
      if str_eq t tag && index prev == index curr then ok new else change trans curr tag

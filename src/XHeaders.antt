-- ===== src/XHeaders.antt =====
-- `XHeaders` (libiqxmlrpc/xheaders.cc, xheaders.h): the headers of a request whose names begin with `X-`.
pub mod Names
use libiqxmlrpc.Http.Headers.{Header}
use libiqxmlrpc.Http.Texts.{Texts}
use libiqxmlrpc.Prelude.Bytes.{Bytes, codes}
use libiqxmlrpc.Prelude.Maps.{Map, find, insert, contains}
use libiqxmlrpc.Prelude.{
  Bool, true, false, ◌||◌, List, [], ◌∷◌, Option, none, some, Result, ok, err, length, ℕ,
  if◌then◌else◌,
}

-- The object is its map.
abbrev pub XHeaders : Type 0
XHeaders = Map Bytes

-- `Error_xheader`
pub data XHeaderError : Type 0 where
  error_xheader : XHeaderError

module _ (t : Texts) where
  unfoldable pub validate : Bytes → Bool
  validate val = t.starts_with val (codes "X-") || t.starts_with val (codes "x-")

  -- The loop of `operator=`.
  unfoldable pub assign_all : Map Bytes → XHeaders → XHeaders
  assign_all [] x = x
  assign_all ((k, v) ∷ m) x = assign_all m (if validate k then insert (t.to_lower k) v x else x)

  -- `operator=`
  unfoldable pub assign : Map Bytes → XHeaders
  assign m = assign_all m []

  -- `operator[]`, which makes an empty value where there is none: the value and the object after it.
  abbrev value_or_empty : Option Bytes → Bytes
  value_or_empty (some v) = v
  value_or_empty none = []

  unfoldable pub at_key : Bytes → XHeaders → Result XHeaderError (Bytes × XHeaders)
  at_key v x =
      let key : Bytes = t.to_lower v in
      let value : Bytes = value_or_empty (find key x) in
      if validate v
      then ok (value, if contains key x then x else insert key value x)
      else err error_xheader

  -- `operator[]`, with an assignment to what it gives.
  unfoldable pub set_key : Bytes → Bytes → XHeaders → Result XHeaderError XHeaders
  set_key v value x = if validate v then ok (insert (t.to_lower v) value x) else err error_xheader

  -- `find`, by the value of the entry
  unfoldable pub find_key : Bytes → XHeaders → Option Bytes
  find_key k x = find (t.to_lower k) x

  -- `Header::get_xheaders`
  unfoldable pub get_xheaders : Header → XHeaders
  get_xheaders h = assign h.options

abbrev pub size : XHeaders → ℕ
size x = length x

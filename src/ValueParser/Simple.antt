-- ===== src/ValueParser/Simple.antt =====
-- Reading back the values that hold no others (libiqxmlrpc/value_parser.cc, value_type_xml.cc).
use mathlib.Core.Path.{subst}
use libiqxmlrpc.DateTime.Checks.{of_string-IsTm}
use libiqxmlrpc.Base64.RoundTrip.{IsByte, encode-cons, from_base64-get_base64}
use libiqxmlrpc.Base64.{BinaryData, get_base64, from_base64, from_data, decode, encode, is_space}
use libiqxmlrpc.DateTime.RoundTrip.{IsTm, of_string-to_string}
use libiqxmlrpc.DateTime.{Tm, of_string}
use libiqxmlrpc.Prelude.Bytes.{Bytes, codes, str_eq}
use libiqxmlrpc.Prelude.Int.{ℤ, FitsInt}
use libiqxmlrpc.Prelude.{
  ℕ, zero, suc, ◌≤◌, Bool, true, false, List, [], ◌∷◌, some, ok, ◌≡◌, refl, sym, ◌⊎◌, inl, inr,
  arith, All, get_or,
}
use libiqxmlrpc.Value.{Value, int, int64, bool, double, string, binary, datetime}
use libiqxmlrpc.ValueParser.Leaves.{next, build-shown, build-empty}
use libiqxmlrpc.ValueParser.Scalars.{Builds, behind}
use libiqxmlrpc.ValueParser.Writable.{LexicalLaws, IsBinary}
use libiqxmlrpc.ValueParser.{
  Lexical, Defaults, string_state, int_state, int64_state, bool_state, double_state, binary_state,
  time_state, value_methods, build_value,
}
use libiqxmlrpc.Xml.{Node, Reader, read, tag_name, change}
use libiqxmlrpc.XmlBuilder.Nodes.{content}
use libiqxmlrpc.XmlBuilder.{is_blank, date_text}

is_blank_of_letter : (s : Bytes) (i : ℕ) → get_or s i 0 ≡ b'T' → is_blank s ≡ false
unfolding is_blank
is_blank_of_letter [] i h = absurd (omega arith)
is_blank_of_letter (c ∷ s) zero h = ground arith
is_blank_of_letter (c ∷ s) (suc i) h = ground (arith, is_blank_of_letter s i h)

date_text-shown :
    (t : Tm) → IsTm t → (is_blank (date_text t) ≡ false) × (of_string (date_text t) ≡ ok t)
date_text-shown t v =
    let (s, e, h) = of_string-to_string t v in
    rw e (is_blank_of_letter s 8 (of_string-IsTm s t h).1, h)

encode-shown : (x : ℕ) (b : Bytes) → is_blank (encode (x ∷ b)) ≡ false
unfolding is_blank is_space
encode-shown x b = let (c, s, e, h) = encode-cons x b in rw e (ground arith)

-- The base64 text that is written is empty or not blank, and gives the object back.
abbrev GivesBack : BinaryData → Type 0
GivesBack b =
    (b.base64 ≡ []) × (b ≡ from_data [])
    ⊎ (is_blank b.base64 ≡ false) × (from_base64 b.base64 ≡ ok b)

get_base64-raw : (bytes : Bytes) → All IsByte bytes → GivesBack (get_base64 (from_data bytes))
get_base64-raw [] h = inl (unfold get_base64 from_data in (refl, refl))
get_base64-raw (x ∷ bytes) h =
    inr
      (unfold get_base64 from_data in (encode-shown x bytes, from_base64-get_base64 (x ∷ bytes) h))

get_base64-read :
    (bytes base64 : Bytes)
    → decode base64 ≡ ok bytes
    → is_blank base64 ≡ false
    → GivesBack (get_base64 (record { bytes = bytes; base64 = base64 }))
unfolding is_blank get_base64 from_base64
get_base64-read bytes [] e h = cc
get_base64-read bytes (c ∷ s) e h = inr (h, rw e)

get_base64-GivesBack : (b : BinaryData) → IsBinary b → GivesBack (get_base64 b)
get_base64-GivesBack b (inl (bytes, e)) =
    subst (λ t. GivesBack (get_base64 (record { bytes = b.bytes; base64 = t }))) (sym e)
      (unfold from_data in get_base64-raw b.bytes bytes)
get_base64-GivesBack b (inr (e, h)) = get_base64-read b.bytes b.base64 e h

module _ (l : Lexical) (d : Defaults) (br : Bool) (laws : LexicalLaws l) where
  open l use {Double}

  -- Where the content of a value is next, the builder gives the value and stops behind it; a flat
  -- build stops behind the end of the `value` element.
  abbrev pub ReadsBack : Value Double → Value Double → Type 0
  ReadsBack v w =
      (flat : Bool) (n : ℕ) (r : Reader) (m : Node) (ns : List Node)
      → 5 ≤ n
      → read r ≡ next br (content l false v (behind flat m ns))
      → Builds (build_value l d n flat r) (some w) br m ns

  pub build-bool : (b : Bool) → ReadsBack (bool b) (bool b)
  unfolding content value_methods change str_eq tag_name is_blank
  build-bool true flat n r m ns h hr =
      build-shown l d (codes "boolean") bool_state br m ns refl refl (λ x y b r. refl) flat
        (codes "1") _ n r h refl refl (rw laws.one_law) hr
  build-bool false flat n r m ns h hr =
      build-shown l d (codes "boolean") bool_state br m ns refl refl (λ x y b r. refl) flat
        (codes "0") _ n r h refl refl (rw laws.zero_law) hr

  pub build-string : (s : Bytes) → (s ≡ []) ⊎ (is_blank s ≡ false) → ReadsBack (string s) (string s)
  unfolding content value_methods change str_eq tag_name
  build-string s (inl e) flat n r m ns h hr = rw e (
      build-empty l d (codes "string") string_state br m ns refl refl (λ x y b r. refl) flat
        (string []) n r h refl (rw e at hr))
  build-string s (inr e) flat n r m ns h hr =
      build-shown l d (codes "string") string_state br m ns refl refl (λ x y b r. refl) flat s
        (string s) n r h e refl refl hr

  pub build-int : (i : ℤ) → FitsInt 31 i → ReadsBack (int i) (int i)
  unfolding content value_methods change str_eq tag_name
  build-int i w flat n r m ns h hr =
      build-shown l d (codes "i4") int_state br m ns refl refl (λ x y b r. refl) flat (l.of_int i)
        (int i) n r h (laws.int_shown i) refl (rw (laws.int_law i w)) hr

  pub build-int64 : (i : ℤ) → FitsInt 63 i → ReadsBack (int64 i) (int64 i)
  unfolding content value_methods change str_eq tag_name
  build-int64 i w flat n r m ns h hr =
      build-shown l d (codes "i8") int64_state br m ns refl refl (λ x y b r. refl) flat
        (l.of_int64 i) (int64 i) n r h (laws.int64_shown i) refl (rw (laws.int64_law i w)) hr

  pub build-double : (x : Double) → ReadsBack (double x) (double x)
  unfolding content value_methods change str_eq tag_name
  build-double x flat n r m ns h hr =
      build-shown l d (codes "double") double_state br m ns refl refl (λ x y b r. refl) flat
        (l.of_double x) (double x) n r h (laws.double_shown x) refl (rw (laws.double_law x)) hr

  pub build-datetime : (t : Tm) → IsTm t → ReadsBack (datetime t) (datetime t)
  unfolding content value_methods change str_eq tag_name
  build-datetime t v flat n r m ns h hr =
      let (shown, reads) = date_text-shown t v in
      build-shown l d (codes "dateTime.iso8601") time_state br m ns refl refl (λ x y b r. refl) flat
        (date_text t) (datetime t) n r h shown refl (rw reads) hr

  pub build-binary : (b : BinaryData) → IsBinary b → ReadsBack (binary b) (binary (get_base64 b))
  unfolding content value_methods change str_eq tag_name
  build-binary b v flat n r m ns h hr = elim (get_base64-GivesBack b v) [
    | inl (none_left, e) ↦
        build-empty l d (codes "base64") binary_state br m ns refl refl (λ x y b r. refl) flat
          (binary (get_base64 b)) n r h (rw e) (rw none_left at hr)
    | inr (shown, reads) ↦
        build-shown l d (codes "base64") binary_state br m ns refl refl (λ x y b r. refl) flat
          (get_base64 b).base64 (binary (get_base64 b)) n r h shown refl (rw reads) hr
  ]

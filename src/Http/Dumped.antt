-- ===== src/Http/Dumped.antt =====
-- A header that is written and read back (`Header::dump` and `Header::parse` of libiqxmlrpc/http.cc).
use libiqxmlrpc.Http.Headers.{
  Kind, request, response, Level, Header, crlf, set_option, set_xheaders, validators,
  run_validators, set_option_checked, parse_option, parse_options, parse_header, dump_head,
  dump_options, dump_header,
}
use libiqxmlrpc.Base64.{is_space}
use libiqxmlrpc.Http.Texts.{Texts, TextsLaws, is_crlf, words, first_of, trimmed, trim_left, lower}
use libiqxmlrpc.Prelude.Bytes.{Bytes, codes}
use libiqxmlrpc.Prelude.Maps.{Map}
use libiqxmlrpc.Prelude.{
  ℕ, true, false, [], ◌∷◌, ◌++◌, map, some, ok, ◌==◌, ◌≡◌, ◌≢◌, refl, sym, ap, ◌∙◌, All,
}
use mathlib.Core.List.{append_assoc, append-nil}

-- A character that ends no line, and one that is not the colon either.
abbrev pub IsInLine : ℕ → Type 0
IsInLine c = is_crlf c ≡ false

abbrev pub IsInName : ℕ → Type 0
IsInName c = (is_crlf c ≡ false) × ((58 == c) ≡ false)

-- The options as the lines behind the first one, each with the end of the line in front of it.
abbrev pub lines_of : Map Bytes → Bytes
lines_of [] = []
lines_of ((k, v) ∷ m) = 13 ∷ 10 ∷ (k ++ 58 ∷ 32 ∷ (v ++ lines_of m))

abbrev option_line : Bytes × Bytes → Bytes
option_line (k, v) = k ++ 58 ∷ 32 ∷ v

abbrev pub line_of : Texts → Kind → Bytes
line_of t (request uri) = codes "POST " ++ uri ++ codes " HTTP/1.0"
line_of t (response code phrase) = codes "HTTP/1.1 " ++ t.of_int code ++ codes " " ++ phrase

words-line : (line : Bytes) → All IsInLine line → words is_crlf true false line ≡ line ∷ []
unfolding words
words-line [] h = refl
words-line (c ∷ s) (h, hs) = rw (h, words-line s hs) refl

words-lines :
    (line s : Bytes) (d : ℕ)
    → All IsInLine line
    → IsInLine d
    → words is_crlf true false (line ++ 13 ∷ 10 ∷ d ∷ s) ≡ line ∷ words is_crlf true false (d ∷ s)
unfolding words
words-lines [] s d h q = rw q refl
words-lines (c ∷ line) s d (h, hs) q = rw (h, words-lines line s d hs q) refl

first_of-name : (k s : Bytes) → All IsInName k → first_of (58 ∷ []) (k ++ 58 ∷ s) ≡ some (k, s)
unfolding first_of
first_of-name [] s h = refl
first_of-name (c ∷ k) s (h, hs) = rw (h.1, first_of-name k s hs) refl

-- An option whose name and value are texts without blanks around them and without the end of a line, the
-- name being in small letters, without a colon and not empty, and whose value is valid at the level.
abbrev pub IsClean : Texts → Level → Bytes × Bytes → Type 0
IsClean t level (k, v) =
    All IsInName k
    × (k ≢ [])
    × (trimmed k ≡ k)
    × (map lower k ≡ k)
    × All IsInLine v
    × (trimmed v ≡ v)
    × (run_validators t (validators t) level k v ≡ ok tt)

InName-InLine : (k : Bytes) → All IsInName k → All IsInLine k
InName-InLine [] h = tt
InName-InLine (c ∷ k) (h, hs) = (h.0, InName-InLine k hs)

append-InLine : (s u : Bytes) → All IsInLine s → All IsInLine u → All IsInLine (s ++ u)
append-InLine [] u h q = q
append-InLine (c ∷ s) u (h, hs) q = (h, append-InLine s u hs q)

option-append : (k v s : Bytes) → k ++ 58 ∷ 32 ∷ (v ++ s) ≡ (k ++ 58 ∷ 32 ∷ v) ++ s
option-append k v s = sym (append_assoc k (58 ∷ 32 ∷ v) s)

-- The lines of a dumped header are found again.
words-lines_of :
    (t : Texts) (level : Level) (line : Bytes) (m : Map Bytes)
    → All IsInLine line
    → All (IsClean t level) m
    → words is_crlf true false (line ++ lines_of m) ≡ line ∷ map option_line m
words-lines_of t level line [] h hs = rw (append-nil line) (words-line line h)
words-lines_of t level line (([], v) ∷ m) h ((n, ne, a, b, q, e, f), hs) = absurd (ne refl)
words-lines_of t level line ((c ∷ k, v) ∷ m) h ((n, ne, a, b, q, e, f), hs) =
    let l : All IsInLine (c ∷ k ++ 58 ∷ 32 ∷ v) =
      append-InLine (c ∷ k) (58 ∷ 32 ∷ v) (InName-InLine (c ∷ k) n) (refl, (refl, q)) in
    words-lines line (k ++ 58 ∷ 32 ∷ (v ++ lines_of m)) c h n.0.0
    ∙ ap (◌∷◌ line) (
        ap (words is_crlf true false) (option-append (c ∷ k) v (lines_of m))
        ∙ words-lines_of t level (c ∷ k ++ 58 ∷ 32 ∷ v) m l hs)

module _ (t : Texts) (laws : TextsLaws t) where
  trimmed_value : (v : Bytes) → trimmed v ≡ v → trimmed (32 ∷ v) ≡ v
  unfolding trimmed trim_left is_space
  trimmed_value v h = h

  parse_option-line :
      (k v : Bytes) (h : Header)
      → IsClean t h.ver_level (k, v)
      → parse_option t h (option_line (k, v)) ≡ ok (set_option k v h)
  unfolding parse_option set_option_checked
  parse_option-line k v h (n, ne, a, b, q, c, d) =
      rw
        (
          parse_option,
          laws.find_law 58 [] (k ++ 58 ∷ 32 ∷ v),
          first_of-name k (32 ∷ v) n,
          laws.trim_law k,
          a,
          laws.to_lower_law k,
          b,
          laws.trim_law (32 ∷ v),
          trimmed_value v c,
          set_option_checked,
          d,
        )
        refl

  parse_options-lines :
      (m : Map Bytes) (h : Header)
      → All (IsClean t h.ver_level) m
      → parse_options t (map option_line m) h ≡ ok (set_xheaders m h)
  unfolding parse_options set_xheaders set_option
  parse_options-lines [] h hs = refl
  parse_options-lines ((k, v) ∷ m) h (c, hs) =
      rw (parse_option-line k v h c) (parse_options-lines m (set_option k v h) hs)

  options-dumped : (m : Map Bytes) → crlf ++ dump_options t m ≡ lines_of m ++ crlf
  unfolding dump_options
  options-dumped [] = refl
  options-dumped ((k, v) ∷ m) =
      let w = lines_of m in
      ap (λ z. 13 ∷ 10 ∷ z)
        (append_assoc (k ++ codes ": " ++ v) crlf (dump_options t m)
          ∙ ap (◌++◌ (k ++ codes ": " ++ v)) (options-dumped m)
          ∙ append_assoc (k ++ codes ": ") v (w ++ crlf)
          ∙ append_assoc k (codes ": ") (v ++ (w ++ crlf))
          ∙ ap (λ z. k ++ 58 ∷ 32 ∷ z) (sym (append_assoc v w crlf))
          ∙ sym (append_assoc k (58 ∷ 32 ∷ (v ++ w)) crlf))

  head-line : (kind : Kind) → dump_head t kind ≡ line_of t kind ++ crlf
  unfolding dump_head
  head-line (request uri) = refl
  head-line (response code phrase) = refl

  -- What `dump` writes of a header whose options are clean at a level, and whose first line is one line,
  -- is a text with two ends of lines behind it. `parse` of that text, for a header of that level, gives the
  -- header with that first line and with those options set in their order.
  pub parse_header-dump_header :
      (d h : Header)
      → All IsInLine (line_of t d.kind)
      → All (IsClean t h.ver_level) d.options
      → (text : Bytes) × (dump_header t d ≡ text ++ crlf ++ crlf)
        × (parse_header t text h
            ≡ ok (set_xheaders d.options (record h { head_line = line_of t d.kind })))
  unfolding dump_header parse_header
  parse_header-dump_header d h one_line clean =
      let line = line_of t d.kind in
      let text = line ++ lines_of d.options in
      (
        text,
        ap (λ z. z ++ dump_options t d.options ++ crlf) (head-line d.kind)
            ∙ ap (λ z. z ++ crlf)
                (append_assoc line crlf (dump_options t d.options)
                  ∙ ap (◌++◌ line) (options-dumped d.options)
                  ∙ sym (append_assoc line (lines_of d.options) crlf)),
        rw
            (
              parse_header,
              laws.split_law is_crlf true text,
              words-lines_of t h.ver_level line d.options one_line clean,
            )
            (parse_options-lines d.options (record h { head_line = line }) clean),
      )

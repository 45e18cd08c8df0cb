-- ===== src/Tests/Messages.antt =====
-- Concrete runs of the HTTP messages, over texts that write numbers in unary.
use libiqxmlrpc.Http.Dumped.{IsInLine, IsClean, line_of, parse_header-dump_header}
use libiqxmlrpc.Http.Authinfo.{get_authinfo-set_authinfo}
use libiqxmlrpc.Base64.{is_space}
use libiqxmlrpc.Http.Headers.{
  Header, check_weak, request, crlf, dump_header, set_xheaders, content_length, get_unsigned,
  get_string, new_header, parse_header, parse_options, parse_option, set_option_checked,
  run_validators, check_number, set_option, set_option_default,
}
use libiqxmlrpc.Prelude.Maps.{find, insert}
use libiqxmlrpc.Http.Packets.{get_authinfo, set_authinfo, new_packet, parse_request_header, Packet}
use libiqxmlrpc.Http.Reader.Chunks.{read_pieces-one_packet}
use libiqxmlrpc.Http.Reader.Contents.{IsReady, read_pieces, join}
use libiqxmlrpc.Http.Reader.Limits.{IsBounded, read_pieces-IsBounded}
use libiqxmlrpc.Http.Reader.{
  Reader, new_reader, crlf2, lf2, clear, read_packet, read_header, check_sz,
}
use libiqxmlrpc.Http.Texts.{
  Texts, TextsLaws, words, trimmed, trim_left, lower, first_of, begins_with,
}
use libiqxmlrpc.Prelude.Bytes.{Bytes, codes, str_eq, str_lt}
use libiqxmlrpc.Prelude.Int.{ℤ, pos, negsuc}
use libiqxmlrpc.Prelude.{
  ℕ, zero, suc, ◌<◌, Bool, true, false, ◌&&◌, List, [], ◌∷◌, ◌++◌, map, none, some, ok, length, leb,
  ◌≡◌, refl, ap, arith, All,
}

abbrev pub ones : ℕ → Bytes
ones zero = []
ones (suc n) = b'1' ∷ ones n

abbrev digits : Bytes → Bool
digits [] = true
digits (c ∷ s) = leb b'0' c && leb c b'9' && digits s

abbrev int_text : ℤ → Bytes
int_text (pos n) = ones n
int_text (negsuc n) = b'-' ∷ ones (suc n)

abbrev pub plain_texts : Texts
plain_texts = record {
  split = λ sep compress s. words sep compress false s;
  trim = λ s. trimmed s;
  to_lower = λ s. map lower s;
  find_first = λ p s. first_of p s;
  starts_with = λ s p. begins_with s p;
  all_digits = digits;
  to_unsigned = λ s. some (length s);
  of_size = ones;
  to_int = λ s. some (pos (length s));
  of_int = int_text;
}

length-ones : (n : ℕ) → length (ones n) ≡ n
length-ones zero = refl
length-ones (suc n) = ap suc (length-ones n)

digits-ones : (n : ℕ) → digits (ones n) ≡ true
digits-ones zero = refl
digits-ones (suc n) = digits-ones n

pub plain_texts-laws : TextsLaws plain_texts
plain_texts-laws = record {
  split_law = λ sep compress s. refl;
  trim_law = λ s. refl;
  to_lower_law = λ s. refl;
  find_law = λ c p s. refl;
  starts_law = λ s p. refl;
  size_law = λ n lt. ap some (length-ones n);
  digits_law = λ n. digits-ones n;
}

abbrev pub some_head : Bytes
some_head = codes "POST / HTTP/1.0" ++ crlf ++ codes "Content-Length: 11"

abbrev pub some_body : Bytes
some_body = codes "hi"

abbrev pub some_header : Header
some_header = record {
  kind = request (codes "/");
  head_line = codes "POST / HTTP/1.0";
  options =
      (codes "connection", codes "close")
      ∷ (codes "content-length", codes "11")
      ∷ (codes "host", [])
      ∷ (codes "user-agent", codes "unknown")
      ∷ [];
  ver_level = check_weak;
}

pub some_header-parsed : parse_request_header plain_texts check_weak some_head ≡ ok some_header
unfolding parse_request_header parse_header parse_options parse_option set_option_checked
    run_validators check_number set_option set_option_default new_header words first_of trimmed
    trim_left is_space find insert str_eq str_lt
some_header-parsed = refl

pub some_header-length : content_length plain_texts some_header ≡ ok (length some_body)
unfolding content_length get_unsigned get_string find str_eq
some_header-length = refl

pub some_head-end : first_of crlf2 (some_head ++ crlf2) ≡ some (some_head, [])
unfolding first_of
some_head-end = refl

pub some_head-no_other : first_of lf2 (some_head ++ crlf2) ≡ none
unfolding first_of
some_head-no_other = refl

abbrev three_pieces : List Bytes
three_pieces =
    codes "POST / HTT"
    ∷ (codes "P/1.0" ++ crlf ++ codes "Content-Length: 11" ++ 13 ∷ 10 ∷ 13 ∷ [])
    ∷ (10 ∷ b'h' ∷ [])
    ∷ codes "i"
    ∷ []

pub new_reader-IsReady : IsReady new_reader
unfolding IsReady clear
new_reader-IsReady = (refl, refl)

read_pieces-one_packet_example :
    (r' : Reader) × (read_pieces plain_texts
        (parse_request_header plain_texts)
        three_pieces
        new_reader
      ≡ (ok (new_packet plain_texts some_header some_body ∷ []), r'))
    × IsReady r'
unfolding join
read_pieces-one_packet_example =
    read_pieces-one_packet plain_texts plain_texts-laws (parse_request_header plain_texts) some_head
      some_body some_header some_header-length check_weak some_header-parsed some_head-end
      some_head-no_other three_pieces new_reader new_reader-IsReady refl
      (omega arith, (omega arith, (omega arith, (omega arith, tt)))) refl

abbrev limited_reader : Reader
limited_reader = record new_reader { pkt_max_sz = 100 }

abbrev two_pieces : List Bytes
two_pieces = (some_head ++ crlf2) ∷ some_body ∷ []

abbrev behind_pieces : List Packet × Reader
behind_pieces = (
  new_packet plain_texts some_header some_body ∷ [],
  record limited_reader {
    header_cache = some_head;
    content_cache = some_body;
    header = some (new_packet plain_texts some_header some_body).header;
    constructed = true;
    total_sz = length (some_head ++ crlf2 ++ some_body);
  },
)

behind_pieces-read :
    read_pieces plain_texts (parse_request_header plain_texts) two_pieces limited_reader
    ≡ (ok behind_pieces.0, behind_pieces.1)
unfolding read_pieces read_packet read_header check_sz content_length get_unsigned get_string
    parse_request_header parse_header parse_options parse_option set_option_checked run_validators
    check_number set_option set_option_default new_header words first_of trimmed trim_left is_space
    find insert str_eq str_lt
behind_pieces-read = refl

limited_reader-IsBounded : IsBounded limited_reader
unfolding IsBounded
limited_reader-IsBounded = (omega arith, omega arith)

read_pieces-IsBounded_example :
    IsBounded behind_pieces.1
    × (behind_pieces.1.pkt_max_sz ≡ 100)
    × All (λ p. length p.content < 100) behind_pieces.0
read_pieces-IsBounded_example =
    read_pieces-IsBounded plain_texts plain_texts-laws 100 (parse_request_header plain_texts)
      two_pieces limited_reader behind_pieces.1 behind_pieces.0 (omega arith) refl
      (omega arith, (omega arith, tt)) limited_reader-IsBounded behind_pieces-read

get_authinfo-set_authinfo_example :
    get_authinfo plain_texts (set_authinfo plain_texts (codes "al") (codes "x:y") some_header)
    ≡ ok (codes "al", codes "x:y")
get_authinfo-set_authinfo_example =
    get_authinfo-set_authinfo plain_texts plain_texts-laws some_header (codes "al") (codes "x:y")
      (refl, (refl, tt))
      (omega arith, (omega arith, (omega arith, (omega arith, (omega arith, (omega arith, tt))))))

abbrev dumped_header : Header
dumped_header = record {
  kind = request (codes "x");
  head_line = [];
  options = (codes "content-length", codes "11") ∷ (codes "host", codes "a:3") ∷ [];
  ver_level = check_weak;
}

in_line : All IsInLine (line_of plain_texts dumped_header.kind)
in_line = ground arith

dumped_header-IsClean : All (IsClean plain_texts check_weak) dumped_header.options
unfolding run_validators check_number trimmed trim_left is_space str_eq
dumped_header-IsClean = ground arith

parse_header-dump_header_example :
    (text : Bytes) × (dump_header plain_texts dumped_header ≡ text ++ crlf ++ crlf)
    × (parse_header plain_texts text (new_header (request []) check_weak)
        ≡ ok (
            set_xheaders dumped_header.options (record (new_header (request []) check_weak) {
              head_line = line_of plain_texts dumped_header.kind;
            })))
unfolding new_header find
parse_header-dump_header_example =
    parse_header-dump_header plain_texts plain_texts-laws dumped_header
      (new_header (request []) check_weak) in_line dumped_header-IsClean

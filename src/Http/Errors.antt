-- ===== src/Http/Errors.antt =====
-- The exceptions of HTTP (libiqxmlrpc/http_errors.h, http.h).
use libiqxmlrpc.Prelude.Bytes.{Bytes, codes}
use libiqxmlrpc.Prelude.Int.{ℤ, pos}
use libiqxmlrpc.Prelude.{List, [], ◌∷◌, ◌++◌, Option, none, some}

-- `Malformed_packet`, the subclasses of `Error_response`, and one of another code and phrase.
pub data HttpError : Type 0 where
  malformed_packet bad_request unauthorized method_not_allowed length_required : HttpError
  request_too_large expectation_failed : HttpError
  unsupported_content_type : Bytes → HttpError
  error_response : Bytes → ℤ → HttpError

-- The header of an `Error_response`: its code, its phrase, and an option that it sets.
pub record ErrorHead : Type 0 where
  pub code : ℤ
  pub phrase : Bytes
  pub options : List (Bytes × Bytes)

abbrev plain : ℤ → Bytes → Option ErrorHead
plain c p = some (record { code = c; phrase = p; options = [] })

-- `none` for `Malformed_packet`, which is no `Error_response`.
unfoldable pub error_head : HttpError → Option ErrorHead
error_head malformed_packet = none
error_head bad_request = plain (pos 400) (codes "Bad request")
error_head unauthorized = some (record {
  code = pos 401;
  phrase = codes "Unauthorized";
  options = (codes "www-authenticate", codes "Basic realm=" ++ 34 ∷ 34 ∷ []) ∷ [];
})
error_head method_not_allowed = some (record {
  code = pos 405;
  phrase = codes "Method not allowed";
  options = (codes "allowed:", codes "POST") ∷ [];
})
error_head length_required = plain (pos 411) (codes "Content-Length Required")
error_head request_too_large = plain (pos 413) (codes "Request Entity Too Large")
error_head (unsupported_content_type wrong) =
    plain (pos 415) (codes "Unsupported media type '" ++ wrong ++ codes "'")
error_head expectation_failed = plain (pos 417) (codes "Expectation Failed")
error_head (error_response phrase code) = plain code phrase

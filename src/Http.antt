-- ===== src/Http.antt =====
-- HTTP messages (libiqxmlrpc/http.cc, http.h, http_errors.h): headers, packets, and the reader that
-- makes packets of the pieces that a socket gives. `Texts` has the functions of boost that the code
-- calls, as a parameter.
pub mod Texts
pub mod Found
pub mod Errors
pub mod Headers
pub mod Packets
pub mod Dumped
pub mod Authinfo
pub mod Reader

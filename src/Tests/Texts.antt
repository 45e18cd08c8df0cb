-- ===== src/Tests/Texts.antt =====
-- Concrete runs of the codecs of libiqxmlrpc/value_type.cc: base64 and dates.
use libiqxmlrpc.Base64.RoundTrip.{IsByte, from_base64-get_base64}
use libiqxmlrpc.Base64.{encode, from_base64, get_base64, from_data}
use libiqxmlrpc.DateTime.Checks.{of_string-IsTm}
use libiqxmlrpc.DateTime.RoundTrip.{IsTm, of_string-to_string}
use libiqxmlrpc.DateTime.{Tm, of_string, to_string}
use libiqxmlrpc.Prelude.Bytes.{Bytes, codes}
use libiqxmlrpc.Prelude.{◌≡◌, refl, [], ◌∷◌, some, ok, All, length, get_or, arith}

abbrev some_bytes : Bytes
some_bytes = 77 ∷ 0 ∷ 255 ∷ 17 ∷ []

abbrev some_text : Bytes
some_text = codes "TWFu IE0="

abbrev moment : Tm
moment = record { year = 111; mon = 1; mday = 28; hour = 23; min = 5; sec = 9 }

moment-IsTm : IsTm moment
moment-IsTm = record {
  year_le = omega arith;
  mon_le = omega arith;
  mday_pos = omega arith;
  mday_le = omega arith;
  hour_le = omega arith;
  min_le = omega arith;
  sec_le = omega arith;
}

some_bytes-IsByte : All IsByte some_bytes
some_bytes-IsByte = (omega arith, (omega arith, (omega arith, (omega arith, tt))))

from_base64-get_base64_example :
    from_base64 (get_base64 (from_data some_bytes)).base64
    ≡ ok (record { bytes = some_bytes; base64 = encode some_bytes })
from_base64-get_base64_example = from_base64-get_base64 some_bytes some_bytes-IsByte

of_string-to_string_example : (s : Bytes) × (to_string moment ≡ some s) × (of_string s ≡ ok moment)
of_string-to_string_example = of_string-to_string moment moment-IsTm

of_string-moment : of_string (codes "20110228T23:05:09") ≡ ok moment
unfolding of_string
of_string-moment = refl

of_string-IsTm_example :
    (length (codes "20110228T23:05:09") ≡ 17)
    × (get_or (codes "20110228T23:05:09") 8 0 ≡ b'T')
    × IsTm moment
of_string-IsTm_example = of_string-IsTm (codes "20110228T23:05:09") moment of_string-moment

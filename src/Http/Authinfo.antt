-- ===== src/Http/Authinfo.antt =====
-- The credentials of a request (`Request_header::set_authinfo` and `get_authinfo` of libiqxmlrpc/http.cc).
use libiqxmlrpc.Base64.RoundTrip.{
  IsByte, IsVisible, encode-IsVisible, from_base64-get_base64, get_base64-encode,
}
use libiqxmlrpc.Base64.{encode, is_space, from_base64}
use libiqxmlrpc.Http.Headers.{Header, authorization_name, set_option, get_string}
use libiqxmlrpc.Http.Packets.{is_blank_or_tab, split_user, get_authinfo, set_authinfo}
use libiqxmlrpc.Http.Texts.{Texts, TextsLaws, words}
use libiqxmlrpc.Prelude.Bytes.{Bytes, codes, str_eq_refl}
use libiqxmlrpc.Prelude.Maps.{find-insert_same, contains-insert_same}
use libiqxmlrpc.Prelude.{
  ℕ, Bool, true, false, [], ◌∷◌, ◌++◌, ok, ◌==◌, ◌≡◌, refl, sym, ap, ◌∙◌, arith, All,
}

abbrev pub IsNoColon : ℕ → Type 0
IsNoColon c = (c == b':') ≡ false

split_user-colon : (u p : Bytes) → All IsNoColon u → split_user (u ++ codes ":" ++ p) ≡ (u, p)
unfolding split_user
split_user-colon [] p h = refl
split_user-colon (c ∷ u) p (x, h) = rw (x, split_user-colon u p h)

blank_or_tab : (c : ℕ) → IsVisible c → is_blank_or_tab c ≡ false
unfolding is_space
blank_or_tab c x = ground (arith, x)

-- A text without blanks is one word.
words-visible :
    (s : Bytes) (after : Bool) → All IsVisible s → words is_blank_or_tab false after s ≡ s ∷ []
unfolding words is_space
words-visible [] after h = refl
words-visible (c ∷ s) after (x, h) = rw (blank_or_tab c x, words-visible s false h)

module _ (t : Texts) (laws : TextsLaws t) where
  -- A user name without a colon, and a password, both of bytes, which are set in the header of a request
  -- are what is read from it.
  pub get_authinfo-set_authinfo :
      (h : Header) (user password : Bytes)
      → All IsNoColon user
      → All IsByte (user ++ codes ":" ++ password)
      → get_authinfo t (set_authinfo t user password h) ≡ ok (user, password)
  unfolding words get_authinfo set_authinfo set_option get_string
  get_authinfo-set_authinfo h user password no_colon bytes =
      let raw = user ++ codes ":" ++ password in
      let decoded =
        ap (λ x. from_base64 x) (sym (get_base64-encode raw)) ∙ from_base64-get_base64 raw bytes in
      rw (
        get_base64-encode raw,
        find-insert_same authorization_name (codes "Basic " ++ encode raw) h.options,
        contains-insert_same authorization_name (codes "Basic " ++ encode raw) h.options,
        laws.split_law is_blank_or_tab false (codes "Basic " ++ encode raw),
        words,
        words-visible (encode raw) true (encode-IsVisible raw),
        laws.to_lower_law (codes "Basic"),
        str_eq_refl (codes "basic"),
        decoded,
        split_user-colon user password no_colon,
      )

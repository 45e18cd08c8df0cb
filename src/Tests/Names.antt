-- ===== src/Tests/Names.antt =====
-- Concrete runs of the names of headers and of methods.
use libiqxmlrpc.Dispatch.Names.{
  create_method-enable_introspection, create_method-listed, new_method, names, listed, strings, has,
}
use libiqxmlrpc.Dispatch.{
  Manager, Dispatcher, makes, list_methods, list_methods_name, enable_introspection, create_method,
}
use libiqxmlrpc.Exceptions.{unknown_method}
use libiqxmlrpc.Http.Headers.{Header}
use libiqxmlrpc.Methods.{Data, Info, ParamList, Body}
use libiqxmlrpc.Prelude.Bytes.{Bytes, codes, str_eq}
use libiqxmlrpc.Prelude.Int.{ℤ, pos}
use libiqxmlrpc.Prelude.{
  ◌⊎◌, true, false, [], ◌∷◌, none, some, ok, err, ◌≡◌, refl, Bool-cases, inl, inr, if◌then◌else◌,
}
use libiqxmlrpc.Tests.Messages.{some_header}
use libiqxmlrpc.XHeaders.{XHeaders}
use libiqxmlrpc.Value.{Value, int, array}

abbrev tagged_header : Header
tagged_header = record some_header {
  options = (codes "host", codes "a") ∷ (codes "x-tag", codes "one") ∷ [];
}

abbrev seven : Body ℤ
seven info ps v = record { thrown = none; value = int (pos 7) }

abbrev other_disp : Dispatcher ℤ
other_disp = record {
  do_create_method = λ n. if str_eq (codes "b") n then some seven else none;
  methods = codes "b" ∷ [];
}

abbrev some_manager : Manager ℤ
some_manager = record {
  default_disp = (codes "a", makes seven) ∷ [];
  dispatchers = other_disp ∷ [];
}

abbrev list_call : Data
list_call = record { method_name = list_methods_name; peer_addr = codes "host" }

create_method-enable_introspection_example :
    (create_method (enable_introspection some_manager) list_call
      ≡ ok (new_method list_call (list_methods (enable_introspection some_manager))))
    × ((info : Info) (ps : ParamList ℤ) (v : Value ℤ)
        → list_methods (enable_introspection some_manager) info ps v ≡ record {
          thrown = none;
          value = array (strings (names (enable_introspection some_manager)));
        })
    × (listed list_methods_name (names (enable_introspection some_manager)) ≡ true)
create_method-enable_introspection_example =
    create_method-enable_introspection some_manager list_call refl

abbrev b_call : Data
b_call = record { method_name = codes "b"; peer_addr = codes "host" }

other_disp-honest : (n : Bytes) → has (other_disp.do_create_method n) ≡ listed n other_disp.methods
other_disp-honest n = elim (Bool-cases (str_eq (codes "b") n)) [
  | inl e ↦ rw e refl
  | inr e ↦ rw e refl
]

create_method-listed_example :
    ((listed (codes "b") (names some_manager) ≡ true)
      × ((b : Body ℤ) × (create_method some_manager b_call ≡ ok (new_method b_call b))))
    ⊎ ((listed (codes "b") (names some_manager) ≡ false)
        × (create_method some_manager b_call ≡ err (unknown_method (codes "b"))))
create_method-listed_example = create_method-listed some_manager b_call (other_disp-honest, tt)

-- The headers of a program, and one more.
abbrev some_xheaders : XHeaders
some_xheaders = (codes "x-tag", codes "one") ∷ []

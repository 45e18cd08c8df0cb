-- ===== src/Dispatch/Names.antt =====
-- The names that a server knows (libiqxmlrpc/dispatcher_manager.cc, builtins.cc).
use libiqxmlrpc.Dispatch.{
  Factory, makes_list_methods, Dispatcher, Manager, register_method, enable_introspection,
  push_names, push_default, push_dispatchers, get_methods_list, list_methods, list_methods_name,
  default_create, first_created, or_next, created, with_data, create_method,
}
use libiqxmlrpc.Exceptions.{unknown_method}
use libiqxmlrpc.Methods.{Data, Info, ParamList, Body, Method}
use libiqxmlrpc.Prelude.Bytes.{Bytes, str_eq}
use libiqxmlrpc.Prelude.Maps.{Map, find, contains, find-insert_same, contains-insert_same}
use libiqxmlrpc.Prelude.{
  ◌⊎◌, Bool-cases, inl, inr, Bool, true, false, ◌||◌, List, [], ◌∷◌, ◌++◌, Option, none, some, ok,
  err, ◌≡◌, refl, sym, ap, ◌∙◌, arith, All,
}
use libiqxmlrpc.Value.{Value, string, array, Items, no_items, item, array_push_back}

abbrev pub listed : Bytes → List Bytes → Bool
listed n [] = false
listed n (x ∷ xs) = str_eq x n || listed n xs

abbrev pub has : {A : Type 0} → Option A → Bool
has (some a) = true
has none = false

listed-append :
    (n : Bytes) (ns ms : List Bytes) → listed n (ns ++ ms) ≡ (listed n ns || listed n ms)
listed-append n [] ms = refl
listed-append n (x ∷ ns) ms = ground (arith, listed-append n ns ms)

module _ {D : Type 0} where
  abbrev default_names : Map (Factory D) → List Bytes
  default_names [] = []
  default_names ((n, f) ∷ fs) = n ∷ default_names fs

  abbrev other_names : List (Dispatcher D) → List Bytes
  other_names [] = []
  other_names (d ∷ ds) = d.methods ++ other_names ds

  -- The names of all methods, as the dispatchers have them.
  unfoldable pub names : Manager D → List Bytes
  names m = default_names m.default_disp ++ other_names m.dispatchers

  -- The array of the names.
  abbrev pub strings : List Bytes → Items D
  strings [] = no_items
  strings (n ∷ ns) = item (string n) (strings ns)

  abbrev joined : Items D → Items D → Items D
  joined no_items b = b
  joined (item v a) b = item v (joined a b)

  joined-push_back :
      (a : Items D) (v : Value D) (b : Items D)
      → joined (array_push_back a v) b ≡ joined a (item v b)
  unfolding array_push_back
  joined-push_back no_items v b = refl
  joined-push_back (item w a) v b = ap (item w) (joined-push_back a v b)

  joined-none : (a : Items D) → joined a no_items ≡ a
  joined-none no_items = refl
  joined-none (item v a) = ap (item v) (joined-none a)

  push_names-strings :
      (ns ms : List Bytes) (a : Items D)
      → joined (push_names ns a) (strings ms) ≡ joined a (strings (ns ++ ms))
  unfolding push_names
  push_names-strings [] ms a = refl
  push_names-strings (n ∷ ns) ms a =
      push_names-strings ns ms (array_push_back a (string n))
      ∙ joined-push_back a (string n) (strings (ns ++ ms))

  push_default-strings :
      (fs : Map (Factory D)) (ms : List Bytes) (a : Items D)
      → joined (push_default fs a) (strings ms) ≡ joined a (strings (default_names fs ++ ms))
  unfolding push_default
  push_default-strings [] ms a = refl
  push_default-strings ((n, f) ∷ fs) ms a =
      push_default-strings fs ms (array_push_back a (string n))
      ∙ joined-push_back a (string n) (strings (default_names fs ++ ms))

  push_dispatchers-strings :
      (ds : List (Dispatcher D)) (a : Items D)
      → push_dispatchers ds a ≡ joined a (strings (other_names ds))
  unfolding push_dispatchers
  push_dispatchers-strings [] a = sym (joined-none a)
  push_dispatchers-strings (d ∷ ds) a =
      push_dispatchers-strings ds (push_names d.methods a)
      ∙ push_names-strings d.methods (other_names ds) a

  get_methods_list-names : (m : Manager D) → get_methods_list m no_items ≡ strings (names m)
  unfolding get_methods_list names
  get_methods_list-names m =
      push_dispatchers-strings m.dispatchers (push_default m.default_disp no_items)
      ∙ push_default-strings m.default_disp (other_names m.dispatchers) no_items

  abbrev pub new_method : Data → Body D → Method D
  new_method mdata b = record {
    info = record { call = mdata; authname = []; xheaders = [] };
    execute = b;
  }

  listed-default_names :
      (n : Bytes) (fs : Map (Factory D)) (ms : List Bytes)
      → listed n (default_names fs ++ ms) ≡ (contains n fs || listed n ms)
  unfolding find
  listed-default_names n [] ms = refl
  listed-default_names n ((k, f) ∷ fs) ms = ground (arith, listed-default_names n fs ms)

  -- Once introspection is enabled, the method `system.listMethods` is there, whatever the dispatchers
  -- make, and it gives the array of the names of all methods, its own among them.
  pub create_method-enable_introspection :
      (m : Manager D) (mdata : Data)
      → mdata.method_name ≡ list_methods_name
      → let m' : Manager D = enable_introspection m in
        (create_method m' mdata ≡ ok (new_method mdata (list_methods m')))
        × ((info : Info) (ps : ParamList D) (v : Value D)
            → list_methods m' info ps v
              ≡ record { thrown = none; value = array (strings (names m')) })
        × (listed list_methods_name (names m') ≡ true)
  unfolding create_method default_create enable_introspection register_method list_methods names
  create_method-enable_introspection m mdata e = (
    rw (e, find-insert_same {V = Factory D} list_methods_name makes_list_methods m.default_disp),
    λ info ps v. rw (get_methods_list-names (enable_introspection m)),
    rw (
      names,
      listed-default_names list_methods_name (enable_introspection m).default_disp
          (other_names m.dispatchers),
      contains-insert_same {V = Factory D} list_methods_name makes_list_methods m.default_disp,
    ),
  )

  -- A dispatcher makes a method of each name that it lists, and of no other.
  abbrev pub IsHonest : Dispatcher D → Type 0
  IsHonest d = (n : Bytes) → has (d.do_create_method n) ≡ listed n d.methods

  created-has :
      (m : Manager D) (f : Option (Factory D))
      → has (created m f) ≡ elim f [ some _ ↦ true | none ↦ false ]
  created-has m (some f) = refl
  created-has m none = refl

  default_create-has :
      (m : Manager D) (n : Bytes) → has (default_create m n) ≡ contains n m.default_disp
  unfolding default_create
  default_create-has m n = created-has m (find n m.default_disp)

  or_next-has : (a b : Option (Body D)) → has (or_next a b) ≡ (has a || has b)
  or_next-has none b = refl
  or_next-has (some x) b = refl

  first_created-has :
      (n : Bytes) (ds : List (Dispatcher D))
      → All IsHonest ds
      → has (first_created n ds) ≡ listed n (other_names ds)
  unfolding first_created
  first_created-has n [] h = refl
  first_created-has n (d ∷ ds) (h, hs) = rw (
    or_next-has (d.do_create_method n) (first_created n ds),
    h,
    first_created-has n ds hs,
    listed-append n d.methods (other_names ds),
  )

  with_data-has :
      (mdata : Data) (o : Option (Body D))
      → (has o ≡ true → (b : Body D) × (with_data mdata o ≡ ok (new_method mdata b)))
        × (has o ≡ false → with_data mdata o ≡ err (unknown_method mdata.method_name))
  with_data-has mdata none = (λ e. cc, λ e. refl)
  with_data-has mdata (some b) = (λ e. (b, refl), λ e. cc)

  -- Where each dispatcher that the program has pushed makes a method of each name that it lists, and of
  -- no other, either the name that is asked for is listed, and `create_method` gives a method of it with
  -- the data of the call in it, or it is not listed, and `create_method` throws `Unknown_method`.
  pub create_method-listed :
      (m : Manager D) (mdata : Data)
      → All IsHonest m.dispatchers
      → ((listed mdata.method_name (names m) ≡ true)
          × ((b : Body D) × (create_method m mdata ≡ ok (new_method mdata b))))
        ⊎ ((listed mdata.method_name (names m) ≡ false)
            × (create_method m mdata ≡ err (unknown_method mdata.method_name)))
  unfolding create_method names
  create_method-listed m mdata h =
      let n = mdata.method_name in
      let o = or_next (default_create m n) (first_created n m.dispatchers) in
      let q : has o ≡ listed n (default_names m.default_disp ++ other_names m.dispatchers) = rw (
        or_next-has (default_create m n) (first_created n m.dispatchers),
        default_create-has m n,
        first_created-has n m.dispatchers h,
        listed-default_names n m.default_disp (other_names m.dispatchers),
      ) in
      let (found, missing) = with_data-has mdata o in
      elim (Bool-cases (has o)) [
        | inl e ↦ inl (sym q ∙ e, found e)
        | inr e ↦ inr (sym q ∙ e, missing e)
      ]

-- ===== src/Dispatch.antt =====
-- How the server finds the method of a name (libiqxmlrpc/dispatcher_manager.cc, method.h, builtins.cc).
-- Objects are made by factories; the dispatchers that the program pushes are parameters.
pub mod Names
use libiqxmlrpc.Exceptions.{Thrown, unknown_method}
use libiqxmlrpc.Methods.{Data, Info, ParamList, Outcome, Body, Method}
use libiqxmlrpc.Prelude.Bytes.{Bytes, codes}
use libiqxmlrpc.Prelude.Maps.{Map, find, insert}
use libiqxmlrpc.Prelude.{List, [], ◌∷◌, ◌++◌, Option, none, some, Result, ok, err}
use libiqxmlrpc.Value.{Value, string, array, Items, no_items, array_push_back}

-- A factory of methods: that of a body, or `System_method_factory` for `List_methods`, which holds
-- the manager.
pub data Factory (D : Type 0) : Type 0 where
  makes : Body D → Factory D
  makes_list_methods : Factory D

-- `Method_dispatcher_base`, of a class of the program's own: `do_create_method` and
-- `do_get_methods_list`.
pub record Dispatcher (D : Type 0) : Type 0 where
  pub do_create_method : Bytes → Option (Body D)
  pub methods : List Bytes

-- `Method_dispatcher_manager::Impl`: the default dispatcher, which stands first in `dispatchers`, and
-- the others.
pub record Manager (D : Type 0) : Type 0 where
  pub default_disp : Map (Factory D)
  pub dispatchers : List (Dispatcher D)

abbrev pub list_methods_name : Bytes
list_methods_name = codes "system.listMethods"

module _ {D : Type 0} where
  abbrev pub new_manager : Manager D
  new_manager = record { default_disp = []; dispatchers = [] }

  unfoldable pub register_method : Bytes → Factory D → Manager D → Manager D
  register_method name f m = record m { default_disp = insert name f m.default_disp }

  unfoldable pub push_back : Dispatcher D → Manager D → Manager D
  push_back d m = record m { dispatchers = m.dispatchers ++ d ∷ [] }

  unfoldable pub enable_introspection : Manager D → Manager D
  unfolding register_method
  enable_introspection m = register_method list_methods_name makes_list_methods m

  -- `get_methods_list`: the names of the default dispatcher in the order of its map, then those of the
  -- others, each pushed back to the array.
  unfoldable pub push_names : List Bytes → Items D → Items D
  push_names [] a = a
  push_names (n ∷ ns) a = push_names ns (array_push_back a (string n))

  unfoldable pub push_default : Map (Factory D) → Items D → Items D
  push_default [] a = a
  push_default ((n, f) ∷ fs) a = push_default fs (array_push_back a (string n))

  unfoldable pub push_dispatchers : List (Dispatcher D) → Items D → Items D
  push_dispatchers [] a = a
  push_dispatchers (d ∷ ds) a = push_dispatchers ds (push_names d.methods a)

  unfoldable pub get_methods_list : Manager D → Items D → Items D
  get_methods_list m a = push_dispatchers m.dispatchers (push_default m.default_disp a)

  -- `List_methods::execute`, over the manager.
  unfoldable pub list_methods : Manager D → Body D
  list_methods m info params v = record {
    thrown = none;
    value = array (get_methods_list m no_items);
  }

  -- `create` of a factory.
  abbrev pub create : Manager D → Factory D → Body D
  create m (makes b) = b
  create m makes_list_methods = list_methods m

  abbrev pub created : Manager D → Option (Factory D) → Option (Body D)
  created m (some f) = some (create m f)
  created m none = none

  -- `do_create_method` of the default dispatcher.
  unfoldable pub default_create : Manager D → Bytes → Option (Body D)
  default_create m name = created m (find name m.default_disp)

  abbrev pub or_next : Option (Body D) → Option (Body D) → Option (Body D)
  or_next (some b) rest = some b
  or_next none rest = rest

  -- The loop of `create_method` over the dispatchers that are left.
  unfoldable pub first_created : Bytes → List (Dispatcher D) → Option (Body D)
  first_created name [] = none
  first_created name (d ∷ ds) = or_next (d.do_create_method name) (first_created name ds)

  -- A method object: `create_method` of the base class sets `data_`.
  abbrev pub with_data : Data → Option (Body D) → Result Thrown (Method D)
  with_data mdata none = err (unknown_method mdata.method_name)
  with_data mdata (some b) =
      ok (record { info = record { call = mdata; authname = []; xheaders = [] }; execute = b })

  unfoldable pub create_method : Manager D → Data → Result Thrown (Method D)
  create_method m mdata =
      with_data mdata (
        or_next (default_create m mdata.method_name)
          (first_created mdata.method_name m.dispatchers))

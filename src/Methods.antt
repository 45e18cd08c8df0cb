-- ===== src/Methods.antt =====
-- Methods of a server and the interceptors around them (libiqxmlrpc/method.h, method.cc). A method and
-- an interceptor of the program's own are parameters. What is passed by a reference is given back,
-- also where an exception is thrown.
use libiqxmlrpc.Exceptions.{Thrown}
use libiqxmlrpc.Prelude.Bytes.{Bytes}
use libiqxmlrpc.Prelude.{Bool, true, false, List, [], ◌∷◌, Option}
use libiqxmlrpc.Value.{Value}
use libiqxmlrpc.XHeaders.{XHeaders}

-- `Method::Data`, without the reference to the server.
pub record Data : Type 0 where
  pub method_name : Bytes
  pub peer_addr : Bytes

-- What a method knows of the call: `data_`, `authname_`, `xheaders_`.
pub record Info : Type 0 where
  pub call : Data
  pub authname : Bytes
  pub xheaders : XHeaders

abbrev pub authenticated : Info → Bool
authenticated i = elim i.authname [ [] ↦ false | _ ∷ _ ↦ true ]

-- A list of parameters, some of which may be null pointers.
abbrev pub ParamList : Type 0 → Type 0
ParamList D = List (Option (Value D))

-- What was thrown, if anything, and the result, which the code has changed in place.
pub record Outcome (D : Type 0) : Type 0 where
  pub thrown : Option Thrown
  pub value : Value D

-- `execute` of a class derived from `Method`.
abbrev pub Body : Type 0 → Type 0
Body D = Info → ParamList D → Value D → Outcome D

pub record Method (D : Type 0) : Type 0 where
  pub info : Info
  pub execute : Body D

-- `process` of a class derived from `Interceptor`, whose first argument is its `yield`.
abbrev pub Interceptor : Type 0 → Type 0
Interceptor D =
    (Method D → ParamList D → Value D → Outcome D) → Method D → ParamList D → Value D → Outcome D

-- The interceptors, each of which holds the next one in `nested`.
abbrev pub Interceptors : Type 0 → Type 0
Interceptors D = List (Interceptor D)

-- `Server::push_interceptor`, with `nest`
abbrev pub push_interceptor : {D : Type 0} → Interceptor D → Interceptors D → Interceptors D
push_interceptor ic nested = ic ∷ nested

-- `Method::process_execution`, with `Interceptor::yield`
unfoldable pub process_execution :
    {D : Type 0} → Interceptors D → Method D → ParamList D → Value D → Outcome D
process_execution [] m params v = m.execute m.info params v
process_execution (ic ∷ nested) m params v = ic (process_execution nested) m params v

-- ===== src/Network/Servers.antt =====
-- components/endpoint/network: the servers of ws.rs and grpc.rs, as far as they do not only call
-- tokio's and tonic's.
use jackfield.Common.{List, [], ◌∷◌, String, Option, none, some}
use jackfield.Platform.{Platform}
use jackfield.Platform.Double.{Double}
use jackfield.Bus.Handle.{BusCmdHandle}
use jackfield.Producer.{Runtime}
use jackfield.Network.{Json}
use jackfield.Network.Socket.{Frame, Socket, handle_connection}
use jackfield.Network.Grpc.{Service}

module _ ⦃p : Platform⦄ ⦃d : Double⦄ where
  -- An address is its text.
  pub record WsEndpoint (S : Type 0) : Type 0 where
    pub name : String
    pub addr : String
    pub cmd_handle : BusCmdHandle S

  pub record GrpcEndpoint (S : Type 0) : Type 0 where
    pub name : String
    pub addr : String
    pub cmd_handle : BusCmdHandle S

module _ ⦃p : Platform⦄ ⦃d : Double⦄ {S : Type 0} where
  unfoldable pub ws_new : String → String → BusCmdHandle S → WsEndpoint S
  ws_new name addr cmd_handle = record { name = name; addr = addr; cmd_handle = cmd_handle }

  unfoldable pub grpc_new : String → String → BusCmdHandle S → GrpcEndpoint S
  grpc_new name addr cmd_handle = record { name = name; addr = addr; cmd_handle = cmd_handle }

  -- The service that `GrpcEndpoint::start` hands to tonic, in a world: its table is empty.
  unfoldable pub grpc_start :
      {Rx : Type 0} → GrpcEndpoint S → S → (String × BusCmdHandle S) × Service Rx S
  grpc_start self s = ((self.name, self.cmd_handle), record { endpoints = []; world = s })

module _ ⦃p : Platform⦄ ⦃d : Double⦄ ⦃j : Json⦄ {S : Type 0} where
  -- `handle_connection` with its handshake, `accept_async`, which may fail.
  unfoldable pub shake_hands : Socket S → Runtime S → BusCmdHandle S → Option (List Frame) → S → S
  unfolding handle_connection
  shake_hands ws rt cmd none s = s
  shake_hands ws rt cmd (some frames) s = handle_connection ws rt cmd frames s

  -- The loop of `WsEndpoint::start`: the tasks that it has spawned after the given results of
  -- `accept`, of which a failure is passed over.
  unfoldable pub accept_loop :
      Socket S → Runtime S → WsEndpoint S → List (Option (Option (List Frame))) → List (S → S)
  unfolding shake_hands
  accept_loop ws rt self [] = []
  accept_loop ws rt self (none ∷ results) = accept_loop ws rt self results
  accept_loop ws rt self (some stream ∷ results) =
      shake_hands ws rt self.cmd_handle stream ∷ accept_loop ws rt self results

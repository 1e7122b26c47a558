-- ===== src/Daemon/Requests.antt =====
-- The requests of clients and their responses (crates/ipn-ipc/src/lib.rs: `IpcRequest`,
-- `IpcResponse`), as far as the operations behind them are modelled.
use nullgate.Common.{ℕ, Bool}
use nullgate.Common.Text.{Text}
use nullgate.Engine.Session.{OpError}
use Prim.Native.String.{String}

pub data IpcRequest : Type 0 where
  hello : ℕ → IpcRequest
  create_network set_network_name : String → IpcRequest
  join approve_join deny_join remove_member : Text → IpcRequest
  set_member_role : Text → Bool → IpcRequest
  set_frozen : Bool → IpcRequest
  delete_network rotate_network leave_network connect disconnect : IpcRequest
  get_ticket get_controller_ticket : IpcRequest
  set_peer_ticket_single_use set_remote_access_disabled set_hidden : Bool → IpcRequest
  export_originator_key : IpcRequest
  import_originator_key : Text → IpcRequest
  subscribe : IpcRequest

pub data IpcResponse : Type 0 where
  hello : ℕ → IpcResponse
  ticket recovery : Text → IpcResponse
  ok : IpcResponse
  err : OpError → IpcResponse

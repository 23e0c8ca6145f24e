-- ===== src/Server/Running.antt =====
-- The server of linkmesh-server/src/signaling.rs as it runs: packets, revocations, new invites and
-- rounds of the cleanup, in any order.
pub mod Renewed
pub mod Orderly
pub mod Moves
pub mod Root
pub mod Answers
pub mod Safe
pub mod Reached
pub mod Start
use link_mesh.Base.{
  ℕ, ◌+◌, ◌^◌, ◌<◌, ◌≡◌, Option, none, List, [], Bytes, Text, Result, ok, ◌>>=◌, ◌>>◌,
}
use link_mesh.Shared.Cert.{Signatures, CertError, RevokeReason}
use link_mesh.Server.Mesh.{MeshConfig, MeshError, revoke, create_invite}
use link_mesh.Server.Mesh.Members.{IsConsistent}
use link_mesh.Server.Mesh.Integrity.{verify_integrity}
use link_mesh.Server.Routes.{RouteEntry, empty}
use link_mesh.Server.Sessions.{kick_device}
use link_mesh.Server.Sweep.{sweep}
use link_mesh.Server.Desk.{Desk, Hub, Arrival, Output}
use link_mesh.Server.Dispatch.{handle}

-- The state that `Signaling::new` makes of a mesh that passed its check.
abbrev pub opening : MeshConfig → Hub
opening m = record {
  auth = record {
    rate_limits = [];
    replay = [];
    session_state = record { sessions = []; active_ik_x = []; routes = empty };
  };
  mesh = m;
  serverinfo_cache = none;
}

-- `Signaling::new` with the mesh that was loaded: it refuses a mesh that fails `verify_integrity`.
unfoldable pub start : Signatures → ℕ → MeshConfig → Result CertError Hub
unfolding verify_integrity
start sigs now m = verify_integrity sigs now m >> ok (opening m)

-- The device is put on the list, and its sessions and routes end.
unfoldable pub revoke_device : Desk → Text → RevokeReason → ℕ → Hub → Result MeshError Hub
unfolding revoke kick_device
revoke_device d device_id reason now h = do
  m' ← revoke d.server.sigs device_id reason now h.mesh
  ok (record h {
    mesh = m';
    auth = record h.auth { session_state = kick_device device_id h.auth.session_state };
  })

pub data ServerStep (d : Desk) : Hub → Hub → Type 0 where
  receives :
      (a : Arrival) (entries : List RouteEntry) (packet : Bytes) (h : Hub)
      → ServerStep d h (handle d a entries packet h).0
  revokes :
      (device_id : Text) (reason : RevokeReason) (now : ℕ) {h h' : Hub}
      → h.mesh.crl.version + 1 < 2 ^ 64
      → revoke_device d device_id reason now h ≡ ok h'
      → ServerStep d h h'
  invites :
      (code : Text) (ip : Option Text) (ttl_secs now : ℕ) (h : Hub)
      → ServerStep d h
          (record h { mesh = create_invite d.server.hash_code code ip ttl_secs now h.mesh })
  cleans :
      (now : ℕ) (h : Hub)
      → ServerStep d h (record h { auth = sweep d.server.route_ttl_sec now h.auth })

pub data ServerReach (d : Desk) : Hub → Type 0 where
  opens :
      (now : ℕ) (m : MeshConfig) {h : Hub}
      → IsConsistent m
      → start d.server.sigs now m ≡ ok h
      → ServerReach d h
  then_step : {h h' : Hub} → ServerReach d h → ServerStep d h h' → ServerReach d h'

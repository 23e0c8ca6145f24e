-- ===== src/Server/Running/Reached.antt =====
-- Every state that the server of linkmesh-server/src/signaling.rs reaches is in order.
use link_mesh.Base.{
  ℕ, ◌≡◌, refl, subst, ◌+◌, ◌^◌, ◌<◌, Text, ok, bytes_eq, arith, >>=-eq-ok, ok-injective,
}
use link_mesh.Shared.Cert.{RevokeReason}
use link_mesh.Server.Mesh.{MeshConfig, revoke, create_invite}
use link_mesh.Server.Mesh.Members.{IsConsistent, IsConsistent-revoke}
use link_mesh.Server.Routes.Expiry.{IsSoundTable-empty}
use link_mesh.Server.Desk.{Desk, Hub, Arrival, handle_keyquery}
use link_mesh.Server.Running.{
  ServerStep, receives, revokes, invites, cleans, ServerReach, opens, then_step, revoke_device,
  opening,
}
use link_mesh.Server.Running.Orderly.{IsOrderly-kick_device}
use link_mesh.Server.Running.Moves.{IsOrderly-sweep}
use link_mesh.Server.Running.Root.{KeepsRoot-revoke}
use link_mesh.Server.Running.Answers.{fresh_answer, IsCurrent-KeepsRoot, handle_keyquery_lem}
use link_mesh.Server.Running.Start.{start-eq-ok}
use link_mesh.Server.Running.Safe.{IsSafe, IsSafe-handle}

IsSafe-revoke_device :
    (d : Desk) (device_id : Text) (reason : RevokeReason) (now : ℕ) (h h' : Hub)
    → IsSafe d h
    → h.mesh.crl.version + 1 < 2 ^ 64
    → revoke_device d device_id reason now h ≡ ok h'
    → IsSafe d h'
unfolding revoke_device
IsSafe-revoke_device d device_id reason now h h' safe fits e =
    let (m', revoked, e') = >>=-eq-ok (revoke d.server.sigs device_id reason now h.mesh) _ e in
    let (consistent, _, _, _, _) =
      IsConsistent-revoke d.server.sigs device_id reason now h.mesh m' safe.consistent fits
        revoked in
    subst (IsSafe d) (ok-injective e') (record {
      orderly = IsOrderly-kick_device device_id h.auth.session_state safe.orderly;
      consistent = consistent;
      current =
          IsCurrent-KeepsRoot d.server h.mesh m' h.serverinfo_cache
            (KeepsRoot-revoke d.server.sigs device_id reason now h.mesh m' revoked) safe.current;
    })

IsSafe-step : (d : Desk) {h h' : Hub} → ServerStep d h h' → IsSafe d h → IsSafe d h'
unfolding create_invite
IsSafe-step d (receives a entries packet h) safe = IsSafe-handle d a entries packet h safe
IsSafe-step d (revokes device_id reason now {h} {h'} fits e) safe =
    IsSafe-revoke_device d device_id reason now h h' safe fits e
IsSafe-step d (invites code ip ttl_secs now h) safe = record {
  orderly = safe.orderly;
  consistent = record {
    distinct = safe.consistent.distinct;
    none_revoked = safe.consistent.none_revoked;
    crl_fits = safe.consistent.crl_fits;
  };
  current =
      IsCurrent-KeepsRoot d.server h.mesh
        (create_invite d.server.hash_code code ip ttl_secs now h.mesh) h.serverinfo_cache
        (record { same_id = refl; same_seed = refl }) safe.current;
}
IsSafe-step d (cleans now h) safe = record {
  orderly = IsOrderly-sweep d.server.route_ttl_sec now h.auth safe.orderly;
  consistent = safe.consistent;
  current = safe.current;
}

IsSafe-opening : (d : Desk) (m : MeshConfig) → IsConsistent m → IsSafe d (opening m)
IsSafe-opening d m consistent = record {
  orderly = record {
    bounded = record { once = tt; total = omega arith; per_device = λ e. omega arith };
    covers = λ ik has. cc;
    sound = IsSoundTable-empty;
  };
  consistent = consistent;
  current = tt;
}

-- In every state that the server reaches from its start with a mesh whose members are distinct and
-- not revoked, by packets of any bytes from anyone, revocations (while versions fit 64 bits), new invites and
-- rounds of the cleanup, in any order: the session table is within its bounds, every session's
-- device may relay, the indexes of the routes agree, the members are distinct, have distinct
-- addresses and are not revoked, and the kept answer to KEYQUERY is the one of the version of the
-- list that it is kept with (which a revocation leaves behind).
pub reachable-IsSafe : (d : Desk) (h : Hub) → ServerReach d h → IsSafe d h
reachable-IsSafe d h (opens now m consistent started) =
    start-eq-ok (IsSafe d) d.server.sigs now m h started (IsSafe-opening d m consistent)
reachable-IsSafe d _ (then_step r s) = IsSafe-step d s (reachable-IsSafe d _ r)

-- In every state that the server reaches, KEYQUERY is answered from what is kept exactly as it
-- would be answered without, by the information of the server, signed anew.
pub keyquery_answer_is_fresh :
    (d : Desk) (a : Arrival) (h : Hub)
    → ServerReach d h
    → (handle_keyquery d a h).1 ≡ fresh_answer d a h.mesh
keyquery_answer_is_fresh d a h r = (handle_keyquery_lem d a h (reachable-IsSafe d h r).current).0

-- ===== src/Server/Running/Start.antt =====
-- Which meshes `Signaling::new` of linkmesh-server/src/signaling.rs starts with.
use link_mesh.Base.{
  ℕ, ◌+◌, ◌^◌, ◌<◌, ◌≡◌, subst, Text, ok, >>=-eq-ok, ok-injective, Fails, Fails-first,
}
use link_mesh.Shared.Cert.{Signatures, DeviceCert}
use link_mesh.Server.Mesh.{MeshConfig, issue_cert, cert_validity_secs}
use link_mesh.Server.Mesh.Integrity.{verify_integrity, issue_cert-outdated}
use link_mesh.Server.Desk.{Hub}
use link_mesh.Server.Running.{start, opening}

-- The state at the start.
pub start-eq-ok :
    (P : Hub → Type 0) (sigs : Signatures) (now : ℕ) (m : MeshConfig) (h : Hub)
    → start sigs now m ≡ ok h
    → P (opening m)
    → P h
unfolding start
start-eq-ok P sigs now m h e p =
    let (_, _, e') = >>=-eq-ok (verify_integrity sigs now m) _ e in subst P (ok-injective e') p

-- When the 365 days of the certificate of an admitted device are over (while times fit 64 bits),
-- the server refuses to start with the mesh that the device was admitted to.
pub admitted_member_stops_start :
    (sigs : Signatures) (ik_x ik_s_pub ip device_id : Text) (now later : ℕ) (m : MeshConfig)
    (r : DeviceCert × MeshConfig)
    → issue_cert sigs ik_x ik_s_pub ip device_id now m ≡ ok r
    → now + cert_validity_secs < 2 ^ 64
    → now + cert_validity_secs < later
    → Fails (start sigs later r.1)
unfolding start
admitted_member_stops_start sigs ik_x ik_s_pub ip device_id now later m r h fits over =
    Fails-first (verify_integrity sigs later r.1) _
      (issue_cert-outdated sigs ik_x ik_s_pub ip device_id now later m r h fits over)

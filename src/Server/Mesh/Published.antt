-- ===== src/Server/Mesh/Published.antt =====
-- The revocation list of linkmesh-server/src/mesh.rs in the answers that carry it: `revoke` keeps it
-- within what linkmesh-shared/src/wire.rs can encode.
use link_mesh.Base.{
  ℕ, ◌+◌, ◌%◌, ◌^◌, ◌<◌, ◌≡◌, refl, subst, none, [], ◌∷◌, ◌++◌, Bytes, Text, true, arith, length,
  length-append, ltb, leb, not, All-append, ok, ◌>>=◌, guard, >>=-eq-ok, guard-eq-ok, ok-injective,
  Fails, Fails-bind, Fails-first,
}
use link_mesh.Shared.Cert.{Signatures, CrlEntry, Crl, RevokeReason, is_revoked}
use link_mesh.Shared.Cert.Statements.{sign_crl, crl_bytes}
use link_mesh.Shared.Bodies.{AuthRespBody}
use link_mesh.Shared.Wire.{too_many_entries, b64_bytes, encode_impl}
use link_mesh.Shared.Wire.Texts.{IsKeyText}
use link_mesh.Shared.Wire.Certs.{crl_from_domain}
use link_mesh.Shared.Wire.Certs.Carried.{IsWireEntry, IsWireCrl}
use link_mesh.Shared.Wire.Handshake.{fill_auth_resp, encode_auth_resp, decode_auth_resp}
use link_mesh.Shared.Wire.Handshake.RoundTrip.{IsWireAuthResp, auth_resp_round_trip}
use link_mesh.Server.Mesh.{MeshConfig, revoke, already_revoked, crl_full, max_crl_entries}

module _ (sigs : Signatures) where
  signed_list :
      (seed : Bytes) (c : Crl) → IsKeyText sigs 64 (sigs.encode (sigs.sign seed (crl_bytes c)))
  signed_list seed c = record {
    raw = sigs.sign seed (crl_bytes c);
    size = sigs.length-sign seed (crl_bytes c);
    text = refl;
  }

  pub revoke-IsWireCrl :
      (device_id : Text) (reason : RevokeReason) (now : ℕ) (m m' : MeshConfig)
      → IsWireCrl sigs m.crl
      → IsKeyText sigs 32 device_id
      → now < 2 ^ 64
      → revoke sigs device_id reason now m ≡ ok m'
      → IsWireCrl sigs m'.crl
  unfolding revoke sign_crl
  revoke-IsWireCrl device_id reason now m m' h key in_time e =
      let (u, new, e1) = >>=-eq-ok (guard (not (is_revoked m.crl device_id)) already_revoked) _ e in
      let (v, room, e2) =
        >>=-eq-ok (guard (not (leb max_crl_entries (length m.crl.entries))) crl_full) _ e1 in
      let entry : CrlEntry = record {
        device_id = device_id;
        reason = reason;
        revoked_at = now;
        replacement = none;
      } in
      subst (λ x. IsWireCrl sigs x.crl) (ok-injective e2)
        (record {
          mesh_id = h.mesh_id;
          version = omega arith;
          few = ground (
            arith,
            guard-eq-ok (not (leb max_crl_entries (length m.crl.entries))) crl_full room,
            length-append m.crl.entries (entry ∷ []),
          );
          entries =
              All-append (IsWireEntry sigs) m.crl.entries (entry ∷ []) h.entries
                (record { device_id = key; revoked_at = in_time; replacement = tt }, tt);
          signature = signed_list m.root_seed (record m.crl {
            version = (m.crl.version + 1) % 2 ^ 64;
            entries = m.crl.entries ++ entry ∷ [];
          });
        })

  -- The answer to an AUTH that carries the list of a mesh, while the list is within the limits, can
  -- still be sent and read after a revocation of a device whose identity is the base64 of 32 bytes.
  pub revoked_list_is_sent :
      (device_id : Text) (reason : RevokeReason) (now : ℕ) (m m' : MeshConfig) (r : AuthRespBody)
      → IsWireAuthResp sigs r
      → IsWireCrl sigs m.crl
      → IsKeyText sigs 32 device_id
      → now < 2 ^ 64
      → revoke sigs device_id reason now m ≡ ok m'
      → (encode_auth_resp sigs (record r { crl = m'.crl }) >>= decode_auth_resp sigs)
        ≡ ok (record r { crl = m'.crl })
  revoked_list_is_sent device_id reason now m m' r hr h key in_time e =
      auth_resp_round_trip sigs (record r { crl = m'.crl })
        (record {
          ek_s = hr.ek_s;
          session_id = hr.session_id;
          crl = revoke-IsWireCrl device_id reason now m m' h key in_time e;
          server_info = hr.server_info;
          allocated_ip = hr.allocated_ip;
        })

  long_list : (c : Crl) → 256 < length c.entries → Fails (crl_from_domain sigs c)
  unfolding crl_from_domain
  long_list c long =
      let full : ltb 256 (length c.entries) ≡ true = ground arith in (too_many_entries, rw full)

  -- An answer whose list has more than 256 entries cannot be encoded, whatever the rest of it is.
  pub long_list_is_refused :
      (r : AuthRespBody) → 256 < length r.crl.entries → Fails (encode_auth_resp sigs r)
  unfolding encode_auth_resp fill_auth_resp encode_impl
  long_list_is_refused r long = Fails-first (fill_auth_resp sigs r) _ (
      Fails-bind (b64_bytes sigs 32 r.ek_s) _ λ _.
        Fails-bind (b64_bytes sigs 16 r.session_id) _
          λ _. Fails-first (crl_from_domain sigs r.crl) _ (long_list r.crl long))

-- ===== src/Shared/Wire/Certs/Strict.antt =====
-- The certificates, server information and revocation lists that linkmesh-shared/src/wire.rs lets
-- through are well-formed.
use link_mesh.Base.{
  ◌≡◌, Option, none, some, List, [], ◌∷◌, take, arith, length, ltb, not, All, All-take, length-take,
  ok_or, Ensures, returns, refuses, Ensures-bind, Ensures-guard,
}
use link_mesh.Shared.Cert.{Signatures, RevokeReason}
use link_mesh.Shared.Wire.{ip_len, name_len, max_crl_entries, bad_reason}
use link_mesh.Shared.Wire.Strict.{to_str-Ensures, encode-IsKeyText, get_opt_key-IsKeyText}
use link_mesh.Shared.Wire.Certs.{
  WireDeviceCert, device_cert_layout, cert_to_domain, WireServerInfo, server_info_layout,
  info_to_domain, WireCrlEntry, crl_entry_layout, reason_from_u8, entry_to_domain, WireCrl,
  crl_layout, entries_to_domain, crl_to_domain,
}
use link_mesh.Shared.Wire.Certs.Carried.{IsWireCert, IsWireInfo, IsWireEntry, IsWireCrl}

module _ (sigs : Signatures) where
  pub cert-Ensures :
      (w : WireDeviceCert)
      → device_cert_layout.Fits w
      → Ensures (IsWireCert sigs) (cert_to_domain sigs w)
  unfolding cert_to_domain
  cert-Ensures w (f0, (f1, (f2, (f3, (f4, (f5, (f6, (f7, (f8, f9))))))))) =
      Ensures-bind (to_str-Ensures name_len w.mesh_id f0) λ _ mesh_id.
        Ensures-bind (to_str-Ensures ip_len w.allowed_ip f5) λ _ allowed_ip. returns (record {
          mesh_id = mesh_id;
          version = f1;
          device_id = encode-IsKeyText sigs 32 w.device_id f2;
          ik_x = encode-IsKeyText sigs 32 w.ik_x f3;
          ik_s_pub = encode-IsKeyText sigs 32 w.ik_s_pub f4;
          allowed_ip = allowed_ip;
          valid_from = f6;
          not_after = f7;
          signature = get_opt_key-IsKeyText sigs 64 w.has_signature w.signature f9;
        })

  pub info-Ensures :
      (w : WireServerInfo)
      → server_info_layout.Fits w
      → Ensures (IsWireInfo sigs) (info_to_domain sigs w)
  unfolding info_to_domain
  info-Ensures w (f0, (f1, (f2, (f3, (f4, (f5, (f6, (f7, (f8, f9))))))))) =
      Ensures-bind (to_str-Ensures name_len w.mesh_id f0) λ _ mesh_id.
        Ensures-bind (to_str-Ensures name_len w.server_name f1) λ _ server_name. returns (record {
          mesh_id = mesh_id;
          server_name = server_name;
          mesh_root_pub = encode-IsKeyText sigs 32 w.mesh_root_pub f2;
          server_ik_x = encode-IsKeyText sigs 32 w.server_ik_x f3;
          server_ik_s_pub = encode-IsKeyText sigs 32 w.server_ik_s_pub f4;
          protocol_ver = f5;
          crl_version = f6;
          signature = get_opt_key-IsKeyText sigs 64 w.has_signature w.signature f9;
        })

  entry-Ensures :
      (w : WireCrlEntry)
      → crl_entry_layout.Fits w
      → Ensures (IsWireEntry sigs) (entry_to_domain sigs w)
  unfolding entry_to_domain
  entry-Ensures w (f0, (f1, (f2, (f3, f4)))) =
      Ensures-bind (any_reason (reason_from_u8 w.reason)) λ _ _. returns (record {
        device_id = encode-IsKeyText sigs 32 w.device_id f0;
        revoked_at = f2;
        replacement = get_opt_key-IsKeyText sigs 32 w.has_replacement w.replacement f4;
      })
    where
      any_reason : (o : Option RevokeReason) → Ensures (λ _. Unit {0}) (ok_or o bad_reason)
      any_reason none = refuses
      any_reason (some r) = returns tt

  entries-Ensures :
      (ws : List WireCrlEntry)
      → All crl_entry_layout.Fits ws
      → Ensures
          (λ es. All (IsWireEntry sigs) es × (length es ≡ length ws))
          (entries_to_domain sigs ws)
  unfolding entries_to_domain
  entries-Ensures [] h = returns (tt, omega arith)
  entries-Ensures (w ∷ ws) h = Ensures-bind (entry-Ensures w h.0) λ _ first.
      Ensures-bind (entries-Ensures ws h.1)
        λ _ rest. returns ((first, rest.0), omega (arith, rest.1))

  pub crl-Ensures :
      (w : WireCrl) → crl_layout.Fits w → Ensures (IsWireCrl sigs) (crl_to_domain sigs w)
  unfolding crl_to_domain
  crl-Ensures w (f0, (f1, (f2, (f3, (f4, f5))))) =
      Ensures-bind (Ensures-guard (not (ltb max_crl_entries w.count)) _) λ _ few.
        Ensures-bind
          (entries-Ensures (take w.count w.entries)
            (All-take crl_entry_layout.Fits w.count w.entries f3.1))
          λ _ entries. Ensures-bind (to_str-Ensures name_len w.mesh_id f0) λ _ mesh_id.
            returns (record {
              mesh_id = mesh_id;
              version = f1;
              few = omega (arith, entries.1, f3.0, length-take w.count w.entries);
              entries = entries.0;
              signature = get_opt_key-IsKeyText sigs 64 w.has_signature w.signature f5;
            })

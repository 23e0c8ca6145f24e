-- ===== src/Shared/Wire/Certs/Carried.antt =====
-- Certificates, the information of the server and revocation lists survive the structures of
-- linkmesh-shared/src/wire.rs.
use link_mesh.Base.{
  ℕ, zero, suc, ◌-◌, ◌%◌, ◌^◌, ◌≤◌, ◌<◌, ◌≡◌, refl, some, List, [], ◌∷◌, ◌++◌, Bool, true, false,
  arith, length, length-append, take-append_of, replicate, length-replicate, All, All-append, ltb,
  eqb, not,
}
use link_mesh.Shared.Cert.{
  Signatures, DeviceCert, RevokeReason, compromised, leaked, rotated, admin, discontinued, CrlEntry,
  Crl,
}
use link_mesh.Shared.Cert.Statements.{ServerInfo}
use link_mesh.Shared.Wire.{ip_len, name_len, max_crl_entries}
use link_mesh.Shared.Wire.Texts.{
  IsWireText, IsKeyText, OnSome, Carries, set-Carries, b64_bytes-Carries, put_opt_key-Carries,
}
use link_mesh.Shared.Wire.Certs.{
  device_cert_layout, cert_from_domain, cert_to_domain, server_info_layout, bool_byte,
  info_from_domain, info_to_domain, crl_entry_layout, reason_to_u8, reason_from_u8,
  entry_from_domain, entry_to_domain, crl_layout, blank_entry, entries_from_domain,
  entries_to_domain, crl_from_domain, crl_to_domain,
}

module _ (sigs : Signatures) where
  pub record IsWireCert (c : DeviceCert) : Type 0 where
    pub mesh_id : IsWireText name_len c.mesh_id
    pub version : c.version < 2 ^ 32
    pub device_id : IsKeyText sigs 32 c.device_id
    pub ik_x : IsKeyText sigs 32 c.ik_x
    pub ik_s_pub : IsKeyText sigs 32 c.ik_s_pub
    pub allowed_ip : IsWireText ip_len c.allowed_ip
    pub valid_from : c.valid_from < 2 ^ 64
    pub not_after : c.not_after < 2 ^ 64
    pub signature : OnSome (IsKeyText sigs 64) c.signature

  pub cert-Carries :
      (c : DeviceCert)
      → IsWireCert c
      → Carries (cert_from_domain sigs) device_cert_layout.Fits (cert_to_domain sigs) c
  unfolding cert_from_domain cert_to_domain
  cert-Carries c h =
      let (mesh_id, p0, f0, q0) = set-Carries name_len c.mesh_id h.mesh_id in
      let (device_id, p1, f1, q1) = b64_bytes-Carries sigs 32 c.device_id h.device_id in
      let (ik_x, p2, f2, q2) = b64_bytes-Carries sigs 32 c.ik_x h.ik_x in
      let (ik_s_pub, p3, f3, q3) = b64_bytes-Carries sigs 32 c.ik_s_pub h.ik_s_pub in
      let (allowed_ip, p4, f4, q4) = set-Carries ip_len c.allowed_ip h.allowed_ip in
      let (sig, p5, f5, q5) = put_opt_key-Carries sigs 64 c.signature h.signature in
      (
        record {
          mesh_id = mesh_id;
          version = c.version;
          device_id = device_id;
          ik_x = ik_x;
          ik_s_pub = ik_s_pub;
          allowed_ip = allowed_ip;
          valid_from = c.valid_from;
          not_after = c.not_after;
          has_signature = sig.0;
          signature = sig.1;
        },
        rw (p0, p1, p2, p3, p4, p5),
        (f0, (h.version, (f1, (f2, (f3, (f4, (h.valid_from, (h.not_after, (tt, f5))))))))),
        rw (q0, q4) (cc),
      )

  pub record IsWireInfo (s : ServerInfo) : Type 0 where
    pub mesh_id : IsWireText name_len s.mesh_id
    pub server_name : IsWireText name_len s.server_name
    pub mesh_root_pub : IsKeyText sigs 32 s.mesh_root_pub
    pub server_ik_x : IsKeyText sigs 32 s.server_ik_x
    pub server_ik_s_pub : IsKeyText sigs 32 s.server_ik_s_pub
    pub protocol_ver : s.protocol_ver < 2 ^ 32
    pub crl_version : s.crl_version < 2 ^ 64
    pub signature : OnSome (IsKeyText sigs 64) s.signature

  bool_byte_back : (b : Bool) → not (eqb (bool_byte b) 0) ≡ b
  bool_byte_back false = refl
  bool_byte_back true = refl

  pub info-Carries :
      (s : ServerInfo)
      → IsWireInfo s
      → Carries (info_from_domain sigs) server_info_layout.Fits (info_to_domain sigs) s
  unfolding info_from_domain info_to_domain
  info-Carries s h =
      let (mesh_id, p0, f0, q0) = set-Carries name_len s.mesh_id h.mesh_id in
      let (server_name, p1, f1, q1) = set-Carries name_len s.server_name h.server_name in
      let (root, p2, f2, q2) = b64_bytes-Carries sigs 32 s.mesh_root_pub h.mesh_root_pub in
      let (ik_x, p3, f3, q3) = b64_bytes-Carries sigs 32 s.server_ik_x h.server_ik_x in
      let (ik_s, p4, f4, q4) = b64_bytes-Carries sigs 32 s.server_ik_s_pub h.server_ik_s_pub in
      let (sig, p5, f5, q5) = put_opt_key-Carries sigs 64 s.signature h.signature in
      (
        record {
          mesh_id = mesh_id;
          server_name = server_name;
          mesh_root_pub = root;
          server_ik_x = ik_x;
          server_ik_s_pub = ik_s;
          protocol_ver = s.protocol_ver;
          crl_version = s.crl_version;
          auth_required = bool_byte s.auth_required;
          has_signature = sig.0;
          signature = sig.1;
        },
        rw (p0, p1, p2, p3, p4, p5),
        (f0, (f1, (f2, (f3, (f4, (h.protocol_ver, (h.crl_version, (tt, (tt, f5))))))))),
        rw (q0, q1, bool_byte_back s.auth_required) (cc),
      )

  pub record IsWireEntry (e : CrlEntry) : Type 0 where
    pub device_id : IsKeyText sigs 32 e.device_id
    pub revoked_at : e.revoked_at < 2 ^ 64
    pub replacement : OnSome (IsKeyText sigs 32) e.replacement

  reason_back : (r : RevokeReason) → reason_from_u8 (reason_to_u8 r) ≡ some r
  reason_back compromised = refl
  reason_back leaked = refl
  reason_back rotated = refl
  reason_back admin = refl
  reason_back discontinued = refl

  entry-Carries :
      (e : CrlEntry)
      → IsWireEntry e
      → Carries (entry_from_domain sigs) crl_entry_layout.Fits (entry_to_domain sigs) e
  unfolding entry_from_domain entry_to_domain
  entry-Carries e h =
      let (device_id, p0, f0, q0) = b64_bytes-Carries sigs 32 e.device_id h.device_id in
      let (new, p1, f1, q1) = put_opt_key-Carries sigs 32 e.replacement h.replacement in
      (
        record {
          device_id = device_id;
          reason = reason_to_u8 e.reason;
          revoked_at = e.revoked_at;
          has_replacement = new.0;
          replacement = new.1;
        },
        rw (p0, p1),
        (f0, (tt, (h.revoked_at, (tt, f1)))),
        rw (reason_back e.reason) (cc),
      )

  entries-Carries :
      (es : List CrlEntry)
      → All IsWireEntry es
      → Carries
          (entries_from_domain sigs)
          (λ ws. (length ws ≡ length es) × All crl_entry_layout.Fits ws)
          (entries_to_domain sigs)
          es
  unfolding entries_from_domain entries_to_domain
  entries-Carries [] h = ([], refl, (refl, tt), refl)
  entries-Carries (e ∷ es) h =
      let (w, p0, f0, q0) = entry-Carries e h.0 in
      let (ws, p1, f1, q1) = entries-Carries es h.1 in
      (w ∷ ws, rw (p0, p1), (omega (arith, f1.0), (f0, f1.1)), rw (q0, q1))

  blanks_fit : (n : ℕ) → All crl_entry_layout.Fits (replicate n blank_entry)
  blanks_fit zero = tt
  blanks_fit (suc n) = ((refl, (tt, (omega arith, (tt, refl)))), blanks_fit n)

  pub record IsWireCrl (c : Crl) : Type 0 where
    pub mesh_id : IsWireText name_len c.mesh_id
    pub version : c.version < 2 ^ 64
    pub few : length c.entries ≤ max_crl_entries
    pub entries : All IsWireEntry c.entries
    pub signature : OnSome (IsKeyText sigs 64) c.signature

  pub crl-Carries :
      (c : Crl)
      → IsWireCrl c
      → Carries (crl_from_domain sigs) crl_layout.Fits (crl_to_domain sigs) c
  unfolding crl_from_domain crl_to_domain
  crl-Carries c h =
      let (mesh_id, p0, f0, q0) = set-Carries name_len c.mesh_id h.mesh_id in
      let (ws, p1, f1, q1) = entries-Carries c.entries h.entries in
      let (sig, p2, f2, q2) = put_opt_key-Carries sigs 64 c.signature h.signature in
      let blanks = replicate (max_crl_entries - length ws) blank_entry in
      let room : ltb max_crl_entries (length c.entries) ≡ false = ground (arith, h.few) in
      let count : length c.entries % 2 ^ 16 ≡ length c.entries = omega (arith, h.few) in
      let full : length (ws ++ blanks) ≡ max_crl_entries = omega (
        arith,
        h.few,
        f1.0,
        length-append ws blanks,
        length-replicate (max_crl_entries - length ws) blank_entry,
      ) in
      (
        record {
          mesh_id = mesh_id;
          version = c.version;
          count = length c.entries % 2 ^ 16;
          entries = ws ++ blanks;
          has_signature = sig.0;
          signature = sig.1;
        },
        rw (room, p0, p1, p2),
        (
          f0,
          (
            h.version,
            (
              omega arith,
              ((full, All-append crl_entry_layout.Fits ws blanks f1.1 (blanks_fit _)), (tt, f2)),
            ),
          ),
        ),
        rw (count, room, take-append_of (length c.entries) ws blanks f1.0, q1, q0) (cc),
      )

-- ===== src/Client/Handshake/Pinned.antt =====
-- What the client of linkmesh-client/src/connection.rs believes of a server after AUTH.
use link_mesh.Base.{
  ℕ, ◌≤◌, ◌≡◌, refl, Option, none, some, Bytes, Text, Bool, false, arith, inl, inr, Bool-cases,
  Result-cases, eqb, length, ◌==◌, bytes_eq, Result, ok,
}
use link_mesh.Shared.Crypto.{Primitives, RawKey}
use link_mesh.Shared.Cert.{Signatures, parse_public_key, b64_to}
use link_mesh.Shared.Cert.Statements.{verify_server_info}
use link_mesh.Shared.Bodies.{AuthRespBody}
use link_mesh.Client.Handshake.{
  Account, AuthFault, goes_back, lists_own, check_server_info, check_pinned, finish_auth,
}

-- A version of the revocation list that is at least as new as another, if there was one.
abbrev pub IsAtLeast : Option ℕ → Option ℕ → Type 0
IsAtLeast none new = Unit
IsAtLeast (some old) none = ⊥
IsAtLeast (some old) (some new) = old ≤ new

IsAtLeast-refl : (v : Option ℕ) → IsAtLeast v v
IsAtLeast-refl none = tt
IsAtLeast-refl (some v) = omega arith

IsAtLeast-goes_back : (v : Option ℕ) (new : ℕ) → goes_back v new ≡ false → IsAtLeast v (some new)
IsAtLeast-goes_back none new h = tt
IsAtLeast-goes_back (some old) new h = ground (arith, h)

-- What was checked when the checks pass.
pub record IsVerified (sigs : Signatures) (resp : AuthRespBody) (root_b64 : Text) (c c' : Account)
    : Type 0 where
  pub root_pub : Bytes
  pub root_read : b64_to sigs 32 root_b64 ≡ ok root_pub
  pub signed : verify_server_info sigs root_pub resp.server_info ≡ ok tt
  pub same_root : resp.server_info.mesh_root_pub ≡ root_b64
  pub no_older : IsAtLeast c.crl_version (some resp.server_info.crl_version)
  pub not_revoked : lists_own resp.crl c.device_cert ≡ false
  pub kept : c'.crl_version ≡ some resp.server_info.crl_version

-- A result of the checks, whatever it is.
pub record IsChecked (sigs : Signatures) (resp : AuthRespBody) (root_b64 : Text) (c : Account)
    (r : Account × Result AuthFault (Unit {0})) : Type 0 where
  pub sk_kept : r.0.session_sk ≡ c.session_sk
  pub newer : IsAtLeast c.crl_version r.0.crl_version
  pub verified : r.1 ≡ ok tt → IsVerified sigs resp root_b64 c r.0

pub check_server_info-IsChecked :
    (sigs : Signatures) (resp : AuthRespBody) (root_b64 : Text) (c : Account)
    → IsChecked sigs resp root_b64 c (check_server_info sigs resp root_b64 c)
unfolding check_server_info
check_server_info-IsChecked sigs resp root_b64 c =
    let si = resp.server_info in
    elim (Result-cases (b64_to sigs 32 root_b64)) [
      | inr (e, bad) ↦
          rw (check_server_info, bad)
            (record { sk_kept = refl; newer = IsAtLeast-refl c.crl_version; verified = λ h. cc })
      | inl (root_pub, read) ↦ elim (Result-cases (verify_server_info sigs root_pub si)) [
        | inr (e, bad) ↦
            rw (check_server_info, read, bad)
              (record { sk_kept = refl; newer = IsAtLeast-refl c.crl_version; verified = λ h. cc })
        | inl (u, signed) ↦ elim (Bool-cases (si.mesh_root_pub == root_b64)) [
          | inr other ↦
              rw (check_server_info, read, signed, other)
                (record {
                  sk_kept = refl;
                  newer = IsAtLeast-refl c.crl_version;
                  verified = λ h. cc;
                })
          | inl same ↦ elim (Bool-cases (goes_back c.crl_version si.crl_version)) [
            | inl back ↦
                rw (check_server_info, read, signed, same, back)
                  (record {
                    sk_kept = refl;
                    newer = IsAtLeast-refl c.crl_version;
                    verified = λ h. cc;
                  })
            | inr onward ↦
                let newer = IsAtLeast-goes_back c.crl_version si.crl_version onward in
                elim (Bool-cases (lists_own resp.crl c.device_cert)) [
                  | inl listed ↦
                      rw (check_server_info, read, signed, same, onward, listed)
                        (record { sk_kept = refl; newer = newer; verified = λ h. cc })
                  | inr live ↦
                      rw (check_server_info, read, signed, same, onward, live)
                        (record {
                          sk_kept = refl;
                          newer = newer;
                          verified = λ h. record {
                            root_pub = root_pub;
                            root_read = read;
                            signed = signed;
                            same_root = (bytes_eq.beq_iff si.mesh_root_pub root_b64).0 same;
                            no_older = newer;
                            not_revoked = live;
                            kept = refl;
                          };
                        })
                ]
          ]
        ]
      ]
    ]

check_pinned-newer :
    (sigs : Signatures) (resp : AuthRespBody) (root : Option Text) (c : Account)
    → IsAtLeast c.crl_version (check_pinned sigs resp root c).0.crl_version
check_pinned-newer sigs resp none c = IsAtLeast-refl c.crl_version
check_pinned-newer sigs resp (some root_b64) c =
    (check_server_info-IsChecked sigs resp root_b64 c).newer

-- Whatever a server answers, and however the handshake ends: the version of the revocation list
-- that the client remembers never gets older.
pub crl_version_never_goes_back :
    (sigs : Signatures) (prim : Primitives) (is_ip : Text → Bool) (local_priv server_pub : RawKey)
    (ek_c nonce : Bytes) (resp : AuthRespBody) (c : Account)
    → IsAtLeast c.crl_version
        (finish_auth sigs prim is_ip local_priv server_pub ek_c nonce resp c).0.crl_version
unfolding finish_auth
crl_version_never_goes_back sigs prim is_ip local_priv server_pub ek_c nonce resp c =
    elim (Result-cases (parse_public_key sigs resp.ek_s)) [
      | inr (e, bad) ↦ rw (finish_auth, bad) (IsAtLeast-refl c.crl_version)
      | inl (ek_s, good) ↦ elim (Bool-cases (eqb (length resp.allocated_ip) 0)) [
        | inl blank ↦ rw (finish_auth, good, blank) (IsAtLeast-refl c.crl_version)
        | inr given ↦ elim (Bool-cases (is_ip resp.allocated_ip)) [
          | inr is_none ↦ rw (finish_auth, good, given, is_none) (IsAtLeast-refl c.crl_version)
          | inl is_one ↦
              rw (finish_auth, good, given, is_one) (check_pinned-newer sigs resp c.mesh_root_pub _)
        ]
      ]
    ]

-- When the client holds a root and the handshake ends well, the information of the server bears
-- the signature of this root and names it; the version of the revocation list that the information
-- tells is not below the one that the client remembered, and is remembered now; and the list that
-- came with the answer, whatever its own version and signature, does not name the client.
pub finish_auth-IsVerified :
    (sigs : Signatures) (prim : Primitives) (is_ip : Text → Bool) (local_priv server_pub : RawKey)
    (ek_c nonce : Bytes) (resp : AuthRespBody) (c : Account) (root_b64 : Text)
    → c.mesh_root_pub ≡ some root_b64
    → (finish_auth sigs prim is_ip local_priv server_pub ek_c nonce resp c).1 ≡ ok tt
    → IsVerified sigs resp root_b64 c
        (finish_auth sigs prim is_ip local_priv server_pub ek_c nonce resp c).0
unfolding finish_auth
finish_auth-IsVerified sigs prim is_ip local_priv server_pub ek_c nonce resp c root_b64 pinned e =
    elim (Result-cases (parse_public_key sigs resp.ek_s)) [
      | inr (why, bad) ↦ (let e' = rw (finish_auth, bad) at e in cc)
      | inl (ek_s, good) ↦ elim (Bool-cases (eqb (length resp.allocated_ip) 0)) [
        | inl blank ↦ (let e' = rw (finish_auth, good, blank) at e in cc)
        | inr given ↦ elim (Bool-cases (is_ip resp.allocated_ip)) [
          | inr is_none ↦ (let e' = rw (finish_auth, good, given, is_none) at e in cc)
          | inl is_one ↦
              let e' = rw (finish_auth, good, given, is_one, pinned) at e in
              let v = (check_server_info-IsChecked sigs resp root_b64 _).verified e' in
              rw (finish_auth, good, given, is_one, pinned)
                (record {
                  root_pub = v.root_pub;
                  root_read = v.root_read;
                  signed = v.signed;
                  same_root = v.same_root;
                  no_older = v.no_older;
                  not_revoked = v.not_revoked;
                  kept = v.kept;
                })
        ]
      ]
    ]

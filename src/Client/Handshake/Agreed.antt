-- ===== src/Client/Handshake/Agreed.antt =====
-- The client of linkmesh-client/src/connection.rs and the server of
-- linkmesh-server/src/signaling.rs have the same session after AUTH.
use link_mesh.Base.{
  ℕ, ◌≡◌, ◌∙◌, refl, sym, ap, Option, none, some, List, Bytes, Text, Bool, inl, inr, Bool-cases,
  eqb, length, bytes_eq, ok, ok-injective,
}
use link_mesh.Shared.Crypto.{
  Primitives, RawKey, generate_keypair, derive_session_key_client, derive_session_key_server,
}
use link_mesh.Shared.Crypto.Agreement.{session_key_agreement}
use link_mesh.Shared.Cert.{Signatures, DeviceCert, parse_public_key}
use link_mesh.Shared.Cert.Signed.{b64_to-encode}
use link_mesh.Shared.Bodies.{AuthRespBody}
use link_mesh.Server.Library.{Library}
use link_mesh.Server.Rooms.{RoomEntry}
use link_mesh.Server.Mesh.{MeshConfig}
use link_mesh.Server.Sessions.{SessionEntry}
use link_mesh.Server.Auth.{AuthState, admitted, handle_auth, new_session}
use link_mesh.Server.Auth.Admission.{handle_auth-IsAuthorized}
use link_mesh.Client.Handshake.Pinned.{check_server_info-IsChecked}
use link_mesh.Client.Handshake.{Account, check_pinned, auth_body, finish_auth}

check_pinned-sk :
    (sigs : Signatures) (resp : AuthRespBody) (root : Option Text) (c : Account)
    → (check_pinned sigs resp root c).0.session_sk ≡ c.session_sk
check_pinned-sk sigs resp none c = refl
check_pinned-sk sigs resp (some root_b64) c =
    (check_server_info-IsChecked sigs resp root_b64 c).sk_kept

-- The key that `finish_auth` keeps.
finish_auth-sk :
    (sigs : Signatures) (prim : Primitives) (is_ip : Text → Bool) (local_priv server_pub : RawKey)
    (ek_c nonce : Bytes) (resp : AuthRespBody) (c : Account) (ek_s : RawKey)
    → parse_public_key sigs resp.ek_s ≡ ok ek_s
    → (finish_auth sigs prim is_ip local_priv server_pub ek_c nonce resp c).0.session_sk
      ≡ some (derive_session_key_client prim ek_c local_priv server_pub ek_s nonce)
unfolding finish_auth generate_keypair
finish_auth-sk sigs prim is_ip local_priv server_pub ek_c nonce resp c ek_s good =
    elim (Bool-cases (eqb (length resp.allocated_ip) 0)) [
      | inl blank ↦ rw (finish_auth, good, blank) refl
      | inr given ↦ elim (Bool-cases (is_ip resp.allocated_ip)) [
        | inr is_none ↦ rw (finish_auth, good, given, is_none) refl
        | inl is_one ↦
            rw (finish_auth, good, given, is_one) (check_pinned-sk sigs resp c.mesh_root_pub _)
      ]
    ]

-- When the server admits the request of a client, and the client gets the fresh public key of the
-- server in an answer, both have the same session key, whatever else the answer says and however
-- the checks of the client end. Keys are of 32 bytes and the nonce of 12.
pub auth_keys_agree :
    (sigs : Signatures) (prim : Primitives) (lib : Library) (hash_token : Text → Text)
    (join_limit : ℕ) (server_priv : RawKey) (ek_s root_pub : Bytes) (rooms : List RoomEntry)
    (m : MeshConfig) (now : ℕ) (ip : Bytes) (ik_c ek_c nonce : Bytes) (cert : DeviceCert)
    (token : Option Text) (timestamp : ℕ) (st st' : AuthState) (s : SessionEntry)
    (is_ip : Text → Bool) (resp : AuthRespBody) (c : Account)
    → length (prim.public_of ek_c) ≡ 32
    → length (prim.public_of ek_s) ≡ 32
    → length nonce ≡ 12
    → handle_auth sigs prim lib hash_token join_limit server_priv ek_s root_pub rooms m now ip
        (prim.public_of ik_c)
        (auth_body sigs cert token (prim.public_of ek_c) timestamp nonce)
        st
      ≡ (st', admitted s)
    → resp.ek_s ≡ sigs.encode (prim.public_of ek_s)
    → (finish_auth sigs prim is_ip ik_c (prim.public_of server_priv) ek_c nonce resp c).0.session_sk
      ≡ some s.sk
unfolding parse_public_key auth_body new_session generate_keypair
auth_keys_agree sigs prim lib hash_token join_limit server_priv ek_s root_pub rooms m now ip ik_c
      ek_c nonce cert token timestamp st st' s is_ip resp c len_c len_s len_n h sent =
    let ab = auth_body sigs cert token (prim.public_of ek_c) timestamp nonce in
    let (r, authorized, entered) =
      handle_auth-IsAuthorized sigs prim lib hash_token join_limit server_priv ek_s root_pub rooms m
        now ip (prim.public_of ik_c) ab st st' s h in
    let ek_is : entered.ek_c ≡ prim.public_of ek_c =
      ok-injective (sym entered.ek_read ∙ b64_to-encode sigs 32 (prim.public_of ek_c) len_c) in
    let nonce_is : r.1 ≡ nonce =
      ok-injective (sym authorized.nonce_read ∙ b64_to-encode sigs 12 nonce len_n) in
    let server_sk : s.sk
        ≡ derive_session_key_server prim ek_s server_priv (prim.public_of ek_c)
            (prim.public_of ik_c) nonce =
      ap (λ x. x.sk) entered.is_session
      ∙ ap (λ k. derive_session_key_server prim ek_s server_priv k (prim.public_of ik_c) r.1) ek_is
      ∙ ap
          (derive_session_key_server prim ek_s server_priv (prim.public_of ek_c)
            (prim.public_of ik_c))
          nonce_is in
    finish_auth-sk sigs prim is_ip ik_c (prim.public_of server_priv) ek_c nonce resp c
      (prim.public_of ek_s)
      (ap (parse_public_key sigs) sent ∙ b64_to-encode sigs 32 (prim.public_of ek_s) len_s)
    ∙ ap some (session_key_agreement prim ek_c ik_c server_priv ek_s nonce ∙ sym server_sk)

-- ===== src/Examples/OfJoin.antt =====
-- The theorems about joining, linkmesh-server/src/signaling.rs, at concrete inputs.
use link_mesh.Base.{◌≡◌, refl, none, some, [], ◌∷◌, Text, arith, bytes_eq, true}
use link_mesh.Shared.Bodies.{JoinBody, JoinData}
use link_mesh.Shared.Cert.{DeviceCert, sign_cert}
use link_mesh.Shared.Identity.{device_id, device_id_b64}
use link_mesh.Server.Rooms.{bad_alias}
use link_mesh.Server.Mesh.{MeshConfig, peek_invite, is_member, member_cert, add_member}
use link_mesh.Server.Mesh.Members.{IsConsistent}
use link_mesh.Server.Join.{
  Server, JoinError, join_mesh, join_refused, join_accepted, alias_refused, note_alias, spend_code,
  build_server_info,
}
use link_mesh.Server.Join.Accepted.{IsAccepted, join_mesh-IsAccepted}
use link_mesh.Server.Join.Refused.{misnamed_join_locks_out}
use link_mesh.Examples.Data.{toy_sigs, toy_library, key_a, key_b, mesh}

abbrev hash : Text → Text
hash code = code

abbrev pub server : Server
server = record {
  sigs = toy_sigs;
  lib = toy_library;
  sha256 = λ b. key_a;
  hash_token = hash;
  hash_code = hash;
  server_pub = key_b;
  server_priv = key_b;
  server_ik_s_pub = key_b;
  server_name = 115 ∷ [];
  root_pub = key_a;
  join_limit = 0;
  route_ttl_sec = 90;
}

-- The device shows the code of the only invite, and asks for an address of its own.
abbrev request : JoinBody
request = record {
  code = 1 ∷ [];
  device_id = key_a;
  ik_x = key_a;
  ik_s_pub = key_b;
  requested_ip = none;
  token = none;
  alias = some (97 ∷ []);
}

abbrev cert : DeviceCert
cert = member_cert toy_sigs key_a key_b (52 ∷ []) key_a 50 mesh

abbrev registered : MeshConfig
registered = add_member key_a cert 50 mesh

abbrev after : MeshConfig
after = spend_code hash (1 ∷ []) 50 (note_alias key_a (some (97 ∷ [])) registered)

abbrev answer : JoinData
answer = record {
  device_id = key_a;
  allocated_ip = 52 ∷ [];
  cert = cert;
  server_info = build_server_info server after;
  crl = mesh.crl;
}

is_accepted : join_mesh server [] 50 request mesh ≡ (after, join_accepted answer)
unfolding join_mesh member_cert sign_cert device_id_b64 device_id
is_accepted = refl

mesh-IsConsistent : IsConsistent mesh
mesh-IsConsistent = record { distinct = tt; none_revoked = refl; crl_fits = omega arith }

join_accepted_example : IsAccepted server 50 request answer mesh after
join_accepted_example =
    join_mesh-IsAccepted server [] 50 request mesh after answer mesh-IsConsistent (omega arith)
      is_accepted

-- With a space in its alias.
abbrev misnamed : JoinBody
misnamed = record request { alias = some (32 ∷ []) }

is_misnamed :
    join_mesh server [] 50 misnamed mesh ≡ (registered, join_refused (alias_refused bad_alias))
unfolding join_mesh member_cert sign_cert device_id_b64 device_id
is_misnamed = refl

locked_out_example :
    (is_member key_a registered ≡ true)
    × (peek_invite hash (1 ∷ []) 60 registered ≡ peek_invite hash (1 ∷ []) 60 mesh)
    × (e : JoinError) × (join_mesh server [] 60 request registered ≡ (registered, join_refused e))
locked_out_example =
    misnamed_join_locks_out server [] 50 60 misnamed request mesh registered bad_alias
      mesh-IsConsistent is_misnamed refl

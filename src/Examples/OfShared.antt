-- ===== src/Examples/OfShared.antt =====
-- The theorems about linkmesh-shared/src at concrete inputs.
use link_mesh.Base.{◌≡◌, refl, List, [], ◌∷◌, Bytes, arith, ok, bytes_eq, Text, none}
use link_mesh.Shared.Protocol.{
  version, msg_relay, msg_relay_rk, parse_header, frame_relay, frame_relay_rk, parse_relay,
  frame_relay_batch, parse_relay_batch,
}
use link_mesh.Shared.Protocol.Frames.{parse_relay-frame_relay}
use link_mesh.Shared.Protocol.Batch.{parse_relay_batch-frame_relay_batch}
use link_mesh.Shared.Cert.{DeviceCert}
use link_mesh.Shared.Cert.Canonical.{canonical-injective}
use link_mesh.Examples.Data.{key_a, key_b}

parse_relay_example :
    (parse_relay (frame_relay key_a key_b (5 ∷ [])) ≡ ok (key_a, key_b, 5 ∷ []))
    × (parse_relay (frame_relay_rk key_a key_b (5 ∷ [])) ≡ ok (key_a, key_b, 5 ∷ []))
    × (parse_header (frame_relay key_a key_b (5 ∷ []))
        ≡ ok (record { version = version; msg_type = msg_relay; sender_public_key = key_a }))
    × (parse_header (frame_relay_rk key_a key_b (5 ∷ []))
        ≡ ok (record { version = version; msg_type = msg_relay_rk; sender_public_key = key_a }))
parse_relay_example = parse_relay-frame_relay key_a key_b (5 ∷ []) refl refl

abbrev subframes : List Bytes
subframes = (1 ∷ 2 ∷ []) ∷ (3 ∷ []) ∷ []

parse_relay_batch_example :
    parse_relay_batch (frame_relay_batch key_a subframes) ≡ ok (key_a, subframes)
parse_relay_batch_example =
    parse_relay_batch-frame_relay_batch key_a subframes refl (omega arith)
      (omega arith, (omega arith, tt))

abbrev fields : List (Text × Text)
fields = (1 ∷ [], 2 ∷ []) ∷ []

canonical_example : fields ≡ fields
canonical_example = canonical-injective (112 ∷ []) fields fields refl (refl, tt) (refl, tt) refl

abbrev cert : DeviceCert
cert = record {
  mesh_id = 109 ∷ [];
  version = 1;
  device_id = 100 ∷ [];
  ik_x = key_a;
  ik_s_pub = key_b;
  allowed_ip = 49 ∷ [];
  valid_from = 10;
  not_after = 20;
  signature = none;
}

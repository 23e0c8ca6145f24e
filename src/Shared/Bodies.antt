-- ===== src/Shared/Bodies.antt =====
-- linkmesh-shared/src/protocol.rs: the bodies of the messages, with keys and signatures in base64.
use link_mesh.Base.{ℕ, Option, none, some, Text, Bool, true, false}
use link_mesh.Shared.Cert.{DeviceCert, Crl}
use link_mesh.Shared.Cert.Statements.{ServerInfo}

pub record RegisterBody : Type 0 where
  pub ip : Text
  pub relay_rk : Option Text
  pub token : Option Text
  pub alias : Option Text

pub record QueryBody : Type 0 where
  pub ip : Text
  pub name : Option Text

pub record PeerInfo : Type 0 where
  pub public_key : Text
  pub endpoint : Text
  pub relay_rk : Option Text
  pub alias : Option Text
  pub ip : Option Text

pub record NotifyBody : Type 0 where
  pub peer : PeerInfo

pub record QueryHit : Type 0 where
  pub req : Text
  pub ip : Text
  pub public_key : Text
  pub endpoint : Text
  pub relay_rk : Option Text
  pub alias : Text

pub record JoinData : Type 0 where
  pub device_id : Text
  pub allocated_ip : Text
  pub cert : DeviceCert
  pub server_info : ServerInfo
  pub crl : Crl

-- The variants with named fields carry a record of them.
pub data ResponseData : Type 0 where
  no_data : ResponseData
  query_hit : QueryHit → ResponseData
  query_miss : Text → Text → ResponseData
  joined : JoinData → ResponseData

pub record ResponseBody : Type 0 where
  pub is_ok : Bool
  pub content : ResponseData
  pub error : Option Text

-- `ResponseBody::ok`, `ok_with_data`, `err`
abbrev pub ok_with_data : ResponseData → ResponseBody
ok_with_data content = record { is_ok = true; content = content; error = none }

abbrev pub ok_body : ResponseBody
ok_body = ok_with_data no_data

abbrev pub err_body : Text → ResponseBody
err_body e = record { is_ok = false; content = no_data; error = some e }

pub record JoinBody : Type 0 where
  pub code : Text
  pub device_id : Text
  pub ik_x : Text
  pub ik_s_pub : Text
  pub requested_ip : Option Text
  pub token : Option Text
  pub alias : Option Text

pub record AuthBody : Type 0 where
  pub device_id : Text
  pub cert : DeviceCert
  pub ek_c : Text
  pub timestamp : ℕ
  pub nonce : Text
  pub token : Option Text

pub record AuthRespBody : Type 0 where
  pub ek_s : Text
  pub session_id : Text
  pub crl : Crl
  pub server_info : ServerInfo
  pub allocated_ip : Text

pub record ServerInfoBody : Type 0 where
  pub server_info : ServerInfo

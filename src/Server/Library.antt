-- ===== src/Server/Library.antt =====
-- What the server of linkmesh-server/src takes from the crate base64 and, on texts, from Rust's
-- standard library.
use link_mesh.Base.{Bytes, Text, Option, ◌≡◌, some}
use link_mesh.Client.Peer.{SocketAddr}

pub record Library : Type 0 where
  -- base64: `STANDARD.encode`, `STANDARD.decode`
  pub encode : Bytes → Text
  pub decode : Text → Option Bytes
  -- a text that was encoded is decoded to what it was
  pub decode-encode : (b : Bytes) → decode (encode b) ≡ some b
  -- `SocketAddr`: `parse` and `to_string`
  pub parse_addr : Text → Option SocketAddr
  pub show_addr : SocketAddr → Text
  -- `str::trim`, `str::to_lowercase`
  pub trim : Text → Text
  pub to_lowercase : Text → Text

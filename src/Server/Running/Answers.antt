-- ===== src/Server/Running/Answers.antt =====
-- The kept answer to KEYQUERY of linkmesh-server/src/signaling.rs is the one that would be made.
use link_mesh.Base.{
  ℕ, ◌≡◌, ◌∙◌, refl, sym, ap, subst, Option, none, some, List, [], ◌∷◌, Bytes, inl, inr, Bool-cases,
  Option-cases, Result-cases, Result, ok, err, arith, eqb,
}
use link_mesh.Server.Mesh.{MeshConfig}
use link_mesh.Server.Join.{Server, build_server_info}
use link_mesh.Server.Desk.{
  Desk, Hub, Arrival, Output, datagram, serverinfo_frame, cached_for, handle_keyquery,
}
use link_mesh.Server.Running.Root.{KeepsRoot}
use link_mesh.Shared.Wire.{WireError}

-- The frame for a version of the revocation list.
abbrev pub frame_for : Server → MeshConfig → ℕ → Result WireError Bytes
frame_for sv m v = serverinfo_frame sv (record m { crl = record m.crl { version = v } })

frame_for-KeepsRoot :
    (sv : Server) (m m' : MeshConfig) (v : ℕ)
    → KeepsRoot m m'
    → frame_for sv m' v ≡ frame_for sv m v
unfolding serverinfo_frame build_server_info
frame_for-KeepsRoot sv m m' v h = rw (h.same_id, h.same_seed) refl

-- What is kept is the frame of the version that it is kept with, which need not be the mesh's.
abbrev pub IsCurrent : Server → MeshConfig → Option (ℕ × Bytes) → Type 0
IsCurrent sv m none = Unit
IsCurrent sv m (some (v, frame)) = frame_for sv m v ≡ ok frame

pub IsCurrent-KeepsRoot :
    (sv : Server) (m m' : MeshConfig) (cache : Option (ℕ × Bytes))
    → KeepsRoot m m'
    → IsCurrent sv m cache
    → IsCurrent sv m' cache
IsCurrent-KeepsRoot sv m m' none k h = tt
IsCurrent-KeepsRoot sv m m' (some (v, frame)) k h = frame_for-KeepsRoot sv m m' v k ∙ h

cached_for-current :
    (sv : Server) (m : MeshConfig) (version : ℕ) (cache : Option (ℕ × Bytes)) (frame : Bytes)
    → IsCurrent sv m cache
    → cached_for version cache ≡ some frame
    → frame_for sv m version ≡ ok frame
cached_for-current sv m version none frame h found = cc
cached_for-current sv m version (some (v, kept)) frame h found = elim (Bool-cases (eqb v version)) [
  | inl same ↦
      (let is_frame : some kept ≡ some frame = rw same at found in
        let v_is : v ≡ version = ground (arith, same) in
        let kept_is : kept ≡ frame = cc in
        subst (λ x. frame_for sv m x ≡ ok frame) v_is (h ∙ ap ok kept_is))
  | inr other ↦ (let no = rw other at found in cc)
]

-- The answer without a cache.
abbrev pub fresh_answer : Desk → Arrival → MeshConfig → List Output
fresh_answer d a m = elim (serverinfo_frame d.server m) [
  | err e ↦ []
  | ok frame ↦ datagram a.src frame ∷ []
]

fresh_answer_lem :
    (d : Desk) (a : Arrival) (m : MeshConfig) (frame : Bytes)
    → serverinfo_frame d.server m ≡ ok frame
    → fresh_answer d a m ≡ datagram a.src frame ∷ []
fresh_answer_lem d a m frame made = rw (made, fresh_answer) refl

no_answer_lem :
    (d : Desk) (a : Arrival) (m : MeshConfig) (e : WireError)
    → serverinfo_frame d.server m ≡ err e
    → fresh_answer d a m ≡ []
no_answer_lem d a m e failed = rw (failed, fresh_answer) refl

-- When what is kept was made from the mesh, KEYQUERY is answered as if the answer was made anew,
-- and the mesh, the sessions and the routes stay as they are.
pub handle_keyquery_lem :
    (d : Desk) (a : Arrival) (h : Hub)
    → IsCurrent d.server h.mesh h.serverinfo_cache
    → ((handle_keyquery d a h).1 ≡ fresh_answer d a h.mesh)
      × IsCurrent d.server h.mesh (handle_keyquery d a h).0.serverinfo_cache
      × ((handle_keyquery d a h).0.mesh ≡ h.mesh)
      × ((handle_keyquery d a h).0.auth ≡ h.auth)
unfolding handle_keyquery
handle_keyquery_lem d a h current =
    elim (Option-cases (cached_for h.mesh.crl.version h.serverinfo_cache)) [
      | inr (frame, found) ↦
          let made : serverinfo_frame d.server h.mesh ≡ ok frame =
            cached_for-current d.server h.mesh h.mesh.crl.version h.serverinfo_cache frame current
              found in
          rw (handle_keyquery, found)
            (sym (fresh_answer_lem d a h.mesh frame made), current, refl, refl)
      | inl stale ↦ elim (Result-cases (serverinfo_frame d.server h.mesh)) [
        | inr (e, failed) ↦
            rw (handle_keyquery, stale, failed)
              (sym (no_answer_lem d a h.mesh e failed), current, refl, refl)
        | inl (frame, made) ↦
            rw (handle_keyquery, stale, made)
              (sym (fresh_answer_lem d a h.mesh frame made), made, refl, refl)
      ]
    ]

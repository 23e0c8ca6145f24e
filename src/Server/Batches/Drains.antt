-- ===== src/Server/Batches/Drains.antt =====
-- What `batch_worker` of linkmesh-server/src/signaling.rs does with the subframes it gets.
use link_mesh.Base.{
  ℕ, ◌≡◌, refl, sym, ap, ◌∙◌, Option, none, some, List, [], ◌∷◌, ◌++◌, append-nil, append_assoc,
  Bytes, Bool, true, false, leb, if◌then◌else◌, map, Bool-cases, inl, inr, Option-cases, any, ◌==◌,
  bytes_eq, eq-of-eq,
}
use link_mesh.Base.Maps.{Map, get, insert, remove, get-insert, get-remove}
use link_mesh.Shared.Crypto.{RawKey}
use link_mesh.Server.Relay.{BatchItem}
use link_mesh.Server.Batches.{
  PendingBatch, BatchEvent, item, tick, batch_of, push_frame, flush_keys, batch_step, batch_worker,
}

-- The subframes for a destination: in an entry, among those flushed, and among the events.
abbrev frames_in : Option PendingBatch → List Bytes
frames_in none = []
frames_in (some pb) = pb.frames

abbrev pub flushed_for : RawKey → List (RawKey × PendingBatch) → List Bytes
flushed_for dest [] = []
flushed_for dest (e ∷ out) =
    let rest = flushed_for dest out in if e.0 == dest then e.1.frames ++ rest else rest

abbrev received_of : RawKey → BatchEvent → List Bytes
received_of dest (item it) = if it.dest == dest then it.subframe ∷ [] else []
received_of dest tick = []

abbrev received_for : RawKey → List BatchEvent → List Bytes
received_for dest [] = []
received_for dest (event ∷ events) = received_of dest event ++ received_for dest events

flushed_for-append :
    (dest : RawKey) (out rest : List (RawKey × PendingBatch))
    → flushed_for dest (out ++ rest) ≡ flushed_for dest out ++ flushed_for dest rest
flushed_for-append dest [] rest = refl
flushed_for-append dest (e ∷ out) rest = elim (Bool-cases (e.0 == dest)) [
  | inl same ↦
      rw (same, flushed_for-append dest out rest)
        (sym (append_assoc e.1.frames (flushed_for dest out) (flushed_for dest rest)))
  | inr other ↦ rw other (flushed_for-append dest out rest)
]

flushed_here :
    (dest k : RawKey) (pb : PendingBatch) (out : List (RawKey × PendingBatch))
    → (k == dest) ≡ true
    → flushed_for dest ((k, pb) ∷ out) ≡ pb.frames ++ flushed_for dest out
flushed_here dest k pb out same = rw same

flushed_elsewhere :
    (dest k : RawKey) (pb : PendingBatch) (out : List (RawKey × PendingBatch))
    → (k == dest) ≡ false
    → flushed_for dest ((k, pb) ∷ out) ≡ flushed_for dest out
flushed_elsewhere dest k pb out other = rw other

-- Both branches of a test are the same.
if-same : (b : Bool) → ◌≡◌ {A = Option PendingBatch} (if b then none else none) none
if-same false = refl
if-same true = refl

flush_keys_lem :
    (dest : RawKey) (keys : List RawKey) (pending : Map RawKey PendingBatch)
    → flushed_for dest (flush_keys keys pending).1
        ++ frames_in (get (flush_keys keys pending).0 dest)
      ≡ frames_in (get pending dest)
unfolding flush_keys
flush_keys_lem dest [] pending = refl
flush_keys_lem dest (k ∷ keys) pending = elim (Option-cases (get pending k)) [
  | inl nothing ↦ rw (nothing, flush_keys) (flush_keys_lem dest keys pending)
  | inr (pb, here) ↦
      let (stays, out) = flush_keys keys (remove pending k) in
      let ih = flush_keys_lem dest keys (remove pending k) in
      rw (here, flush_keys)
        (elim (Bool-cases (k == dest)) [
          | inl same ↦
              let gone : get (remove pending k) dest ≡ none =
                rw (get-remove pending k dest, same) in
              let at_dest : get pending dest ≡ some pb = rw (sym (eq-of-eq k dest same)) here in
              ap (λ l. l ++ frames_in (get stays dest)) (flushed_here dest k pb out same)
              ∙ append_assoc pb.frames (flushed_for dest out) (frames_in (get stays dest))
              ∙ ap (pb.frames ++◌) (ih ∙ ap frames_in gone)
              ∙ append-nil pb.frames
              ∙ sym (ap frames_in at_dest)
          | inr other ↦
              let kept : get (remove pending k) dest ≡ get pending dest =
                rw (get-remove pending k dest, other) in
              ap (λ l. l ++ frames_in (get stays dest)) (flushed_elsewhere dest k pb out other)
              ∙ ih
              ∙ ap frames_in kept
        ])
]

frames-batch_of : (it : BatchItem) (e : Option PendingBatch) → (batch_of it e).frames ≡ frames_in e
frames-batch_of it none = refl
frames-batch_of it (some pb) = refl

batch_step_lem :
    (max_bytes : ℕ) (event : BatchEvent) (pending : Map RawKey PendingBatch) (dest : RawKey)
    → flushed_for dest (batch_step max_bytes event pending).1
        ++ frames_in (get (batch_step max_bytes event pending).0 dest)
      ≡ frames_in (get pending dest) ++ received_of dest event
unfolding batch_step
batch_step_lem max_bytes tick pending dest =
    flush_keys_lem dest (map (λ (e : RawKey × PendingBatch). e.0) pending) pending
    ∙ sym (append-nil _)
batch_step_lem max_bytes (item it) pending dest =
    let pb = push_frame it (batch_of it (get pending it.dest)) in
    let pending' = insert pending it.dest pb in
    let d = it.dest in
    elim (Bool-cases (d == dest)) [
      | inl same ↦
          let is = eq-of-eq d dest same in
          let frames : pb.frames ≡ frames_in (get pending dest) ++ it.subframe ∷ [] =
            ap (λ l. l ++ it.subframe ∷ [])
              (frames-batch_of it (get pending d) ∙ ap (λ x. frames_in (get pending x)) is) in
          elim (Bool-cases (leb max_bytes pb.bytes)) [
            | inl full ↦
                rw (full, get-remove pending' d dest, same)
                  (append-nil (pb.frames ++ []) ∙ append-nil pb.frames ∙ frames)
            | inr room ↦ rw (room, get-insert pending d pb dest, same) frames
          ]
      | inr other ↦ elim (Bool-cases (leb max_bytes pb.bytes)) [
        | inl full ↦
            rw (full, get-remove pending' d dest, get-insert pending d pb dest, other)
              (sym (append-nil _))
        | inr room ↦ rw (room, get-insert pending d pb dest, other) (sym (append-nil _))
      ]
    ]

-- What was flushed, and then what waits, is what waited at first, and then what came.
batch_worker_keeps :
    (max_bytes : ℕ) (events : List BatchEvent) (pending : Map RawKey PendingBatch) (dest : RawKey)
    → flushed_for dest (batch_worker max_bytes events pending).1
        ++ frames_in (get (batch_worker max_bytes events pending).0 dest)
      ≡ frames_in (get pending dest) ++ received_for dest events
unfolding batch_worker
batch_worker_keeps max_bytes [] pending dest = sym (append-nil _)
batch_worker_keeps max_bytes (event ∷ events) pending dest =
    let (pending', out) = batch_step max_bytes event pending in
    let ih = batch_worker_keeps max_bytes events pending' dest in
    let step = batch_step_lem max_bytes event pending dest in
    let fo = flushed_for dest out in
    let (last, rest) = batch_worker max_bytes events pending' in
    ap (λ l. l ++ frames_in (get last dest)) (flushed_for-append dest out rest)
    ∙ append_assoc fo (flushed_for dest rest) (frames_in (get last dest))
    ∙ ap (fo ++◌) ih
    ∙ sym (append_assoc fo (frames_in (get pending' dest)) (received_for dest events))
    ∙ ap (λ l. l ++ received_for dest events) step
    ∙ append_assoc (frames_in (get pending dest)) (received_of dest event)
        (received_for dest events)

-- A key that was flushed waits no more, and the others are left alone.
get-flush_keys :
    (dest : RawKey) (keys : List RawKey) (pending : Map RawKey PendingBatch)
    → get (flush_keys keys pending).0 dest
      ≡ (if any (λ k. k == dest) keys then none else get pending dest)
unfolding flush_keys
get-flush_keys dest [] pending = refl
get-flush_keys dest (k ∷ keys) pending = elim (Bool-cases (k == dest)) [
  | inl same ↦ elim (Option-cases (get pending k)) [
    | inl nothing ↦
        let at_dest : get pending dest ≡ none = rw (sym (eq-of-eq k dest same)) nothing in
        rw (nothing, same, flush_keys) (get-flush_keys dest keys pending ∙ rw at_dest (if-same _))
    | inr (pb, here) ↦
        rw (here, same, flush_keys)
          (get-flush_keys dest keys (remove pending k)
            ∙ rw (get-remove pending k dest, same) (if-same _))
  ]
  | inr other ↦ elim (Option-cases (get pending k)) [
    | inl nothing ↦ rw (nothing, other, flush_keys) (get-flush_keys dest keys pending)
    | inr (pb, here) ↦
        rw (here, other, flush_keys)
          (get-flush_keys dest keys (remove pending k) ∙ rw (get-remove pending k dest, other) refl)
  ]
]

get-no_key :
    (dest : RawKey) (m : Map RawKey PendingBatch)
    → any (λ k. k == dest) (map (λ (e : RawKey × PendingBatch). e.0) m) ≡ false
    → get m dest ≡ none
unfolding get
get-no_key dest [] h = refl
get-no_key dest ((k, pb) ∷ m) h = elim (Bool-cases (k == dest)) [
  | inl same ↦ (let h' = rw same at h in cc)
  | inr other ↦ rw other (get-no_key dest m (rw other at h))
]

-- After the ticker nothing waits.
get-tick :
    (max_bytes : ℕ) (pending : Map RawKey PendingBatch) (dest : RawKey)
    → get (batch_step max_bytes tick pending).0 dest ≡ none
unfolding batch_step
get-tick max_bytes pending dest =
    let keys = map (λ (e : RawKey × PendingBatch). e.0) pending in
    get-flush_keys dest keys pending ∙ elim (Bool-cases (any (λ k. k == dest) keys)) [
      | inl flushed ↦ rw flushed
      | inr absent ↦ rw absent (get-no_key dest pending absent)
    ]

batch_worker-tick :
    (max_bytes : ℕ) (events : List BatchEvent) (pending : Map RawKey PendingBatch)
    → (batch_worker max_bytes (events ++ tick ∷ []) pending).0
      ≡ (batch_step max_bytes tick (batch_worker max_bytes events pending).0).0
unfolding batch_worker
batch_worker-tick max_bytes [] pending = refl
batch_worker-tick max_bytes (event ∷ events) pending =
    batch_worker-tick max_bytes events (batch_step max_bytes event pending).0

received_for-tick :
    (dest : RawKey) (events : List BatchEvent)
    → received_for dest (events ++ tick ∷ []) ≡ received_for dest events
received_for-tick dest [] = refl
received_for-tick dest (event ∷ events) =
    ap (received_of dest event ++◌) (received_for-tick dest events)

-- Whatever comes to the worker before the ticker fires, all of it is flushed then: the batches that
-- were flushed for a destination hold the subframes that waited for it and those that came for it,
-- each once and in their order, and nothing for it waits any more.
pub batch_worker_drains :
    (max_bytes : ℕ) (events : List BatchEvent) (pending : Map RawKey PendingBatch) (dest : RawKey)
    → (flushed_for dest (batch_worker max_bytes (events ++ tick ∷ []) pending).1
        ≡ frames_in (get pending dest) ++ received_for dest events)
      × (get (batch_worker max_bytes (events ++ tick ∷ []) pending).0 dest ≡ none)
batch_worker_drains max_bytes events pending dest =
    let (last, out) = batch_worker max_bytes (events ++ tick ∷ []) pending in
    let gone : get last dest ≡ none =
      ap (λ m. get m dest) (batch_worker-tick max_bytes events pending)
      ∙ get-tick max_bytes (batch_worker max_bytes events pending).0 dest in
    (
      sym (append-nil (flushed_for dest out))
          ∙ ap (λ e. flushed_for dest out ++ frames_in e) (sym gone)
          ∙ batch_worker_keeps max_bytes (events ++ tick ∷ []) pending dest
          ∙ ap (frames_in (get pending dest) ++◌) (received_for-tick dest events),
      gone,
    )

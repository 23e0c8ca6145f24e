-- ===== src/Server/Auth/Nonces.antt =====
-- What stays in the cache of nonces of linkmesh-server/src/signaling.rs.
use link_mesh.Base.{
  ℕ, ◌+◌, ◌<◌, ◌≤◌, ◌≡◌, refl, ap, sym, ◌∙◌, subst, List, [], ◌∷◌, ◌++◌, Bytes, true, false, arith,
  any, length, length-append, append_assoc, ltb, drop, Bool-cases, inl, inr, ◌==◌, bytes_eq,
  eq_refl, eq-of-eq, if◌then◌else◌,
}
use link_mesh.Base.Maps.{Map, get, insert, get-insert}
use link_mesh.Shared.Crypto.{RawKey}
use link_mesh.Server.Guards.{replay_check, queue_of}

-- The nonce is in the queue, with at most `n` after it.
pub record Recent (nonce : Bytes) (n : ℕ) (q : List Bytes) : Type 0 where
  pub older : List Bytes
  pub newer : List Bytes
  pub split : q ≡ older ++ nonce ∷ newer
  pub few : length newer ≤ n

-- The queue after one more nonce: the last 64.
abbrev pub push : Bytes → List Bytes → List Bytes
push x q = if ltb 64 (length (q ++ x ∷ [])) then drop 1 (q ++ x ∷ []) else q ++ x ∷ []

pub Recent-keep :
    (nonce : Bytes) (n : ℕ) (older newer : List Bytes)
    → length newer ≤ n
    → n < 64
    → Recent nonce n (
        if ltb 64 (length (older ++ nonce ∷ newer))
        then drop 1 (older ++ nonce ∷ newer)
        else older ++ nonce ∷ newer)
Recent-keep nonce n older newer few small =
    elim (Bool-cases (ltb 64 (length (older ++ nonce ∷ newer)))) [
      | inr fits ↦ rw fits (record { older = older; newer = newer; split = refl; few = few })
      | inl long ↦
          rw long (dropped older (ground (arith, length-append older (nonce ∷ newer), long)))
    ]
  where
    dropped :
        (before : List Bytes)
        → 64 < length before + (length newer + 1)
        → Recent nonce n (drop 1 (before ++ nonce ∷ newer))
    dropped [] over = absurd (omega (arith, over, few, small))
    dropped (x ∷ before) over = record { older = before; newer = newer; split = refl; few = few }

Recent-push :
    (nonce x : Bytes) (n : ℕ) (q : List Bytes)
    → n + 1 < 64
    → Recent nonce n q
    → Recent nonce (n + 1) (push x q)
Recent-push nonce x n q small h =
    let longer : (q ++ x ∷ []) ≡ h.older ++ nonce ∷ (h.newer ++ x ∷ []) =
      ap (λ l. l ++ x ∷ []) h.split ∙ append_assoc h.older (nonce ∷ h.newer) (x ∷ []) in
    subst (λ l. Recent nonce (n + 1) (if ltb 64 (length l) then drop 1 l else l)) (sym longer)
      (Recent-keep nonce (n + 1) h.older (h.newer ++ x ∷ [])
        (omega (arith, h.few, length-append h.newer (x ∷ []))) small)

pub Recent-any :
    (nonce : Bytes) (n : ℕ) (q : List Bytes) → Recent nonce n q → any (λ x. x == nonce) q ≡ true
Recent-any nonce n q h = ap (any (λ x. x == nonce)) h.split ∙ found h.older
  where
    found : (before : List Bytes) → any (λ x. x == nonce) (before ++ nonce ∷ h.newer) ≡ true
    found [] = rw (eq_refl nonce) refl
    found (x ∷ before) = ground (arith, found before)

pub queue-insert :
    (replay : Map RawKey (List Bytes)) (sender k : RawKey) (q : List Bytes)
    → queue_of (get (insert replay sender q) k)
      ≡ (if sender == k then q else queue_of (get replay k))
queue-insert replay sender k q = elim (Bool-cases (sender == k)) [
  | inl same ↦ rw same (ap queue_of (rw same at (get-insert replay sender q k)))
  | inr other ↦ rw other (ap queue_of (rw other at (get-insert replay sender q k)))
]

-- The check of a new nonce.
pub replay_check-new :
    (replay : Map RawKey (List Bytes)) (sender : RawKey) (x : Bytes)
    → any (λ n. n == x) (queue_of (get replay sender)) ≡ false
    → (replay_check replay sender x).0
      ≡ insert replay sender (push x (queue_of (get replay sender)))
unfolding replay_check
replay_check-new replay sender x new = rw (new, replay_check) refl

replay_check-seen :
    (replay : Map RawKey (List Bytes)) (sender : RawKey) (x : Bytes)
    → any (λ n. n == x) (queue_of (get replay sender)) ≡ true
    → (replay_check replay sender x).0 ≡ insert replay sender (queue_of (get replay sender))
unfolding replay_check
replay_check-seen replay sender x seen = rw (seen, replay_check) refl

-- A nonce that is in the queue of a device stays through the check of any other.
Recent-insert :
    (nonce : Bytes) (n : ℕ) (replay : Map RawKey (List Bytes)) (sender k : RawKey) (q : List Bytes)
    → (sender ≡ k → Recent nonce n q)
    → Recent nonce n (queue_of (get replay k))
    → Recent nonce n (queue_of (get (insert replay sender q) k))
Recent-insert nonce n replay sender k q own h = elim (Bool-cases (sender == k)) [
  | inl same ↦
      let e = rw same at (queue-insert replay sender k q) in
      subst (Recent nonce n) (sym e) (own (eq-of-eq sender k same))
  | inr other ↦
      let e = rw other at (queue-insert replay sender k q) in subst (Recent nonce n) (sym e) h
]

pub later : (nonce : Bytes) (n : ℕ) (q : List Bytes) → Recent nonce n q → Recent nonce (n + 1) q
later nonce n q h = record {
  older = h.older;
  newer = h.newer;
  split = h.split;
  few = omega (arith, h.few);
}

pub Recent-replay_check :
    (nonce : Bytes) (n : ℕ) (replay : Map RawKey (List Bytes)) (sender k : RawKey) (x : Bytes)
    → n + 1 < 64
    → Recent nonce n (queue_of (get replay k))
    → Recent nonce (n + 1) (queue_of (get (replay_check replay sender x).0 k))
Recent-replay_check nonce n replay sender k x small h =
    let q = queue_of (get replay sender) in
    let own : sender ≡ k → Recent nonce n q =
      λ same. subst (λ j. Recent nonce n (queue_of (get replay j))) (sym same) h in
    elim (Bool-cases (any (λ y. y == x) q)) [
      | inl seen ↦
          subst (λ m. Recent nonce (n + 1) (queue_of (get m k)))
            (sym (replay_check-seen replay sender x seen))
            (Recent-insert nonce (n + 1) replay sender k q (λ same. later nonce n q (own same))
              (later nonce n _ h))
      | inr new ↦
          subst (λ m. Recent nonce (n + 1) (queue_of (get m k)))
            (sym (replay_check-new replay sender x new))
            (Recent-insert nonce (n + 1) replay sender k (push x q)
              (λ same. Recent-push nonce x n q small (own same)) (later nonce n _ h))
    ]

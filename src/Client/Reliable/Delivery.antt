-- ===== src/Client/Reliable/Delivery.antt =====
-- What `reorder_deliver` of linkmesh-client/src/connection.rs delivers, when every packet that
-- arrives was sent.
use link_mesh.Base.{
  ℕ, zero, suc, ◌+◌, ◌≤◌, ◌<◌, ◌^◌, ◌≡◌, sym, ◌∙◌, Option, none, some, Option-cases, inl, inr, List,
  map, [], ◌∷◌, ◌++◌, append-nil, append_assoc, Bytes, arith, length, get_elem?, take, take_next,
  lt-length_of_get, nat_eq, Bool-cases, ◌==◌, ltb, eq-of-eq,
}
use link_mesh.Base.Maps
use link_mesh.Base.Maps.{Map, get, get-remove, get-insert_sorted}
use link_mesh.Client.Reliable.{next_seq, flush, cap_buffer, reorder_deliver}

-- What became of the numbers 1, 2, …: the payload that was sent under the number, or `none` if
-- the number was taken and nothing was sent under it.
abbrev pub Log : Type 0
Log = List (Option Bytes)

abbrev pub entry : Option (Option Bytes) → Option Bytes
entry none = none
entry (some o) = o

abbrev pub sent : Log → ℕ → Option Bytes
sent log zero = none
sent log (suc i) = entry (get_elem? log i)

-- A number under which something was sent is in the log.
sent_lem :
    (log : Log) (i : ℕ) (p : Bytes) → sent log (suc i) ≡ some p → get_elem? log i ≡ some (some p)
sent_lem log i p h = elim (Option-cases (get_elem? log i)) [
  | inl e ↦ cc
  | inr (o, e) ↦ ground arith
]

-- What the buffer holds was sent under that number.
pub record IsGenuine (log : Log) (buf : Map ℕ Bytes) : Type 0 where
  pub genuine : (k : ℕ) (p : Bytes) → get buf k ≡ some p → sent log k ≡ some p

-- `r` continues the delivery of `log` from the mark `high`.
pub record Delivers (log : Log) (high : ℕ) (r : List Bytes × ℕ × Map ℕ Bytes) : Type 0 where
  pub in_order : take high log ++ map some r.0 ≡ take r.1 log
  pub grows : high ≤ r.1
  pub within : r.1 ≤ length log
  pub held : IsGenuine log r.2

-- One more payload in front of a delivery.
after_next :
    (front : Log) (p : Option Bytes) (front' rest all : Log)
    → front ++ p ∷ [] ≡ front'
    → front' ++ rest ≡ all
    → front ++ p ∷ rest ≡ all
after_next front p front' rest all e h = sym (append_assoc front (p ∷ []) rest) ∙ rw e h

module _ (log : Log) (small : length log + 1 < 2 ^ 64) where
  -- A packet that follows `high` adds its payload to what was delivered.
  next-sent :
      (high : ℕ) (p : Bytes)
      → high ≤ length log
      → sent log (next_seq high) ≡ some p
      → (next_seq high ≡ suc high)
        × (take high log ++ some p ∷ [] ≡ take (next_seq high) log)
        × (suc high ≤ length log)
  next-sent high p h e =
      let n : next_seq high ≡ suc high = omega arith in
      let e' = sent_lem log high p (rw n at e) in
      (n, rw n (take_next log high (some p) e'), lt-length_of_get log high (some p) e')

  IsGenuine-remove :
      (buf : Map ℕ Bytes) (j : ℕ) → IsGenuine log buf → IsGenuine log (Maps.remove buf j)
  IsGenuine-remove buf j g = record {
    genuine = λ k p. ground (arith, get-remove buf j k, g.genuine k p);
  }

  IsGenuine-insert :
      (buf : Map ℕ Bytes) (j : ℕ) (q : Bytes)
      → sent log j ≡ some q
      → IsGenuine log buf
      → IsGenuine log (Maps.insert_sorted buf j q)
  IsGenuine-insert buf j q e g = record {
    genuine = λ k p. ground (arith, get-insert_sorted buf j q k, g.genuine k p);
  }

  IsGenuine-cap : (buf : Map ℕ Bytes) → IsGenuine log buf → IsGenuine log (cap_buffer buf)
  unfolding cap_buffer
  IsGenuine-cap [] g = g
  IsGenuine-cap ((i, w) ∷ m) g = elim (Bool-cases (ltb 512 (length ((i, w) ∷ m)))) [
    | inl full ↦ rw full (IsGenuine-remove ((i, w) ∷ m) i g)
    | inr room ↦ rw room g
  ]

  pub Delivers-flush :
      (fuel high : ℕ) (buf : Map ℕ Bytes)
      → high ≤ length log
      → IsGenuine log buf
      → Delivers log high (flush fuel high buf)
  unfolding flush
  Delivers-flush zero high buf h g = record {
    in_order = append-nil _;
    grows = omega arith;
    within = h;
    held = g;
  }
  Delivers-flush (suc fuel) high buf h g = elim (Option-cases (get buf (next_seq high))) [
    | inl empty ↦
        rw (empty, flush)
          (record { in_order = append-nil _; grows = omega arith; within = h; held = g })
    | inr (p, found) ↦
        let (n, snoc, bound) = next-sent high p h (g.genuine _ p found) in
        let rest =
          Delivers-flush fuel (next_seq high) (Maps.remove buf (next_seq high)) (omega arith)
            (IsGenuine-remove buf _ g) in
        rw (found, flush)
          (record {
            in_order = after_next _ (some p) _ _ _ snoc rest.in_order;
            grows = omega (arith, rest.grows);
            within = rest.within;
            held = rest.held;
          })
  ]

  -- A genuine packet is delivered in its place, held back or ignored.
  pub Delivers-reorder_deliver :
      (high : ℕ) (buf : Map ℕ Bytes) (seq : ℕ) (p : Bytes)
      → high ≤ length log
      → IsGenuine log buf
      → sent log seq ≡ some p
      → Delivers log high (reorder_deliver high buf seq p)
  unfolding reorder_deliver
  Delivers-reorder_deliver high buf seq p h g e = elim (Bool-cases (seq == next_seq high)) [
    | inl next ↦
        let same = eq-of-eq seq (next_seq high) next in
        let (n, snoc, bound) = next-sent high p h (rw same at e) in
        let rest = Delivers-flush (length buf) seq buf (omega arith) g in
        rw next (record {
          in_order = after_next _ (some p) _ _ _ (rw same snoc) rest.in_order;
          grows = omega (arith, rest.grows);
          within = rest.within;
          held = rest.held;
        })
    | inr other ↦ rw other (elim (Bool-cases (ltb (next_seq high) seq)) [
      | inl ahead ↦ rw ahead (record {
        in_order = append-nil _;
        grows = omega arith;
        within = h;
        held = IsGenuine-cap _ (IsGenuine-insert buf seq p e g);
      })
      | inr old ↦
          rw old (record { in_order = append-nil _; grows = omega arith; within = h; held = g })
    ])
  ]

-- ===== src/Client/Link/Safety/Numbers.antt =====
-- The log of numbers grows at its end.
use link_mesh.Base.{
  ℕ, zero, suc, ◌≤◌, ◌≡◌, refl, ap, Option, some, [], ◌∷◌, ◌++◌, Bytes, arith, length, get_elem?,
  ◌⊎◌, inl, inr,
}
use link_mesh.Client.Reliable.Delivery.{Log, entry, sent}

entry-append :
    (log rest : Log) (i : ℕ) (p : Bytes)
    → entry (get_elem? log i) ≡ some p
    → entry (get_elem? (log ++ rest) i) ≡ some p
entry-append [] rest i p h = cc
entry-append (o ∷ log) rest zero p h = h
entry-append (o ∷ log) rest (suc i) p h = entry-append log rest i p h

pub sent-append :
    (log rest : Log) (k : ℕ) (p : Bytes) → sent log k ≡ some p → sent (log ++ rest) k ≡ some p
sent-append log rest zero p h = cc
sent-append log rest (suc i) p h = entry-append log rest i p h

entry-append_inv :
    (log : Log) (o : Option Bytes) (i : ℕ) (p : Bytes)
    → entry (get_elem? (log ++ o ∷ []) i) ≡ some p
    → (entry (get_elem? log i) ≡ some p) ⊎ ((i ≡ length log) × (o ≡ some p))
entry-append_inv [] o zero p h = inr (refl, h)
entry-append_inv [] o (suc i) p h = cc
entry-append_inv (x ∷ log) o zero p h = inl h
entry-append_inv (x ∷ log) o (suc i) p h = elim (entry-append_inv log o i p h) [
  | inl old ↦ inl old
  | inr (e, q) ↦ inr (ap suc e, q)
]

pub sent-append_inv :
    (log : Log) (o : Option Bytes) (k : ℕ) (p : Bytes)
    → sent (log ++ o ∷ []) k ≡ some p
    → (sent log k ≡ some p) ⊎ ((k ≡ suc (length log)) × (o ≡ some p))
sent-append_inv log o zero p h = cc
sent-append_inv log o (suc i) p h = elim (entry-append_inv log o i p h) [
  | inl old ↦ inl old
  | inr (e, q) ↦ inr (ap suc e, q)
]

pub sent-le-length : (log : Log) (k : ℕ) (p : Bytes) → sent log k ≡ some p → k ≤ length log
sent-le-length log zero p h = cc
sent-le-length [] (suc i) p h = cc
sent-le-length (o ∷ log) (suc zero) p h = omega arith
sent-le-length (o ∷ log) (suc (suc i)) p h = omega (arith, sent-le-length log (suc i) p h)

entry_last : (log : Log) (o : Option Bytes) → entry (get_elem? (log ++ o ∷ []) (length log)) ≡ o
entry_last [] o = refl
entry_last (x ∷ log) o = entry_last log o

pub sent_last : (log : Log) (o : Option Bytes) → sent (log ++ o ∷ []) (suc (length log)) ≡ o
sent_last log o = entry_last log o

-- ===== src/Server/Routes/RoutingKeys.antt =====
-- Who holds a routing key: `get_by_rk` and `upsert` of linkmesh-server/src/signaling.rs.
use link_mesh.Base.{
  ◌≡◌, refl, ◌≢◌, ◌∙◌, ap, Option, none, some, Text, arith, Option-cases, Bool-cases, inl, inr,
  ◌==◌, bytes_eq, if◌then◌else◌,
}
use link_mesh.Base.Maps.{get, get-insert, get-remove}
use link_mesh.Shared.Crypto.{RawKey}
use link_mesh.Server.Routes.{RouteEntry, RouteTable, release_old, take_ip, take_rk, upsert}

-- The routing key that the entry of a key had.
abbrev pub rk_of : Option RouteEntry → Option Text
rk_of none = none
rk_of (some e) = e.relay_rk

-- The holder of a routing key, when one lets go of `released`.
abbrev pub let_go : Option Text → Text → Option RawKey → Option RawKey
let_go none rk o = o
let_go (some released) rk o = if released == rk then none else o

-- The holder of a routing key, when `wanted` is claimed for a key.
abbrev pub claim : Option Text → RawKey → Text → Option RawKey → Option RawKey
claim none key rk o = o
claim (some wanted) key rk none = if wanted == rk then some key else none
claim (some wanted) key rk (some k) = some k

let_go_other :
    (o : Option Text) (rk : Text) (held : Option RawKey) → o ≢ some rk → let_go o rk held ≡ held
let_go_other none rk held other = refl
let_go_other (some r) rk held other = elim (Bool-cases (r == rk)) [
  | inl same ↦ elim (other (ap some ((bytes_eq.beq_iff r rk).0 same))) [ ]
  | inr differs ↦ rw differs
]

claim_other :
    (o : Option Text) (key : RawKey) (rk : Text) (held : Option RawKey)
    → o ≢ some rk
    → claim o key rk held ≡ held
claim_other none key rk held other = refl
claim_other (some w) key rk (some k) other = refl
claim_other (some w) key rk none other = elim (Bool-cases (w == rk)) [
  | inl same ↦ elim (other (ap some ((bytes_eq.beq_iff w rk).0 same))) [ ]
  | inr differs ↦ rw differs
]

by_rk-release_old :
    (e : RouteEntry) (t : RouteTable) (rk : Text)
    → get (release_old e t).by_rk rk
      ≡ let_go (rk_of (get t.by_key e.public_key)) rk (get t.by_rk rk)
unfolding release_old
by_rk-release_old e t rk = elim (Option-cases (get t.by_key e.public_key)) [
  | inl absent ↦ rw (absent, release_old)
  | inr (old, g) ↦
      rw (g, release_old)
        (elim (Option-cases old.relay_rk) [
          | inl no_rk ↦ rw no_rk
          | inr (r, has) ↦ rw has (get-remove t.by_rk r rk)
        ])
]

by_rk-take_ip : (e : RouteEntry) (t : RouteTable) → (take_ip e t).by_rk ≡ t.by_rk
unfolding take_ip
by_rk-take_ip e t = ground arith

by_rk-take_rk :
    (e : RouteEntry) (t : RouteTable) (rk : Text)
    → get (take_rk e t).by_rk rk ≡ claim e.relay_rk e.public_key rk (get t.by_rk rk)
unfolding take_rk
by_rk-take_rk e t rk = elim (Option-cases e.relay_rk) [
  | inl no_rk ↦ rw (no_rk, take_rk)
  | inr (r, has) ↦
      rw (has, take_rk)
        (elim (Option-cases (get t.by_rk r)) [
          | inl free ↦
              rw (free, take_rk)
                (ground (arith, get-insert t.by_rk r e.public_key rk, bytes_eq.beq_iff r rk))
          | inr (k, taken) ↦
              rw (taken, take_rk)
                (ground (
                  arith,
                  get-insert t.by_rk r e.public_key rk,
                  bytes_eq.beq_iff r rk,
                  bytes_eq.beq_iff k e.public_key,
                ))
        ])
]

-- The holder of a routing key after `upsert`: the key of the entry lets go of its old routing key,
-- whoever holds that, and gets the new one if nobody holds it then.
pub get-by_rk-upsert :
    (e : RouteEntry) (t : RouteTable) (rk : Text)
    → get (upsert e t).by_rk rk
      ≡ claim e.relay_rk e.public_key rk
          (let_go (rk_of (get t.by_key e.public_key)) rk (get t.by_rk rk))
unfolding upsert
get-by_rk-upsert e t rk =
    let t1 = release_old e t in
    by_rk-take_rk e (take_ip e t1) rk
    ∙ ap (claim e.relay_rk e.public_key rk)
        (ap (λ m. get m rk) (by_rk-take_ip e t1) ∙ by_rk-release_old e t rk)

upserted : (e : RouteEntry) (t : RouteTable) → get (upsert e t).by_key e.public_key ≡ some e
unfolding upsert
upserted e t = ground (
  arith,
  get-insert (take_rk e (take_ip e (release_old e t))).by_key e.public_key e e.public_key,
  bytes_eq.beq_iff e.public_key e.public_key,
)

-- A routing key that another device holds is refused to an entry that claims it for the first
-- time; but when the same entry is upserted once more, as a heartbeat does, the routing key goes
-- over to its key.
pub rk_lost_at_second_upsert :
    (e : RouteEntry) (t : RouteTable) (rk : Text) (holder : RawKey)
    → get t.by_rk rk ≡ some holder
    → rk_of (get t.by_key e.public_key) ≢ some rk
    → e.relay_rk ≡ some rk
    → (get (upsert e t).by_rk rk ≡ some holder)
      × (get (upsert e (upsert e t)).by_rk rk ≡ some e.public_key)
rk_lost_at_second_upsert e t rk holder held new wants = (
  get-by_rk-upsert e t rk
      ∙ rw (held, let_go_other (rk_of (get t.by_key e.public_key)) rk (some holder) new, wants),
  get-by_rk-upsert e (upsert e t) rk
      ∙ rw (upserted e t, wants) (ground (arith, bytes_eq.beq_iff rk rk)),
)

-- An entry that neither had nor claims a routing key leaves its holder alone.
pub rk_of_others_stays :
    (e : RouteEntry) (t : RouteTable) (rk : Text)
    → rk_of (get t.by_key e.public_key) ≢ some rk
    → e.relay_rk ≢ some rk
    → get (upsert e t).by_rk rk ≡ get t.by_rk rk
rk_of_others_stays e t rk had wants =
    get-by_rk-upsert e t rk
    ∙ ap (claim e.relay_rk e.public_key rk)
        (let_go_other (rk_of (get t.by_key e.public_key)) rk (get t.by_rk rk) had)
    ∙ claim_other e.relay_rk e.public_key rk (get t.by_rk rk) wants

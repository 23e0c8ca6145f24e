-- ===== src/Shared/Cert/Canonical.antt =====
-- The signed bytes of linkmesh-shared/src/cert.rs say what is signed.
use link_mesh.Base.{◌≡◌, refl, List, [], ◌∷◌, ◌++◌, map, Bytes, Text, false, arith, any, eqb, ◌∙◌}
use link_mesh.Shared.Cert.{lines, canonical}

-- A value that stays on its line.
abbrev pub HasNoNewline : Text → Type 0
HasNoNewline v = any (λ c. eqb c b'\n') v ≡ false

abbrev pub AllOnLine : List (Text × Text) → Type 0
AllOnLine [] = Unit
AllOnLine ((k, v) ∷ fields) = HasNoNewline v × AllOnLine fields

-- The first newline ends the value.
split_line :
    (v w rest rest' : Bytes)
    → HasNoNewline v
    → HasNoNewline w
    → v ++ b'\n' ∷ rest ≡ w ++ b'\n' ∷ rest'
    → (v ≡ w) × (rest ≡ rest')
split_line [] [] rest rest' hv hw e = (refl, cc)
split_line [] (c ∷ w) rest rest' hv hw e = (let same : b'\n' ≡ c = cc in ground arith)
split_line (c ∷ v) [] rest rest' hv hw e = (let same : c ≡ b'\n' = cc in ground arith)
split_line (c ∷ v) (d ∷ w) rest rest' hv hw e =
    let same : c ≡ d = cc in
    let tails : v ++ b'\n' ∷ rest ≡ w ++ b'\n' ∷ rest' = cc in
    let (a, b) = split_line v w rest rest' (ground arith) (ground arith) tails in (cc, b)

-- The same key in front.
drop_front : (k a b : Bytes) → k ++ a ≡ k ++ b → a ≡ b
drop_front [] a b e = e
drop_front (c ∷ k) a b e = drop_front k a b cc

lines-injective :
    (fields fields' : List (Text × Text))
    → map (λ (f : Text × Text). f.0) fields ≡ map (λ (f : Text × Text). f.0) fields'
    → AllOnLine fields
    → AllOnLine fields'
    → lines fields ≡ lines fields'
    → fields ≡ fields'
lines-injective [] [] keys h h' e = refl
lines-injective [] (f ∷ fields') keys h h' e = cc
lines-injective (f ∷ fields) [] keys h h' e = cc
lines-injective ((k, v) ∷ fields) ((k', v') ∷ fields') keys h h' e =
    let same_key : k ≡ k' = cc in
    let keys' : map (λ (f : Text × Text). f.0) fields ≡ map (λ (f : Text × Text). f.0) fields' =
      cc in
    let after : b'=' ∷ v ++ (b'\n' ∷ lines fields) ≡ b'=' ∷ v' ++ (b'\n' ∷ lines fields') =
      drop_front k _ _ (e ∙ rw same_key) in
    let values : v ++ (b'\n' ∷ lines fields) ≡ v' ++ (b'\n' ∷ lines fields') = cc in
    let (same_value, rest) = split_line v v' (lines fields) (lines fields') h.0 h'.0 values in
    let tails = lines-injective fields fields' keys' h.1 h'.1 rest in cc

-- Two lists of fields with the same keys, whose values have no newline, are signed as the same
-- bytes only if they are the same.
pub canonical-injective :
    (prefix : Text) (fields fields' : List (Text × Text))
    → map (λ (f : Text × Text). f.0) fields ≡ map (λ (f : Text × Text). f.0) fields'
    → AllOnLine fields
    → AllOnLine fields'
    → canonical prefix fields ≡ canonical prefix fields'
    → fields ≡ fields'
unfolding canonical
canonical-injective prefix fields fields' keys h h' e =
    (let below : b'\n' ∷ lines fields ≡ b'\n' ∷ lines fields' = drop_front prefix _ _ e in
      lines-injective fields fields' keys h h' cc)

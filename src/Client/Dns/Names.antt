-- ===== src/Client/Dns/Names.antt =====
-- Names in queries of linkmesh-client/src/dns.rs: what is encoded is read back.
use link_mesh.Base.{
  ℕ, zero, suc, ◌+◌, ◌≤◌, ◌<◌, ◌≡◌, ◌∙◌, ◌^◌, refl, ap, some, List, [], ◌∷◌, ◌++◌, Bytes, Text,
  true, false, arith, ltb, leb, eqb, any, All, if◌then◌else◌, length, take, drop, ◌||◌,
  append_assoc, take-append, drop-append, length-append,
}
use link_mesh.Base.Endian.{be_bytes, from_be, from_be-be_bytes}
use link_mesh.Client.Dns.{
  NameTexts, is_empty_name, read_name, split_dots, add_to_first, encode_labels, encode_name,
  parse_query, trim_dots, cons_trimmed,
}

-- A label that can stand in a query: of 1 to 63 bytes, without a dot, and text.
pub record IsLabel (texts : NameTexts) (label : Text) : Type 0 where
  pub full : is_empty_name label ≡ false
  pub fits : length label ≤ 63
  pub undotted : any (eqb b'.') label ≡ false
  pub is_text : texts.lossy label ≡ label

abbrev pub join_dots : List Text → Text
join_dots [] = []
join_dots (label ∷ []) = label
join_dots (label ∷ next ∷ labels) = label ++ b'.' ∷ join_dots (next ∷ labels)

-- A name that labels are read after.
abbrev dotted : Text → Text
dotted name = if is_empty_name name then [] else name ++ b'.' ∷ []

abbrev extend : Text → List Text → Text
extend name [] = name
extend name (label ∷ labels) = extend (dotted name ++ label) labels

read_label :
    (texts : NameTexts) (fuel : ℕ) (label tail name : Text)
    → IsLabel texts label
    → read_name texts (suc fuel) (length label ∷ label ++ tail) name
      ≡ read_name texts fuel tail (dotted name ++ label)
unfolding read_name
read_label texts fuel label tail name h =
    let nonzero : eqb (length label) 0 ≡ false = h.full in
    let fits : (ltb 63 (length label) || ltb (length (label ++ tail)) (length label)) ≡ false =
      ground (arith, h.fits, length-append label tail) in
    rw (read_name, nonzero, fits, take-append label tail, drop-append label tail, h.is_text) refl

encode_label :
    (texts : NameTexts) (label : Text) (labels : List Text) (rest : Bytes)
    → IsLabel texts label
    → (encode_labels (label ∷ labels) ++ rest)
      ≡ length label ∷ label ++ (encode_labels labels ++ rest)
unfolding encode_labels
encode_label texts label labels rest h =
    let kept : (is_empty_name label || ltb 63 (length label)) ≡ false =
      ground (arith, h.full, h.fits) in
    rw (encode_labels, kept)
      (ap (λ x. length label ∷ x) (append_assoc label (encode_labels labels) rest))

read_name-encode_labels :
    (texts : NameTexts) (labels : List Text) (fuel : ℕ) (rest : Bytes) (name : Text)
    → All (IsLabel texts) labels
    → length labels < fuel
    → read_name texts fuel (encode_labels labels ++ rest) name ≡ some (extend name labels, rest)
unfolding read_name encode_labels
read_name-encode_labels texts labels zero rest name h more = absurd (omega (arith, more))
read_name-encode_labels texts [] (suc fuel) rest name h more = refl
read_name-encode_labels texts (label ∷ labels) (suc fuel) rest name h more =
    ap (λ x. read_name texts (suc fuel) x name) (encode_label texts label labels rest h.0)
    ∙ read_label texts fuel label (encode_labels labels ++ rest) name h.0
    ∙ read_name-encode_labels texts labels fuel rest (dotted name ++ label) h.1 (omega arith)

nonempty-append :
    (name label : Text) → is_empty_name label ≡ false → is_empty_name (name ++ label) ≡ false
nonempty-append name label h = ground (arith, length-append name label, h)

-- The labels after the first.
extend-join :
    (texts : NameTexts) (name label : Text) (labels : List Text)
    → is_empty_name name ≡ false
    → All (IsLabel texts) (label ∷ labels)
    → extend name (label ∷ labels) ≡ name ++ b'.' ∷ join_dots (label ∷ labels)
extend-join texts name label [] full h = rw full (append_assoc name (b'.' ∷ []) label)
extend-join texts name label (next ∷ labels) full h =
    let dot : dotted name ≡ name ++ b'.' ∷ [] = rw full refl in
    let rest = join_dots (next ∷ labels) in
    extend-join texts (dotted name ++ label) next labels
      (nonempty-append (dotted name) label h.0.full) h.1
    ∙ ap (λ x. (x ++ label) ++ b'.' ∷ rest) dot
    ∙ append_assoc (name ++ b'.' ∷ []) label (b'.' ∷ rest)
    ∙ append_assoc name (b'.' ∷ []) (label ++ b'.' ∷ rest)

extend-nil :
    (texts : NameTexts) (label : Text) (labels : List Text)
    → All (IsLabel texts) (label ∷ labels)
    → extend [] (label ∷ labels) ≡ join_dots (label ∷ labels)
extend-nil texts label [] h = refl
extend-nil texts label (next ∷ labels) h = extend-join texts label next labels h.0.full h.1

split_undotted :
    (label tail : Text)
    → any (eqb b'.') label ≡ false
    → split_dots (label ++ b'.' ∷ tail) ≡ label ∷ split_dots tail
unfolding split_dots
split_undotted [] tail h = refl
split_undotted (c ∷ label) tail h =
    let differ : eqb c b'.' ≡ false = ground (arith, h) in
    rw differ (ap (add_to_first c) (split_undotted label tail (ground (arith, h))))

split_last : (label : Text) → any (eqb b'.') label ≡ false → split_dots label ≡ label ∷ []
unfolding split_dots
split_last [] h = refl
split_last (c ∷ label) h =
    let differ : eqb c b'.' ≡ false = ground (arith, h) in
    rw differ (ap (add_to_first c) (split_last label (ground (arith, h))))

split_dots-join_dots :
    (texts : NameTexts) (label : Text) (labels : List Text)
    → All (IsLabel texts) (label ∷ labels)
    → split_dots (join_dots (label ∷ labels)) ≡ label ∷ labels
split_dots-join_dots texts label [] h = split_last label h.0.undotted
split_dots-join_dots texts label (next ∷ labels) h =
    split_undotted label (join_dots (next ∷ labels)) h.0.undotted
    ∙ ap (λ x. label ∷ x) (split_dots-join_dots texts next labels h.1)

-- A query as it stands in RFC 1035, with one question of class IN.
abbrev pub query_packet : ℕ → Text → ℕ → Bytes
query_packet txid name qtype =
    be_bytes 2 txid
    ++ (1 ∷ 0 ∷ 0 ∷ 1 ∷ 0 ∷ 0 ∷ 0 ∷ 0 ∷ 0 ∷ 0 ∷ encode_name name
        ++ (be_bytes 2 qtype ++ be_bytes 2 1))

read_encoded :
    (texts : NameTexts) (label : Text) (labels : List Text) (fuel : ℕ) (rest : Bytes)
    → All (IsLabel texts) (label ∷ labels)
    → length (label ∷ labels) < fuel
    → read_name texts fuel (encode_name (join_dots (label ∷ labels)) ++ rest) []
      ≡ some (join_dots (label ∷ labels), rest)
unfolding encode_name
read_encoded texts label labels fuel rest h more =
    ap (λ x. read_name texts fuel (encode_labels x ++ rest) [])
      (split_dots-join_dots texts label labels h)
    ∙ read_name-encode_labels texts (label ∷ labels) fuel rest [] h more
    ∙ ap (λ x. some (x, rest)) (extend-nil texts label labels h)

length-encode_labels :
    (texts : NameTexts) (labels : List Text)
    → All (IsLabel texts) labels
    → length labels < length (encode_labels labels)
unfolding encode_labels
length-encode_labels texts [] h = omega arith
length-encode_labels texts (label ∷ labels) h =
    let kept : (is_empty_name label || ltb 63 (length label)) ≡ false =
      ground (arith, h.0.full, h.0.fits) in
    rw kept (
      omega
        (arith, length-append label (encode_labels labels), length-encode_labels texts labels h.1))

enough_fuel :
    (texts : NameTexts) (label : Text) (labels : List Text) (rest : Bytes)
    → All (IsLabel texts) (label ∷ labels)
    → length (label ∷ labels) < length (encode_name (join_dots (label ∷ labels)) ++ rest) + 12
unfolding encode_name
enough_fuel texts label labels rest h = rw (split_dots-join_dots texts label labels h) (
    omega (
      arith,
      length-append (encode_labels (label ∷ labels)) rest,
      length-encode_labels texts (label ∷ labels) h,
    ))

parse_query_lem :
    (texts : NameTexts) (pkt name rest : Bytes)
    → ltb (length pkt) 12 ≡ false
    → leb 0x8000 (from_be (take 2 (drop 2 pkt))) ≡ false
    → eqb (from_be (take 2 (drop 4 pkt))) 1 ≡ true
    → read_name texts (length pkt) (drop 12 pkt) [] ≡ some (name, rest)
    → ltb (length rest) 4 ≡ false
    → parse_query texts pkt
      ≡ some (from_be (take 2 pkt), texts.to_lowercase (trim_dots name), from_be (take 2 rest))
unfolding parse_query
parse_query_lem texts pkt name rest long query single found enough =
    rw (parse_query, long, query, single, found, enough) refl

-- Nothing is taken off a name that does not end in a dot.
trim_dots-full : (s : Text) → is_empty_name s ≡ false → any (eqb b'.') s ≡ false → trim_dots s ≡ s
unfolding trim_dots
trim_dots-full [] full undotted = cc
trim_dots-full (c ∷ []) full undotted =
    (let differ : eqb c b'.' ≡ false = ground (arith, undotted) in rw differ refl)
trim_dots-full (c ∷ d ∷ s) full undotted =
    ap (cons_trimmed c) (trim_dots-full (d ∷ s) (ground arith) (ground (arith, undotted)))

trim_dots-append :
    (s t : Text) → is_empty_name t ≡ false → trim_dots t ≡ t → trim_dots (s ++ t) ≡ s ++ t
unfolding trim_dots
trim_dots-append [] t full kept = kept
trim_dots-append (c ∷ []) [] full kept = cc
trim_dots-append (c ∷ []) (d ∷ t) full kept = ap (cons_trimmed c) kept
trim_dots-append (c ∷ d ∷ s) t full kept =
    ap (cons_trimmed c) (trim_dots-append (d ∷ s) t full kept)

nonempty-join_dots :
    (texts : NameTexts) (label : Text) (labels : List Text)
    → All (IsLabel texts) (label ∷ labels)
    → is_empty_name (join_dots (label ∷ labels)) ≡ false
nonempty-join_dots texts label [] h = h.0.full
nonempty-join_dots texts label (next ∷ labels) h =
    ground (arith, length-append label (b'.' ∷ join_dots (next ∷ labels)))

trim_dots-join_dots :
    (texts : NameTexts) (label : Text) (labels : List Text)
    → All (IsLabel texts) (label ∷ labels)
    → trim_dots (join_dots (label ∷ labels)) ≡ join_dots (label ∷ labels)
trim_dots-join_dots texts label [] h = trim_dots-full label h.0.full h.0.undotted
trim_dots-join_dots texts label (next ∷ labels) h =
    trim_dots-append label (b'.' ∷ join_dots (next ∷ labels)) (ground arith) (
      trim_dots-append (b'.' ∷ []) (join_dots (next ∷ labels))
        (nonempty-join_dots texts next labels h.1) (trim_dots-join_dots texts next labels h.1))

-- A query for a name of labels of 1 to 63 bytes without dots is read: its number, its name in small
-- letters and its type come back.
pub parse_query-query_packet :
    (texts : NameTexts) (label : Text) (labels : List Text) (txid qtype : ℕ)
    → All (IsLabel texts) (label ∷ labels)
    → txid < 2 ^ 16
    → qtype < 2 ^ 16
    → parse_query texts (query_packet txid (join_dots (label ∷ labels)) qtype)
      ≡ some (txid, texts.to_lowercase (join_dots (label ∷ labels)), qtype)
parse_query-query_packet texts label labels txid qtype h small small2 =
    let name = join_dots (label ∷ labels) in
    let rest = be_bytes 2 qtype ++ be_bytes 2 1 in
    let pkt = query_packet txid name qtype in
    let long : 12 ≤ length pkt = ground arith in
    let found =
      read_encoded texts label labels (length pkt) rest h
        (omega (arith, enough_fuel texts label labels rest h)) in
    parse_query_lem texts pkt name rest (ground (arith, long)) refl refl found refl
    ∙ ap (λ t. some (t, texts.to_lowercase (trim_dots name), from_be (be_bytes 2 qtype)))
        (from_be-be_bytes 2 txid small)
    ∙ ap (λ t. some (txid, texts.to_lowercase (trim_dots name), t))
        (from_be-be_bytes 2 qtype small2)
    ∙ ap (λ n. some (txid, texts.to_lowercase n, qtype)) (trim_dots-join_dots texts label labels h)

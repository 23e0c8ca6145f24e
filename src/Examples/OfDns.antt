-- ===== src/Examples/OfDns.antt =====
-- The theorems about linkmesh-client/src/dns.rs at concrete inputs.
use link_mesh.Base.{◌≡◌, refl, some, [], ◌∷◌, Text, arith}
use link_mesh.Client.Dns.{NameTexts, parse_query}
use link_mesh.Client.Dns.Names.{IsLabel, join_dots, query_packet, parse_query-query_packet}

abbrev texts : NameTexts
texts = record { lossy = λ b. b; to_lowercase = λ t. t; trim = λ t. t; parse_ipv4 = λ t. some t }

abbrev nas : Text
nas = b'n' ∷ b'a' ∷ b's' ∷ []

abbrev lan : Text
lan = b'l' ∷ b'a' ∷ b'n' ∷ []

nas-IsLabel : IsLabel texts nas
nas-IsLabel = record { full = refl; fits = omega arith; undotted = refl; is_text = refl }

lan-IsLabel : IsLabel texts lan
lan-IsLabel = record { full = refl; fits = omega arith; undotted = refl; is_text = refl }

query_example :
    parse_query texts (query_packet 7 (join_dots (nas ∷ lan ∷ [])) 1)
    ≡ some (7, join_dots (nas ∷ lan ∷ []), 1)
query_example =
    parse_query-query_packet texts nas (lan ∷ []) 7 1 (nas-IsLabel, (lan-IsLabel, tt)) (omega arith)
      (omega arith)

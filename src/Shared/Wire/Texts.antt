-- ===== src/Shared/Wire/Texts.antt =====
-- Texts, keys and optional ones pass through the structures of linkmesh-shared/src/wire.rs.
use link_mesh.Base.{
  ℕ, zero, suc, ◌-◌, ◌≤◌, ◌≡◌, refl, sym, ap, ◌∙◌, Option, none, some, [], ◌∷◌, ◌++◌, append-nil,
  Bytes, Text, true, false, arith, length, length-append, replicate, length-replicate, any, ltb,
  eqb, Result, ok, ◌>>=◌, ok-injective,
}
use link_mesh.Shared.Cert.{Signatures}
use link_mesh.Shared.Wire.Layouts.{Layout}
use link_mesh.Shared.Wire.{
  WireError, is_utf8, set, until_nul, to_str, put_opt_str, get_opt_str, b64_bytes, put_opt_key,
  get_opt_key, encode_impl, decode_impl,
}

-- A text that a buffer of `n` bytes carries.
pub record IsWireText (n : ℕ) (s : Text) : Type 0 where
  pub no_nul : any (λ b. eqb b 0) s ≡ false
  pub short : length s ≤ n
  pub utf8 : is_utf8 s ≡ true

-- The base64 text of `n` bytes.
pub record IsKeyText (sigs : Signatures) (n : ℕ) (s : Text) : Type 0 where
  pub raw : Bytes
  pub size : length raw ≡ n
  pub text : sigs.encode raw ≡ s

abbrev pub OnSome : (Text → Type 0) → Option Text → Type 0
OnSome P none = Unit
OnSome P (some s) = P s

-- What `fill` makes of `a` is a structure that fits, from which `get` reads `a` again.
abbrev pub Carries :
    {A W : Type 0} → (A → Result WireError W) → (W → Type 0) → (W → Result WireError A) → A → Type 0
Carries {W} fill Fits get a = (w : W) × (fill a ≡ ok w) × Fits w × (get w ≡ ok a)

until_nul-append :
    (s : Text) (k : ℕ) → any (λ b. eqb b 0) s ≡ false → until_nul (s ++ replicate k 0) ≡ s
until_nul-append [] zero h = refl
until_nul-append [] (suc k) h = refl
until_nul-append (b ∷ s) k h = ground (arith, until_nul-append s k)

pub set-Carries :
    (n : ℕ) (s : Text) → IsWireText n s → Carries (set n) (λ buf. length buf ≡ n) to_str s
unfolding set to_str
set-Carries n s h =
    let fits : ltb n (length s) ≡ false = ground (arith, h.short) in
    (
      s ++ replicate (n - length s) 0,
      rw (h.no_nul, fits),
      omega (
        arith,
        h.short,
        length-append s (replicate (n - length s) 0),
        length-replicate {A = ℕ} (n - length s) 0,
      ),
      rw (until_nul-append s (n - length s) h.no_nul, h.utf8),
    )

abbrev pub FitsOption : ℕ → ℕ × Bytes → Type 0
FitsOption n p = length p.1 ≡ n

pub put_opt_str-Carries :
    (n : ℕ) (o : Option Text)
    → OnSome (IsWireText n) o
    → Carries (put_opt_str n) (FitsOption n) (λ p. get_opt_str p.0 p.1) o
unfolding put_opt_str get_opt_str
put_opt_str-Carries n none h = ((0, replicate n 0), refl, length-replicate n 0, refl)
put_opt_str-Carries n (some s) h =
    let (buf, stored, size, back) = set-Carries n s h in ((1, buf), rw stored, size, rw back)

pub b64_bytes-Carries :
    (sigs : Signatures) (n : ℕ) (s : Text)
    → IsKeyText sigs n s
    → Carries (b64_bytes sigs n) (λ b. length b ≡ n) (λ b. ok (sigs.encode b)) s
unfolding b64_bytes
b64_bytes-Carries sigs n s h =
    let size : eqb (length h.raw) n ≡ true = ground (arith, h.size) in
    (h.raw, rw (sym h.text) (rw (sigs.decode-trim-encode h.raw, size)), h.size, ap ok h.text)

pub put_opt_key-Carries :
    (sigs : Signatures) (n : ℕ) (o : Option Text)
    → OnSome (IsKeyText sigs n) o
    → Carries (put_opt_key sigs n) (FitsOption n) (λ p. ok (get_opt_key sigs p.0 p.1)) o
unfolding put_opt_key
put_opt_key-Carries sigs n none h = ((0, replicate n 0), refl, length-replicate n 0, refl)
put_opt_key-Carries sigs n (some s) h =
    let (b, stored, size, back) = b64_bytes-Carries sigs n s h in
    ((1, b), rw stored, size, ap (λ t. ok (some t)) (ok-injective back))

module _ {A W : Type 0} (l : Layout W) (fill : A → Result WireError W)
    (get : W → Result WireError A) where
  -- The bytes of a structure that is filled, and what is read from them.
  pub encode_impl-Carries :
      (a : A)
      → Carries fill l.Fits get a
      → (s : Bytes) × (encode_impl l (fill a) ≡ ok s) × ((decode_impl l s >>= get) ≡ ok a)
  unfolding encode_impl decode_impl
  encode_impl-Carries a (w, filled, fits, back) =
      let size = l.length-write w fits in
      let enough : ltb (length (l.write w)) l.size ≡ false = ground (arith, size) in
      let exact : ltb l.size (length (l.write w)) ≡ false = ground (arith, size) in
      let same : l.read (l.write w) ≡ w =
        ap l.read (sym (append-nil (l.write w))) ∙ l.read-write w [] fits in
      (l.write w, rw filled, rw (enough, exact, same) back)

  pub decode_impl-encode_impl :
      (a : A)
      → Carries fill l.Fits get a
      → (encode_impl l (fill a) >>= λ s. decode_impl l s >>= get) ≡ ok a
  decode_impl-encode_impl a h = let (s, written, back) = encode_impl-Carries a h in rw written back

-- ===== src/Shared/Wire/Strict.antt =====
-- What the decoders of linkmesh-shared/src/wire.rs let through is well-formed, whatever bytes come.
use link_mesh.Base.{
  ℕ, ◌≤◌, ◌≡◌, refl, [], ◌∷◌, Bytes, false, arith, length, any, ltb, eqb, not, All, Bool-cases, inl,
  inr, Ensures, returns, Ensures-bind, Ensures-guard,
}
use link_mesh.Shared.Cert.{Signatures}
use link_mesh.Shared.Wire.Layouts.{Layout, IsByte}
use link_mesh.Shared.Wire.{is_utf8, until_nul, to_str, get_opt_str, get_opt_key, decode_impl}
use link_mesh.Shared.Wire.Texts.{IsWireText, IsKeyText, OnSome}

until_nul_clean : (s : Bytes) → any (λ b. eqb b 0) (until_nul s) ≡ false
until_nul_clean [] = refl
until_nul_clean (b ∷ s) = ground (arith, until_nul_clean s)

length-until_nul : (s : Bytes) → length (until_nul s) ≤ length s
length-until_nul [] = omega arith
length-until_nul (b ∷ s) = ground (arith, length-until_nul s)

pub to_str-Ensures : (n : ℕ) (buf : Bytes) → length buf ≡ n → Ensures (IsWireText n) (to_str buf)
unfolding to_str
to_str-Ensures n buf size = Ensures-bind (Ensures-guard (is_utf8 (until_nul buf)) _) λ _ valid.
    returns (record {
      no_nul = until_nul_clean buf;
      short = omega (arith, length-until_nul buf);
      utf8 = valid;
    })

pub get_opt_str-Ensures :
    (n flag : ℕ) (buf : Bytes)
    → length buf ≡ n
    → Ensures (OnSome (IsWireText n)) (get_opt_str flag buf)
unfolding get_opt_str
get_opt_str-Ensures n flag buf size = elim (Bool-cases (eqb flag 1)) [
  | inl present ↦ rw present (Ensures-bind (to_str-Ensures n buf size) λ s h. returns h)
  | inr absent ↦ rw absent (returns tt)
]

module _ (sigs : Signatures) where
  pub encode-IsKeyText : (n : ℕ) (b : Bytes) → length b ≡ n → IsKeyText sigs n (sigs.encode b)
  encode-IsKeyText n b size = record { raw = b; size = size; text = refl }

  pub get_opt_key-IsKeyText :
      (n flag : ℕ) (b : Bytes) → length b ≡ n → OnSome (IsKeyText sigs n) (get_opt_key sigs flag b)
  get_opt_key-IsKeyText n flag b size = elim (Bool-cases (eqb flag 1)) [
    | inl present ↦ rw present (encode-IsKeyText n b size)
    | inr absent ↦ rw absent tt
  ]

-- A structure that is read from bytes fits.
pub decode_impl-Ensures :
    {W : Type 0} (l : Layout W) (s : Bytes) → All IsByte s → Ensures l.Fits (decode_impl l s)
unfolding decode_impl
decode_impl-Ensures l s h = Ensures-bind (Ensures-guard (not (ltb (length s) l.size)) _) λ _ enough.
    Ensures-bind (Ensures-guard (not (ltb l.size (length s))) _)
      λ _ exact. returns (l.read-Fits s (ground arith) h)

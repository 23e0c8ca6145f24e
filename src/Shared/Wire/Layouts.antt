-- ===== src/Shared/Wire/Layouts.antt =====
-- `#[repr(C)]` structures without padding, as the derives of zerocopy lay out those of
-- linkmesh-shared/src/wire.rs: the fields in order, each of a fixed size.
use link_mesh.Base.{
  ℕ, zero, suc, ◌+◌, ◌*◌, ◌^◌, ◌≤◌, ◌<◌, ◌≡◌, refl, sym, ap, ◌∙◌, List, [], ◌∷◌, ◌++◌, append_assoc,
  Bytes, arith, length, length-append, take, drop, take-append_of, drop-append_of, length-take,
  length-drop, All, All-drop, subst,
}
use native.Mathlib.Nat.{pow-suc}
use link_mesh.Base.Endian.{le_bytes, from_le, length-le_bytes, from_le-le_bytes}

abbrev pub IsByte : ℕ → Type 0
IsByte b = b < 256

-- How a type is laid out: its size, its bytes, and what is read from bytes. `Fits` holds of the
-- values of the type in Rust: an array has its length, a number its width.
pub record Layout (A : Type 0) : Type 1 where
  pub size : ℕ
  pub write : A → Bytes
  pub read : Bytes → A
  pub Fits : A → Type 0
  pub length-write : (a : A) → Fits a → length (write a) ≡ size
  pub read-write : (a : A) (rest : Bytes) → Fits a → read (write a ++ rest) ≡ a
  pub read-Fits : (s : Bytes) → size ≤ length s → All IsByte s → Fits (read s)

pub length-take_enough : (n : ℕ) (s : Bytes) → n ≤ length s → All IsByte s → length (take n s) ≡ n
length-take_enough n s enough h = omega (arith, length-take n s)

-- `[u8; N]`
abbrev pub bytes : ℕ → Layout Bytes
bytes n = record {
  size = n;
  write = λ b. b;
  read = take n;
  Fits = λ b. length b ≡ n;
  length-write = λ b h. h;
  read-write = λ b rest h. take-append_of n b rest h;
  read-Fits = length-take_enough n;
}

abbrev pub first_byte : Bytes → ℕ
first_byte [] = 0
first_byte (b ∷ rest) = b

-- `u8`
abbrev pub byte : Layout ℕ
byte = record {
  size = 1;
  write = λ b. b ∷ [];
  read = first_byte;
  Fits = λ b. Unit {0};
  length-write = λ b h. refl;
  read-write = λ b rest h. refl;
  read-Fits = λ s enough h. tt;
}

pub from_le-take :
    (w v : ℕ) (rest : Bytes) → v < 256 ^ w → from_le (take w (le_bytes w v ++ rest)) ≡ v
from_le-take w v rest h =
    ap from_le (take-append_of w (le_bytes w v) rest (length-le_bytes w v)) ∙ from_le-le_bytes w v h

pub from_le-take-lt :
    (w : ℕ) (s : Bytes) → w ≤ length s → All IsByte s → from_le (take w s) < 256 ^ w
from_le-take-lt zero s enough h = omega arith
from_le-take-lt (suc w) [] enough h = absurd (omega arith)
from_le-take-lt (suc w) (b ∷ s) enough h =
    omega (arith, pow-suc 256 w, from_le-take-lt w s (omega arith) h.1, h.0)

-- `U16`, `U32`, `U64`: little-endian numbers of `w` bytes.
abbrev pub word : ℕ → Layout ℕ
word w = record {
  size = w;
  write = le_bytes w;
  read = λ b. from_le (take w b);
  Fits = λ v. v < 256 ^ w;
  length-write = λ v h. length-le_bytes w v;
  read-write = from_le-take w;
  read-Fits = from_le-take-lt w;
}

module _ {A B : Type 0} (la : Layout A) (lb : Layout B) where
  abbrev pub write_pair : A × B → Bytes
  write_pair (a, b) = la.write a ++ lb.write b

  abbrev pub read_pair : Bytes → A × B
  read_pair s = (la.read s, lb.read (drop la.size s))

  pub length-write_pair :
      (p : A × B) → la.Fits p.0 × lb.Fits p.1 → length (write_pair p) ≡ la.size + lb.size
  length-write_pair (a, b) (ha, hb) =
      omega
        (arith, length-append (la.write a) (lb.write b), la.length-write a ha, lb.length-write b hb)

  pub read-write_pair :
      (p : A × B) (rest : Bytes) → la.Fits p.0 × lb.Fits p.1 → read_pair (write_pair p ++ rest) ≡ p
  read-write_pair (a, b) rest (ha, hb) =
      let order = append_assoc (la.write a) (lb.write b) rest in
      let first : la.read ((la.write a ++ lb.write b) ++ rest) ≡ a =
        ap la.read order ∙ la.read-write a (lb.write b ++ rest) ha in
      let second : lb.read (drop la.size ((la.write a ++ lb.write b) ++ rest)) ≡ b =
        ap (λ s. lb.read (drop la.size s)) order
        ∙ ap lb.read
            (drop-append_of la.size (la.write a) (lb.write b ++ rest) (la.length-write a ha))
        ∙ lb.read-write b rest hb in
      λ i. (first i, second i)

  pub read_pair-Fits :
      (s : Bytes)
      → la.size + lb.size ≤ length s
      → All IsByte s
      → la.Fits (read_pair s).0 × lb.Fits (read_pair s).1
  read_pair-Fits s enough h = (
    la.read-Fits s (omega arith) h,
    lb.read-Fits (drop la.size s) (omega (arith, length-drop la.size s))
        (All-drop IsByte la.size s h),
  )

-- A field, and the fields after it.
infixr 40 ◌▹◌
abbrev pub ◌▹◌ : {A B : Type 0} → Layout A → Layout B → Layout (A × B)
la ▹ lb = record {
  size = la.size + lb.size;
  write = write_pair la lb;
  read = read_pair la lb;
  Fits = λ p. la.Fits p.0 × lb.Fits p.1;
  length-write = length-write_pair la lb;
  read-write = read-write_pair la lb;
  read-Fits = read_pair-Fits la lb;
}

-- A structure with the fields of a tuple.
abbrev pub struct :
    {R T : Type 0} (to : R → T) (from : T → R)
    → ((r : R) → from (to r) ≡ r)
    → ((t : T) → to (from t) ≡ t)
    → Layout T
    → Layout R
struct to from same same' l = record {
  size = l.size;
  write = λ r. l.write (to r);
  read = λ s. from (l.read s);
  Fits = λ r. l.Fits (to r);
  length-write = λ r h. l.length-write (to r) h;
  read-write = λ r rest h. ap from (l.read-write (to r) rest h) ∙ same r;
  read-Fits = λ s enough h. subst l.Fits (sym (same' (l.read s))) (l.read-Fits s enough h);
}

module _ {A : Type 0} (l : Layout A) where
  abbrev pub write_all : List A → Bytes
  write_all [] = []
  write_all (a ∷ xs) = l.write a ++ write_all xs

  abbrev pub read_all : ℕ → Bytes → List A
  read_all zero s = []
  read_all (suc n) s = l.read s ∷ read_all n (drop l.size s)

  pub length-write_all :
      (n : ℕ) (xs : List A) → (length xs ≡ n) × All l.Fits xs → length (write_all xs) ≡ n * l.size
  length-write_all n [] (h, fits) = rw (← h) (omega arith)
  length-write_all zero (a ∷ xs) (h, fits) = absurd (omega arith)
  length-write_all (suc n) (a ∷ xs) (h, fits) = grind (
    arith,
    length-append (l.write a) (write_all xs),
    l.length-write a fits.0,
    length-write_all n xs (omega arith, fits.1),
  )

  pub read-write_all :
      (n : ℕ) (xs : List A) (rest : Bytes)
      → (length xs ≡ n) × All l.Fits xs
      → read_all n (write_all xs ++ rest) ≡ xs
  read-write_all zero [] rest h = refl
  read-write_all (suc n) [] rest (h, fits) = absurd (omega arith)
  read-write_all zero (a ∷ xs) rest (h, fits) = absurd (omega arith)
  read-write_all (suc n) (a ∷ xs) rest (h, fits) =
      let order = append_assoc (l.write a) (write_all xs) rest in
      let first : l.read ((l.write a ++ write_all xs) ++ rest) ≡ a =
        ap l.read order ∙ l.read-write a (write_all xs ++ rest) fits.0 in
      let others : read_all n (drop l.size ((l.write a ++ write_all xs) ++ rest)) ≡ xs =
        ap (λ s. read_all n (drop l.size s)) order
        ∙ ap (read_all n)
            (drop-append_of l.size (l.write a) (write_all xs ++ rest) (l.length-write a fits.0))
        ∙ read-write_all n xs rest (omega arith, fits.1) in
      λ i. first i ∷ others i

  pub read_all-Fits :
      (n : ℕ) (s : Bytes)
      → n * l.size ≤ length s
      → All IsByte s
      → (length (read_all n s) ≡ n) × All l.Fits (read_all n s)
  read_all-Fits zero s enough h = (refl, tt)
  read_all-Fits (suc n) s enough h =
      let total : suc n * l.size ≡ l.size + n * l.size = grind arith in
      let rest =
        read_all-Fits n (drop l.size s) (omega (arith, total, length-drop l.size s))
          (All-drop IsByte l.size s h) in
      (omega (arith, rest.0), (l.read-Fits s (omega (arith, total)) h, rest.1))

-- `[T; N]`
abbrev pub array : {A : Type 0} → ℕ → Layout A → Layout (List A)
array n l = record {
  size = n * l.size;
  write = write_all l;
  read = read_all l n;
  Fits = λ xs. (length xs ≡ n) × All l.Fits xs;
  length-write = length-write_all l n;
  read-write = read-write_all l n;
  read-Fits = read_all-Fits l n;
}

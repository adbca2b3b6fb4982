-- ===== src/Cas/Keys.antt =====
-- server/internal/cas/chunker.go: compression loses nothing, and a key names one hash.
use private_cloud.Prelude.{
  ℕ, ◌*◌, ◌/◌, ◌%◌, ◌≤◌, ◌≡◌, refl, ap, ap₂, Bool-cases, inl, inr, List, [], ◌∷◌, Text, length,
  drop, ltb, ok, arith,
}
use private_cloud.Cas.Codec.{Libraries, compress_chunk, decompress, storage_key, hex, hex_digit}

-- What the store writes for a chunk decompresses to the chunk, whether or not it was compressed.
pub decompress-compress_chunk :
    (l : Libraries) (plain : Text)
    → decompress l (compress_chunk l plain).0 (compress_chunk l plain).1 ≡ ok plain
unfolding decompress compress_chunk
decompress-compress_chunk l plain =
    elim (Bool-cases (ltb (length (l.encode plain)) (length plain * 9 / 10))) [
      | inl small ↦ rw (small, l.decode_encode plain) refl
      | inr big ↦ rw big refl
    ]

hex_digit-injective : (a b : ℕ) → hex_digit a ≡ hex_digit b → a ≡ b
hex_digit-injective a b e = ground arith

byte-injective :
    (a b : ℕ)
    → hex_digit (a / 16) ≡ hex_digit (b / 16)
    → hex_digit (a % 16) ≡ hex_digit (b % 16)
    → a ≡ b
byte-injective a b e f =
    omega (arith, hex_digit-injective (a / 16) (b / 16) e, hex_digit-injective (a % 16) (b % 16) f)

head_eq : {A : Type 0} (x y : A) (xs ys : List A) → x ∷ xs ≡ y ∷ ys → (x ≡ y) × (xs ≡ ys)
head_eq x y xs ys e = (cc, cc)

pub hex-injective : (s t : Text) → hex s ≡ hex t → s ≡ t
hex-injective [] [] e = refl
hex-injective [] (b ∷ t) e = cc
hex-injective (a ∷ s) [] e = cc
hex-injective (a ∷ s) (b ∷ t) e =
    let (p, r) = head_eq _ _ _ _ e in
    let (q, r') = head_eq _ _ _ _ r in
    ap₂ {C = List ℕ} (λ (x : ℕ) (xs : List ℕ). x ∷ xs) (byte-injective a b p q)
      (hex-injective s t r')

-- Two digests of at least two bytes that have the same path in the blob store are the same digest.
pub storage_key-injective :
    (s t : Text) → 2 ≤ length s → 2 ≤ length t → storage_key s ≡ storage_key t → s ≡ t
unfolding storage_key
storage_key-injective (a ∷ b ∷ s) (c ∷ d ∷ t) h k e =
    hex-injective (a ∷ b ∷ s) (c ∷ d ∷ t) (ap (drop 6) e)
storage_key-injective [] t h k e = absurd (omega arith)
storage_key-injective (a ∷ []) t h k e = absurd (omega arith)
storage_key-injective (a ∷ b ∷ s) [] h k e = absurd (omega arith)
storage_key-injective (a ∷ b ∷ s) (c ∷ []) h k e = absurd (omega arith)

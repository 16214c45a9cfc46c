-- ===== src/Presentation/Reader.antt =====
-- `bytesReader` of system/api/src/zkprequest/service.go: how a serialized key is handed to gnark.
use digital_identity_system.Prelude.{
  ℕ, zero, suc, ◌+◌, ◌<◌, ◌≤◌, ◌≡◌, refl, sym, ap, ◌∙◌, inl, inr, ◌⊎◌, Option, none, some, [], ◌∷◌,
  ◌++◌, leb, if◌then◌else◌, length, take, drop, arith, Bool-cases,
}
use digital_identity_system.Presentation.Types.{Bytes}

pub record BytesReader : Type 0 where
  pub b : Bytes
  pub i : ℕ

unfoldable pub new_bytes_reader : Bytes → BytesReader
new_bytes_reader b = record { b = b; i = 0 }

-- `Read` into a buffer of `n` bytes: what was copied, or `none` at the end (io.EOF).
unfoldable pub read : ℕ → BytesReader → Option (Bytes × BytesReader)
read n r =
    let got = take n (drop r.i r.b) in
    if leb (length r.b) r.i then none else some (got, record r { i = r.i + length got })

-- What is left to read.
abbrev pub unread : BytesReader → Bytes
unread r = drop r.i r.b

take-append-drop : (n : ℕ) (xs : Bytes) → take n xs ++ drop n xs ≡ xs
take-append-drop zero xs = refl
take-append-drop (suc n) [] = refl
take-append-drop (suc n) (x ∷ xs) = ap (λ l. x ∷ l) (take-append-drop n xs)

drop-nil : (n : ℕ) → drop {A = ℕ} n [] ≡ []
drop-nil zero = refl
drop-nil (suc n) = refl

drop-drop : (i k : ℕ) (xs : Bytes) → drop (i + k) xs ≡ drop k (drop i xs)
drop-drop zero k xs = ap (λ n. drop n xs) (omega arith)
drop-drop (suc i) k [] = drop-nil (suc i + k) ∙ sym (drop-nil k)
drop-drop (suc i) k (x ∷ xs) = ap (λ n. drop n (x ∷ xs)) (next i k) ∙ drop-drop i k xs
  where
    next : (i k : ℕ) → suc i + k ≡ suc (i + k)
    next i k = omega arith

drop-length-take : (n : ℕ) (xs : Bytes) → drop (length (take n xs)) xs ≡ drop n xs
drop-length-take zero xs = refl
drop-length-take (suc n) [] = refl
drop-length-take (suc n) (x ∷ xs) = drop-length-take n xs

length-take-drop : (n i : ℕ) (xs : Bytes) → 0 < n → i < length xs → 0 < length (take n (drop i xs))
length-take-drop n i [] room h = absurd (omega arith)
length-take-drop zero zero (x ∷ xs) room h = absurd (omega arith)
length-take-drop (suc n) zero (x ∷ xs) room h = omega arith
length-take-drop n (suc i) (x ∷ xs) room h = length-take-drop n i xs room (omega arith)

length-drop : (i : ℕ) (xs : Bytes) → length xs ≤ i → drop i xs ≡ []
length-drop i [] h = drop-nil i
length-drop zero (x ∷ xs) h = absurd (omega arith)
length-drop (suc i) (x ∷ xs) h = length-drop i xs (omega arith)

-- Reading into a buffer with room either ends, and then every byte has been read, or copies the next
-- bytes, at least one, that are left, and leaves the rest.
pub read_progress :
    (n : ℕ) (r : BytesReader)
    → 0 < n
    → ((read n r ≡ none) × (unread r ≡ []))
      ⊎ (got : Bytes) × (next : BytesReader) × (read n r ≡ some (got, next))
        × (got ++ unread next ≡ unread r)
        × (0 < length got)
unfolding read
read_progress n r room = elim (Bool-cases (leb (length r.b) r.i)) [
  | inl over ↦ inl (simp over refl, length-drop r.i r.b (ground arith))
  | inr more ↦
      let got = take n (drop r.i r.b) in
      inr (
        got,
        record r { i = r.i + length got },
        simp more refl,
        ap (λ rest. got ++ rest)
              (drop-drop r.i (length got) r.b ∙ drop-length-take n (drop r.i r.b))
            ∙ take-append-drop n (drop r.i r.b),
        length-take-drop n r.i r.b room (ground arith),
      )
]

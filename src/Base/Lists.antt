-- ===== src/Base/Lists.antt =====
-- Lists measured and cut by native numbers, under the library's names, and predicates on lists.
use Prim.Native.Nat.{ℕ, zero, suc, ◌+◌, ◌-◌, ◌≤◌, min}
use mathlib.Core.Path.{◌≡◌, refl, ap, sym, ◌∙◌}
use mathlib.Core.List.{List, [], ◌∷◌, ◌++◌}
use native.Mathlib.Omega.{arith}

module _ {ℓ} {A : Type ℓ} where
  abbrev pub length : List A → ℕ
  length [] = 0
  length (x ∷ xs) = suc (length xs)

  abbrev pub take : ℕ → List A → List A
  take zero xs = []
  take (suc n) [] = []
  take (suc n) (x ∷ xs) = x ∷ take n xs

  abbrev pub drop : ℕ → List A → List A
  drop zero xs = xs
  drop (suc n) [] = []
  drop (suc n) (x ∷ xs) = drop n xs

  abbrev pub replicate : ℕ → A → List A
  replicate zero a = []
  replicate (suc n) a = a ∷ replicate n a

  -- What a call leaves in a buffer into which it copies `bytes` from the start; it writes nothing
  -- behind the buffer's end.
  abbrev pub overlay : List A → List A → List A
  overlay [] bytes = []
  overlay (x ∷ xs) [] = x ∷ xs
  overlay (x ∷ xs) (b ∷ bytes) = b ∷ overlay xs bytes

  abbrev pub All {κ} : (A → Type κ) → List A → Type κ
  All P [] = Unit
  All P (x ∷ xs) = P x × All P xs

  pub length-append : (xs ys : List A) → length (xs ++ ys) ≡ length xs + length ys
  length-append [] ys = omega arith
  length-append (x ∷ xs) ys = omega (arith, length-append xs ys)

  pub length-take : (n : ℕ) (xs : List A) → length (take n xs) ≡ min n (length xs)
  length-take zero xs = omega arith
  length-take (suc n) [] = omega arith
  length-take (suc n) (x ∷ xs) = omega (arith, length-take n xs)

  pub length-drop : (n : ℕ) (xs : List A) → length (drop n xs) ≡ length xs - n
  length-drop zero xs = omega arith
  length-drop (suc n) [] = omega arith
  length-drop (suc n) (x ∷ xs) = omega (arith, length-drop n xs)

  pub length-overlay : (xs bytes : List A) → length (overlay xs bytes) ≡ length xs
  length-overlay [] bytes = refl
  length-overlay (x ∷ xs) [] = refl
  length-overlay (x ∷ xs) (b ∷ bytes) = ap suc (length-overlay xs bytes)

  pub length-replicate : (n : ℕ) (a : A) → length (replicate n a) ≡ n
  length-replicate zero a = refl
  length-replicate (suc n) a = ap suc (length-replicate n a)

  pub take-append-drop : (n : ℕ) (xs : List A) → take n xs ++ drop n xs ≡ xs
  take-append-drop zero xs = refl
  take-append-drop (suc n) [] = refl
  take-append-drop (suc n) (x ∷ xs) = ap (◌∷◌ x) (take-append-drop n xs)

  pub append_nil : (xs : List A) → xs ++ [] ≡ xs
  append_nil [] = refl
  append_nil (x ∷ xs) = ap (◌∷◌ x) (append_nil xs)

  pub append_assoc : (xs ys zs : List A) → xs ++ ys ++ zs ≡ xs ++ (ys ++ zs)
  append_assoc [] ys zs = refl
  append_assoc (x ∷ xs) ys zs = ap (◌∷◌ x) (append_assoc xs ys zs)

  take-suc_add : (m n : ℕ) (x : A) (xs : List A) → take (suc m + n) (x ∷ xs) ≡ x ∷ take (m + n) xs
  take-suc_add m n x xs =
      let sum : suc m + n ≡ suc (m + n) = omega arith in ap (λ k. take k (x ∷ xs)) sum

  take-nil : (n : ℕ) → take n [] ≡ []
  take-nil zero = refl
  take-nil (suc n) = refl

  pub take_add : (m n : ℕ) (xs : List A) → take (m + n) xs ≡ take m xs ++ take n (drop m xs)
  take_add zero n xs = let sum : zero + n ≡ n = omega arith in ap (λ m. take m xs) sum
  take_add (suc m) n [] = take-nil (suc m + n) ∙ sym (take-nil n)
  take_add (suc m) n (x ∷ xs) = take-suc_add m n x xs ∙ ap (◌∷◌ x) (take_add m n xs)

  pub take-overlay :
      (xs bytes : List A)
      → length bytes ≤ length xs
      → take (length bytes) (overlay xs bytes) ≡ bytes
  take-overlay xs [] h = refl
  take-overlay [] (b ∷ bytes) h = ground arith
  take-overlay (x ∷ xs) (b ∷ bytes) h = ap (◌∷◌ b) (take-overlay xs bytes (omega arith))

  -- What stands before the end of the bytes that a call wrote at a place of a buffer.
  pub take-write :
      (at : ℕ) (buf bytes : List A)
      → at + length bytes ≤ length buf
      → take (at + length bytes) (take at buf ++ overlay (drop at buf) bytes) ≡ take at buf ++ bytes
  take-write zero buf bytes h =
      let sum : zero + length bytes ≡ length bytes = omega arith in
      ap (λ m. take m (overlay buf bytes)) sum ∙ take-overlay buf bytes (omega arith)
  take-write (suc at) [] bytes h = ground arith
  take-write (suc at) (x ∷ buf) bytes h =
      take-suc_add at (length bytes) x _ ∙ ap (◌∷◌ x) (take-write at buf bytes (omega arith))

  pub length-write :
      (at : ℕ) (buf bytes : List A)
      → length (take at buf ++ overlay (drop at buf) bytes) ≡ length buf
  length-write zero buf bytes = length-overlay buf bytes
  length-write (suc at) [] bytes = length-overlay [] bytes
  length-write (suc at) (x ∷ buf) bytes = ap suc (length-write at buf bytes)

  All-overlay {κ} :
      (P : A → Type κ) (xs bytes : List A) → All P xs → All P bytes → All P (overlay xs bytes)
  All-overlay P [] bytes h g = h
  All-overlay P (x ∷ xs) [] h g = h
  All-overlay P (x ∷ xs) (b ∷ bytes) h g = (g.0, All-overlay P xs bytes h.1 g.1)

  pub All-write {κ} :
      (P : A → Type κ) (at : ℕ) (buf bytes : List A)
      → All P buf
      → All P bytes
      → All P (take at buf ++ overlay (drop at buf) bytes)
  All-write P zero buf bytes h g = All-overlay P buf bytes h g
  All-write P (suc at) [] bytes h g = tt
  All-write P (suc at) (x ∷ buf) bytes h g = (h.0, All-write P at buf bytes h.1 g)

  pub All-replicate {κ} : (P : A → Type κ) (n : ℕ) (a : A) → P a → All P (replicate n a)
  All-replicate P zero a h = tt
  All-replicate P (suc n) a h = (h, All-replicate P n a h)

  pub take_all : (n : ℕ) (xs : List A) → length xs ≤ n → take n xs ≡ xs
  take_all zero [] h = refl
  take_all zero (x ∷ xs) h = ground arith
  take_all (suc n) [] h = refl
  take_all (suc n) (x ∷ xs) h = ap (◌∷◌ x) (take_all n xs (omega arith))

-- ===== src/Common/Buffers.antt =====
-- Writes into a buffer, and the parts of a list that `take` and `drop` give.
use mathlib.Core.Path.{◌≡◌, refl, sym, ap, ◌∙◌}
use mathlib.Core.List.{List, [], ◌∷◌, ◌++◌, append_assoc, append-nil}
use Prim.Native.Nat.{ℕ, zero, suc, ◌+◌, ◌-◌, ◌≤◌}
use native.Mathlib.Omega.{arith}
use wifi_audio.Common.Lists.{length, take, drop, length-append, length-take, length-drop}

-- Write `new` at index `i`.
abbrev pub overwrite {ℓ} : {A : Type ℓ} → List A → ℕ → List A → List A
overwrite buff i new = take i buff ++ new ++ drop (i + length new) buff

module _ {ℓ} {A : Type ℓ} where
  pub length-overwrite :
      (buff new : List A) (i : ℕ)
      → i + length new ≤ length buff
      → length (overwrite buff i new) ≡ length buff
  length-overwrite buff new i h = simp (length-append, length-take, length-drop) (omega arith)

  pub take_all : (n : ℕ) (xs : List A) → length xs ≤ n → take n xs ≡ xs
  take_all zero [] h = refl
  take_all zero (x ∷ xs) h = absurd (omega arith)
  take_all (suc n) [] h = refl
  take_all (suc n) (x ∷ xs) h = ap (λ ys. x ∷ ys) (take_all n xs (omega arith))

  pub drop-append : (xs ys : List A) → drop (length xs) (xs ++ ys) ≡ ys
  drop-append [] ys = refl
  drop-append (x ∷ xs) ys = drop-append xs ys

  pub take-append : (xs ys : List A) → take (length xs) (xs ++ ys) ≡ xs
  take-append [] ys = refl
  take-append (x ∷ xs) ys = ap (λ zs. x ∷ zs) (take-append xs ys)

  pub take-drop : (n : ℕ) (xs : List A) → take n xs ++ drop n xs ≡ xs
  take-drop zero xs = refl
  take-drop (suc n) [] = refl
  take-drop (suc n) (x ∷ xs) = ap (λ ys. x ∷ ys) (take-drop n xs)

  pub drop-nil : (n : ℕ) → drop {A = A} n [] ≡ []
  drop-nil zero = refl
  drop-nil (suc n) = refl

  pub drop-drop : (m n : ℕ) (xs : List A) → drop n (drop m xs) ≡ drop (m + n) xs
  drop-drop zero n xs = ap (λ k. drop k xs) (omega arith)
  drop-drop (suc m) n [] = drop-nil n ∙ sym (drop-nil (suc m + n))
  drop-drop (suc m) n (x ∷ xs) =
      drop-drop m n xs
      ∙ ap (λ k. drop k (x ∷ xs)) (let e : suc (m + n) ≡ suc m + n = omega arith in e)

  overwrite-behind :
      (front rest new : List A)
      → overwrite (front ++ rest) (length front) new ≡ front ++ new ++ drop (length new) rest
  overwrite-behind front rest new = simp (
    take-append front rest,
    ← drop-drop (length front) (length new) (front ++ rest),
    drop-append front rest,
  )

  -- Two writes, the second right behind the first, are one.
  pub overwrite-overwrite :
      (buff a b : List A) (i : ℕ)
      → i ≤ length buff
      → overwrite (overwrite buff i a) (i + length a) b ≡ overwrite buff i (a ++ b)
  overwrite-overwrite buff a b i h =
      let front = take i buff ++ a in
      let size : length front ≡ i + length a = simp (length-append, length-take) (omega arith) in
      let rest = drop (i + length a) buff in
      ap (λ k. overwrite (overwrite buff i a) k b) (sym size)
      ∙ overwrite-behind front rest b
      ∙ simp (append_assoc, drop-drop (i + length a) (length b) buff, length-append)
          (ap (λ k. take i buff ++ (a ++ (b ++ drop k buff)))
            (let e : i + length a + length b ≡ i + (length a + length b) = omega arith in e))

  pub take_nil : (n : ℕ) → take {A = A} n [] ≡ []
  take_nil zero = refl
  take_nil (suc n) = refl

  drop_all : (n : ℕ) (xs : List A) → length xs ≤ n → drop n xs ≡ []
  drop_all zero [] h = refl
  drop_all zero (x ∷ xs) h = absurd (omega arith)
  drop_all (suc n) [] h = refl
  drop_all (suc n) (x ∷ xs) h = drop_all n xs (omega arith)

  pub take-length-take : (n : ℕ) (xs : List A) → take (length (take n xs)) xs ≡ take n xs
  take-length-take zero xs = refl
  take-length-take (suc n) [] = refl
  take-length-take (suc n) (x ∷ xs) = ap (λ ys. x ∷ ys) (take-length-take n xs)

  -- To take some, and then the others.
  pub take-split :
      (m n : ℕ) (xs : List A) → m ≤ n → take m xs ++ take (n - m) (drop m xs) ≡ take n xs
  take-split zero n xs h = ap (λ k. take k xs) (let e : n - 0 ≡ n = omega arith in e)
  take-split (suc m) zero xs h = absurd (omega arith)
  take-split (suc m) (suc n) [] h = take_nil (suc n - suc m)
  take-split (suc m) (suc n) (x ∷ xs) h =
      ap (λ k. x ∷ take m xs ++ take k (drop m xs))
        (let e : suc n - suc m ≡ n - m = omega arith in e)
      ∙ ap (λ ys. x ∷ ys) (take-split m n xs (omega arith))

  pub length-nil : (xs : List A) → length xs ≡ 0 → xs ≡ []
  length-nil [] h = refl
  length-nil (x ∷ xs) h = absurd (omega arith)

  -- A write of nothing.
  pub overwrite-nil : (buff : List A) (i : ℕ) → overwrite buff i [] ≡ buff
  overwrite-nil buff i =
      ap (λ k. take i buff ++ [] ++ drop k buff) (let e : i + 0 ≡ i = omega arith in e)
      ∙ simp (append-nil, take-drop i buff)

  -- A write at the end.
  pub overwrite_end :
      (buff new : List A) (i : ℕ) → i ≡ length buff → overwrite buff i new ≡ buff ++ new
  overwrite_end buff new i h =
      simp (take_all i buff (omega arith), drop_all (i + length new) buff (omega arith), append-nil)

  -- A write of a whole buffer.
  pub overwrite_all : (buff new : List A) → length new ≡ length buff → overwrite buff 0 new ≡ new
  overwrite_all buff new h = simp (drop_all (0 + length new) buff (omega arith), append-nil)

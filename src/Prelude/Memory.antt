-- ===== src/Prelude/Memory.antt =====
-- `memcpy` between two arrays: the `n` elements of `src` from `si` on go to `dst` from `di` on.
use Prim.Native.Nat.{ℕ, zero, suc, ◌+◌, ◌≤◌}
use mathlib.Core.Path.{◌≡◌, refl, sym, ap, ◌∙◌}
use mathlib.Core.List.{List, [], ◌∷◌, ◌++◌}
use native.Mathlib.Omega.{arith}
use hepeng_projects.Prelude.Lists.{length, get_or, set, take, drop, length-set, take-append_left}

module _ {ℓ} {A : Type ℓ} where
  abbrev pub write_at : List A → ℕ → List A → List A
  write_at dst i [] = dst
  write_at dst i (x ∷ xs) = write_at (set dst i x) (i + 1) xs

  -- `d` stands for what a read out of range would give.
  abbrev pub read_at : A → List A → ℕ → ℕ → List A
  read_at d src i zero = []
  read_at d src i (suc n) = get_or src i d ∷ read_at d src (i + 1) n

  abbrev pub memcpy : A → List A → ℕ → List A → ℕ → ℕ → List A
  memcpy d dst di src si n = write_at dst di (read_at d src si n)

  pub length-write_at :
      (dst : List A) (i : ℕ) (xs : List A) → length (write_at dst i xs) ≡ length dst
  length-write_at dst i [] = refl
  length-write_at dst i (x ∷ xs) =
      omega (arith, length-write_at (set dst i x) (i + 1) xs, length-set dst i x)

  pub length-read_at : (d : A) (src : List A) (i n : ℕ) → length (read_at d src i n) ≡ n
  length-read_at d src i zero = refl
  length-read_at d src i (suc n) = ap suc (length-read_at d src (i + 1) n)

-- Reads and writes of an array from its start on are `take` and the replacement of a prefix.
read_at-suc {ℓ} :
    {A : Type ℓ} (d x : A) (xs : List A) (i n : ℕ) → read_at d (x ∷ xs) (suc i) n ≡ read_at d xs i n
read_at-suc d x xs i zero = refl
read_at-suc d x xs i (suc n) =
    let e : suc i + 1 ≡ suc (i + 1) = omega arith in
    ap (λ k. get_or xs i d ∷ read_at d (x ∷ xs) k n) e
    ∙ ap (◌∷◌ (get_or xs i d)) (read_at-suc d x xs (i + 1) n)

pub read_at-eq-take {ℓ} :
    {A : Type ℓ} (d : A) (xs : List A) (i n : ℕ)
    → i + n ≤ length xs
    → read_at d xs i n ≡ take n (drop i xs)
read_at-eq-take d xs zero zero h = refl
read_at-eq-take d [] zero (suc n) h = absurd (omega arith)
read_at-eq-take d (x ∷ xs) zero (suc n) h =
    let e : 0 + 1 ≡ suc 0 = omega arith in
    ap (λ k. x ∷ read_at d (x ∷ xs) k n) e
    ∙ ap (◌∷◌ x) (read_at-suc d x xs 0 n ∙ read_at-eq-take d xs 0 n (omega arith))
read_at-eq-take d [] (suc i) zero h = absurd (omega arith)
read_at-eq-take d [] (suc i) (suc n) h = absurd (omega arith)
read_at-eq-take d (x ∷ xs) (suc i) n h =
    read_at-suc d x xs i n ∙ read_at-eq-take d xs i n (omega arith)

write_at-suc {ℓ} :
    {A : Type ℓ} (x : A) (dst : List A) (i : ℕ) (xs : List A)
    → write_at (x ∷ dst) (suc i) xs ≡ x ∷ write_at dst i xs
write_at-suc x dst i [] = refl
write_at-suc x dst i (y ∷ ys) =
    let e : suc i + 1 ≡ suc (i + 1) = omega arith in
    ap (λ k. write_at (x ∷ set dst i y) k ys) e ∙ write_at-suc x (set dst i y) (i + 1) ys

pub write_at_start {ℓ} :
    {A : Type ℓ} (dst xs : List A)
    → length xs ≤ length dst
    → write_at dst 0 xs ≡ xs ++ drop (length xs) dst
write_at_start dst [] h = refl
write_at_start [] (y ∷ ys) h = absurd (omega arith)
write_at_start (x ∷ dst) (y ∷ ys) h =
    let e : 0 + 1 ≡ suc 0 = omega arith in
    ap (λ k. write_at (y ∷ dst) k ys) e
    ∙ write_at-suc y dst 0 ys
    ∙ ap (◌∷◌ y) (write_at_start dst ys (omega arith))

pub write_at-append {ℓ} :
    {A : Type ℓ} (dst : List A) (i : ℕ) (xs ys : List A)
    → write_at dst i (xs ++ ys) ≡ write_at (write_at dst i xs) (i + length xs) ys
write_at-append dst i [] ys = ap (λ k. write_at dst k ys) (omega arith)
write_at-append dst i (x ∷ xs) ys =
    write_at-append (set dst i x) (i + 1) xs ys
    ∙ ap (λ k. write_at (write_at (set dst i x) (i + 1) xs) k ys) (omega arith)

-- A write just past the first `i` elements extends them.
pub take-write_at {ℓ} :
    {A : Type ℓ} (dst : List A) (i : ℕ) (xs : List A)
    → i + length xs ≤ length dst
    → take (i + length xs) (write_at dst i xs) ≡ take i dst ++ xs
take-write_at dst zero xs h =
    let e : 0 + length xs ≡ length xs = omega arith in
    rw (e, write_at_start dst xs (omega arith)) (take-append_left xs _ (length xs) refl)
take-write_at [] (suc i) xs h = absurd (omega arith)
take-write_at (y ∷ dst) (suc i) xs h =
    let e : suc i + length xs ≡ suc (i + length xs) = omega arith in
    rw (e, write_at-suc y dst i xs) (ap (◌∷◌ y) (take-write_at dst i xs (omega arith)))

pub take-set {ℓ} : {A : Type ℓ} (n : ℕ) (xs : List A) (v : A) → take n (set xs n v) ≡ take n xs
take-set zero xs v = refl
take-set (suc n) [] v = refl
take-set (suc n) (x ∷ xs) v = ap (◌∷◌ x) (take-set n xs v)

-- The first bytes of an array after two copies, one behind the other.
pub two_copies {ℓ} :
    {A : Type ℓ} (dst xs ys : List A) (k n : ℕ)
    → length xs ≡ k
    → length ys ≡ n
    → k + n ≤ length dst
    → take (k + n) (write_at (write_at dst 0 xs) k ys) ≡ xs ++ ys
two_copies dst xs ys k n ex ey small =
    let first = write_at dst 0 xs in
    let size = length-write_at dst 0 xs in
    let z : 0 + length xs ≡ k = omega (arith, ex) in
    rw (sym ey) (
      take-write_at first k ys (omega (arith, size, ex, ey))
      ∙ ap (λ t. t ++ ys)
          (ap (λ j. take j first) (sym z) ∙ take-write_at dst 0 xs (omega (arith, ex))))

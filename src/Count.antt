-- ===== src/Count.antt =====
-- Lists of consecutive numbers, and `map` on parts of lists.
use vxdebug.Base.{
  ℕ, zero, suc, ◌+◌, ◌≤◌, List, [], ◌∷◌, ◌++◌, ◌≡◌, refl, ap, ◌∙◌, arith, map, length, take, drop,
}

-- The numbers from `first` on, `count` of them.
abbrev pub count_from : ℕ → ℕ → List ℕ
count_from first zero = []
count_from first (suc count) = first ∷ count_from (suc first) count

pub count-append : (a j k : ℕ) → count_from a j ++ count_from (a + j) k ≡ count_from a (j + k)
count-append a zero k =
    ap (λ x. count_from x k) {x = a + 0} {y = a} (omega arith)
    ∙ ap (count_from a) {x = k} {y = 0 + k} (omega arith)
count-append a (suc j) k =
    ap (λ x. a ∷ (count_from (suc a) j ++ count_from x k)) {x = a + suc j} {y = suc a + j}
      (omega arith)
    ∙ ap (λ l. a ∷ l) (count-append (suc a) j k)
    ∙ ap (count_from a) {x = suc (j + k)} {y = suc j + k} (omega arith)

pub count-take : (j a k : ℕ) → j ≤ k → take j (count_from a k) ≡ count_from a j
count-take zero a k h = refl
count-take (suc j) a zero h = absurd (omega arith)
count-take (suc j) a (suc k) h = ap (λ l. a ∷ l) (count-take j (suc a) k (omega arith))

pub count-take_all : (j a k : ℕ) → k ≤ j → take j (count_from a k) ≡ count_from a k
count-take_all zero a zero h = refl
count-take_all zero a (suc k) h = absurd (omega arith)
count-take_all (suc j) a zero h = refl
count-take_all (suc j) a (suc k) h = ap (λ l. a ∷ l) (count-take_all j (suc a) k (omega arith))

pub count-drop : (c a k : ℕ) → drop c (count_from a (c + k)) ≡ count_from (a + c) k
count-drop zero a k =
    ap (count_from a) {x = 0 + k} {y = k} (omega arith)
    ∙ ap (λ x. count_from x k) {x = a} {y = a + 0} (omega arith)
count-drop (suc c) a k =
    ap (λ x. drop (suc c) (count_from a x)) {x = suc c + k} {y = suc (c + k)} (omega arith)
    ∙ count-drop c (suc a) k
    ∙ ap (λ x. count_from x k) {x = suc a + c} {y = a + suc c} (omega arith)

pub length-count : (a k : ℕ) → length (count_from a k) ≡ k
length-count a zero = refl
length-count a (suc k) = ap suc (length-count (suc a) k)

module _ {ℓ κ} {A : Type ℓ} {B : Type κ} (f : A → B) where
  pub map-take : (n : ℕ) (xs : List A) → map f (take n xs) ≡ take n (map f xs)
  map-take zero xs = refl
  map-take (suc n) [] = refl
  map-take (suc n) (x ∷ xs) = ap (λ l. f x ∷ l) (map-take n xs)

  pub map-drop : (n : ℕ) (xs : List A) → map f (drop n xs) ≡ drop n (map f xs)
  map-drop zero xs = refl
  map-drop (suc n) [] = refl
  map-drop (suc n) (x ∷ xs) = map-drop n xs

  pub map-append : (xs ys : List A) → map f (xs ++ ys) ≡ map f xs ++ map f ys
  map-append [] ys = refl
  map-append (x ∷ xs) ys = ap (λ l. f x ∷ l) (map-append xs ys)

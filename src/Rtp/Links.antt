-- ===== src/Rtp/Links.antt =====
-- The linked list of the panglos library (panglos/list.h), which the engine keeps its free blocks and
-- its playing clients in. It is not part of this repository: `Links` is what the engine relies on.
-- An item carries its own link, so it may be pushed only where it is not yet linked.
use wifi_audio.Common.{
  ℕ, ◌-◌, ◌≡◌, refl, ◌⊎◌, inl, inr, Bool, true, false, List, [], ◌∷◌, Option, none, some, arith,
  count, length, suc, ◌==◌, if◌then◌else◌,
}

-- Call `fn` on each item in order, until it returns true.
abbrev pub visit_list {ℓ} : {S : Type ℓ} → (ℕ → S → Bool × S) → List ℕ → S → S
visit_list fn [] s = s
visit_list fn (x ∷ xs) s =
    let rest = visit_list fn xs (fn x s).1 in if (fn x s).0 then (fn x s).1 else rest

pub record Links : Type 1 where
  pub Chain : Type 0
  pub empty : Chain
  pub push : ℕ → Chain → Chain
  pub pop : Chain → Option ℕ × Chain
  pub remove : ℕ → Chain → Chain
  pub visit : (S : Type 0) → (ℕ → S → Bool × S) → Chain → S → S
  pub has_head : Chain → Bool
  -- The items, in the order of a visit.
  pub items : Chain → List ℕ
  pub items-empty : items empty ≡ []
  pub count-push :
      (a x : ℕ) (c : Chain)
      → count x (items c) ≡ 0
      → count a (items (push x c)) ≡ count a (x ∷ items c)
  pub pop_cases :
      (c : Chain)
      → ((items c ≡ []) × (pop c ≡ (none, c)))
        ⊎ ((x : ℕ) × (d : Chain) × (pop c ≡ (some x, d))
            × ((a : ℕ) → count a (items c) ≡ count a (x ∷ items d))
            × (length (items c) ≡ suc (length (items d))))
  pub count-remove :
      (a x : ℕ) (c : Chain)
      → count a (items (remove x c)) ≡ (if a == x then count a (items c) - 1 else count a (items c))
  pub visit_items :
      (S : Type 0) (fn : ℕ → S → Bool × S) (c : Chain) (s : S)
      → visit S fn c s ≡ visit_list fn (items c) s
  pub has_head-empty : (c : Chain) → (has_head c ≡ false) → items c ≡ []
  pub has_head-cons : (c : Chain) → (has_head c ≡ true) → (x : ℕ) × (r : List ℕ) × (items c ≡ x ∷ r)

-- Plain lists meet the laws.
abbrev pub list_pop : List ℕ → Option ℕ × List ℕ
list_pop [] = (none, [])
list_pop (x ∷ xs) = (some x, xs)

abbrev pub list_remove : ℕ → List ℕ → List ℕ
list_remove x [] = []
list_remove x (y ∷ ys) = if x == y then ys else y ∷ list_remove x ys

abbrev pub list_has_head : List ℕ → Bool
list_has_head [] = false
list_has_head (x ∷ xs) = true

pub list_pop_cases :
    (c : List ℕ)
    → ((c ≡ []) × (list_pop c ≡ (none, c)))
      ⊎ ((x : ℕ) × (d : List ℕ) × (list_pop c ≡ (some x, d))
          × ((a : ℕ) → count a c ≡ count a (x ∷ d))
          × (length c ≡ suc (length d)))
list_pop_cases [] = inl (refl, refl)
list_pop_cases (x ∷ xs) = inr (x, xs, refl, (λ a. refl), refl)

pub count-list_remove :
    (a x : ℕ) (c : List ℕ)
    → count a (list_remove x c) ≡ (if a == x then count a c - 1 else count a c)
count-list_remove a x [] = ground arith
count-list_remove a x (y ∷ ys) = ground (arith, count-list_remove a x ys)

pub list_has_head-empty : (c : List ℕ) → (list_has_head c ≡ false) → c ≡ []
list_has_head-empty [] h = refl
list_has_head-empty (x ∷ xs) h = cc

pub list_has_head-cons :
    (c : List ℕ) → (list_has_head c ≡ true) → (x : ℕ) × (r : List ℕ) × (c ≡ x ∷ r)
list_has_head-cons [] h = cc
list_has_head-cons (x ∷ xs) h = (x, xs, refl)

abbrev pub list_links : Links
list_links = record {
  Chain = List ℕ;
  empty = [];
  push = λ x c. x ∷ c;
  pop = list_pop;
  remove = list_remove;
  visit = λ S fn c s. visit_list fn c s;
  has_head = list_has_head;
  items = λ c. c;
  items-empty = refl;
  count-push = λ a x c h. refl;
  pop_cases = list_pop_cases;
  count-remove = count-list_remove;
  visit_items = λ S fn c s. refl;
  has_head-empty = list_has_head-empty;
  has_head-cons = list_has_head-cons;
}

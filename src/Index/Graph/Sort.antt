-- ===== src/Index/Graph/Sort.antt =====
-- `ToSlice` sorts: the same results, in ascending distance.
use mathlib.Core.Path.{subst}
use mathlib.Core.List.{Permᴰ}
use mathlib.Core.List.Permᴰ
use magpie_db.Common.{
  ℕ, zero, suc, ◌≤◌, ◌≡◌, refl, sym, ap, ◌∙◌, ◌≢◌, inl, inr, true, false, List, [], ◌∷◌, map, arith,
  Bool-cases, ℕ-Eq, GoString-Eq, length, take, All,
}
use magpie_db.Index.{SearchResult}
use magpie_db.Index.Graph.Search.{Geometry, settle, sort_results, to_slice}

pub All-Permᴰ {ℓ κ} :
    {A : Type ℓ} (P : A → Type κ) {xs ys : List A} → Permᴰ xs ys → All P xs → All P ys
All-Permᴰ P Permᴰ.nil all = all
All-Permᴰ P (Permᴰ.cons e p) all = (subst P e all.0, All-Permᴰ P p all.1)
All-Permᴰ P (Permᴰ.swap e f) all = (subst P f all.1.0, (subst P e all.0, all.1.1))
All-Permᴰ P (Permᴰ.trans p q) all = All-Permᴰ P q (All-Permᴰ P p all)

pub length-Permᴰ {ℓ} : {A : Type ℓ} {xs ys : List A} → Permᴰ xs ys → length xs ≡ length ys
length-Permᴰ Permᴰ.nil = refl
length-Permᴰ (Permᴰ.cons e p) = ap suc (length-Permᴰ p)
length-Permᴰ (Permᴰ.swap e f) = refl
length-Permᴰ (Permᴰ.trans p q) = length-Permᴰ p ∙ length-Permᴰ q

-- Each element differs from those behind it in the given value.
abbrev pub Different {ℓ κ} : {A : Type ℓ} {B : Type κ} → (A → B) → List A → Type κ
Different f [] = Unit
Different f (x ∷ xs) = All (λ y. f x ≢ f y) xs × Different f xs

pub Different-Permᴰ :
    {A B : Type 0} (f : A → B) {xs ys : List A} → Permᴰ xs ys → Different f xs → Different f ys
Different-Permᴰ f Permᴰ.nil d = d
Different-Permᴰ f (Permᴰ.cons {l₂ = m} e p) d =
    (subst (λ c. All (λ y. f c ≢ f y) m) e (All-Permᴰ _ p d.0), Different-Permᴰ f p d.1)
Different-Permᴰ f (Permᴰ.swap {l} e e') d = (
  (λ same. d.0.0 (ap f e ∙ sym same ∙ ap f (sym e')), subst (λ c. All (λ y. f c ≢ f y) l) e' d.1.0),
  (subst (λ c. All (λ y. f c ≢ f y) l) e d.0.1, d.1.1),
)
Different-Permᴰ f (Permᴰ.trans p q) d = Different-Permᴰ f q (Different-Permᴰ f p d)

-- `<` on float32 for the numbers, the values that are not NaN.
pub record IsOrdered (g : Geometry) (IsNumber : ℕ → Type 0) : Type 0 where
  pub asym : (x y : ℕ) → IsNumber x → IsNumber y → g.less x y ≡ true → g.less y x ≡ false
  pub trans :
      (x y z : ℕ)
      → IsNumber x
      → IsNumber y
      → IsNumber z
      → g.less y x ≡ false
      → g.less z y ≡ false
      → g.less z x ≡ false

-- No later result is nearer than an earlier one.
abbrev pub Ascending {ℓ} : {A : Type ℓ} → Geometry → (A → ℕ) → List A → Type 0
Ascending g f [] = Unit
Ascending g f (x ∷ xs) = All (λ y. g.less (f y) (f x) ≡ false) xs × Ascending g f xs

-- The first elements of a list keep what holds of all of them.
pub All-take {ℓ κ} :
    {A : Type ℓ} (P : A → Type κ) (n : ℕ) (xs : List A) → All P xs → All P (take n xs)
All-take P zero xs all = tt
All-take P (suc n) [] all = tt
All-take P (suc n) (x ∷ xs) all = (all.0, All-take P n xs all.1)

pub Different-take :
    {A B : Type 0} (f : A → B) (n : ℕ) (xs : List A) → Different f xs → Different f (take n xs)
Different-take f zero xs d = tt
Different-take f (suc n) [] d = tt
Different-take f (suc n) (x ∷ xs) d = (All-take _ n xs d.0, Different-take f n xs d.1)

pub Ascending-take :
    {A : Type 0} (g : Geometry) (f : A → ℕ) (n : ℕ) (xs : List A)
    → Ascending g f xs
    → Ascending g f (take n xs)
Ascending-take g f zero xs a = tt
Ascending-take g f (suc n) [] a = tt
Ascending-take g f (suc n) (x ∷ xs) a = (All-take _ n xs a.0, Ascending-take g f n xs a.1)

-- The same of the results of a function.
pub All-of-map :
    {A B : Type 0} {P : A → Type 0} (Q : B → Type 0) (f : A → B) (xs : List A)
    → ((x : A) → P x → Q (f x))
    → All P xs
    → All Q (map f xs)
All-of-map Q f [] step all = tt
All-of-map Q f (x ∷ xs) step all = (step x all.0, All-of-map Q f xs step all.1)

pub Different-map :
    {A B C : Type 0} (h : B → C) (f : A → B) (xs : List A)
    → Different (λ x. h (f x)) xs
    → Different h (map f xs)
Different-map h f [] d = tt
Different-map h f (x ∷ xs) d =
    (All-of-map (λ y. h (f x) ≢ h y) f xs (λ y e. e) d.0, Different-map h f xs d.1)

pub Ascending-map :
    {A B : Type 0} (g : Geometry) (h : B → ℕ) (f : A → B) (xs : List A)
    → Ascending g (λ x. h (f x)) xs
    → Ascending g h (map f xs)
Ascending-map g h f [] a = tt
Ascending-map g h f (x ∷ xs) a = (
  All-of-map (λ y. g.less (h y) (h (f x)) ≡ false) f xs (λ y e. e) a.0,
  Ascending-map g h f xs a.1,
)

module _ (g : Geometry) (IsNumber : ℕ → Type 0) (laws : IsOrdered g IsNumber) where
  abbrev Number : SearchResult → Type 0
  Number r = IsNumber r.distance

  settle-Permᴰ :
      (x : SearchResult) (xs : List SearchResult)
      → let (least, rest) = settle g x xs in Permᴰ (x ∷ xs) (least ∷ rest)
  unfolding settle
  settle-Permᴰ x [] = Permᴰ.refl _
  settle-Permᴰ x (y ∷ ys) = elim (Bool-cases (g.less y.distance x.distance)) [
    | inl nearer ↦
        rw nearer (Permᴰ.trans (Permᴰ.cons refl (settle-Permᴰ y ys)) (Permᴰ.swap refl refl))
    | inr farther ↦ rw farther (
        Permᴰ.trans (Permᴰ.swap refl refl)
          (Permᴰ.trans (Permᴰ.cons refl (settle-Permᴰ x ys)) (Permᴰ.swap refl refl)))
  ]

  settle_least :
      (x : SearchResult) (xs : List SearchResult)
      → Number x
      → All Number xs
      → let (least, rest) = settle g x xs in
        (g.less x.distance least.distance ≡ false)
        × Number least
        × All (λ y. g.less y.distance least.distance ≡ false) rest
  unfolding settle
  settle_least x [] n ns = (
    elim (Bool-cases (g.less x.distance x.distance)) [
      | inl below ↦ laws.asym x.distance x.distance n n below
      | inr not_below ↦ not_below
    ],
    n,
    tt,
  )
  settle_least x (y ∷ ys) n ns = elim (Bool-cases (g.less y.distance x.distance)) [
    | inl nearer ↦
        let (up, num, all) = settle_least y ys ns.0 ns.1 in
        let least = (settle g y ys).0 in
        let x_up =
          laws.trans least.distance y.distance x.distance num ns.0 n up
            (laws.asym y.distance x.distance ns.0 n nearer) in
        rw nearer (x_up, num, (x_up, all))
    | inr farther ↦
        let (up, num, all) = settle_least x ys n ns.1 in
        let least = (settle g x ys).0 in
        rw farther
          (up, num, (laws.trans least.distance x.distance y.distance num n ns.0 up farther, all))
  ]

  sort-Permᴰ : (n : ℕ) (xs : List SearchResult) → length xs ≤ n → Permᴰ xs (sort_results g n xs)
  unfolding sort_results
  sort-Permᴰ zero [] h = Permᴰ.nil
  sort-Permᴰ zero (x ∷ xs) h = absurd (omega arith)
  sort-Permᴰ (suc n) [] h = Permᴰ.nil
  sort-Permᴰ (suc n) (x ∷ xs) h =
      let p = settle-Permᴰ x xs in
      Permᴰ.trans p (Permᴰ.cons refl (sort-Permᴰ n _ (omega (arith, length-Permᴰ p))))

  sort-Ascending :
      (n : ℕ) (xs : List SearchResult)
      → length xs ≤ n
      → All Number xs
      → Ascending g (λ (r : SearchResult). r.distance) (sort_results g n xs)
  unfolding sort_results
  sort-Ascending zero [] h ns = tt
  sort-Ascending zero (x ∷ xs) h ns = absurd (omega arith)
  sort-Ascending (suc n) [] h ns = tt
  sort-Ascending (suc n) (x ∷ xs) h ns =
      let p = settle-Permᴰ x xs in
      let (up, num, all) = settle_least x xs ns.0 ns.1 in
      let rest = (settle g x xs).1 in
      let short : length rest ≤ n = omega (arith, length-Permᴰ p) in
      (
        All-Permᴰ _ (sort-Permᴰ n rest short) all,
        sort-Ascending n rest short (All-Permᴰ Number p ns).1,
      )

  pub to_slice-Permᴰ : (xs : List SearchResult) → Permᴰ xs (to_slice g xs)
  unfolding to_slice
  to_slice-Permᴰ xs = sort-Permᴰ (length xs) xs (omega arith)

  pub to_slice-Ascending :
      (xs : List SearchResult)
      → All Number xs
      → Ascending g (λ (r : SearchResult). r.distance) (to_slice g xs)
  unfolding to_slice
  to_slice-Ascending xs ns = sort-Ascending (length xs) xs (omega arith) ns

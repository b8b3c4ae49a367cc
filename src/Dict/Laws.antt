-- ===== src/Dict/Laws.antt =====
-- The laws of Go's maps: what a read finds after a write, a deletion and a change of every value.
use mathlib.Core.Option.{some-injective}
use mathlib.Core.Path.{subst}
use magpie_db.Common.{
  All, List, Bool-cases, inl, inr, ◌≡◌, refl, none, some, [], ◌∷◌, ◌==◌, Eq, if◌then◌else◌, arith,
}
use magpie_db.Dict.{Dict, get, put, delete, Distinct}

module _ {ℓ κ} {K : Type ℓ} {V : Type κ} ⦃e : Eq K⦄ where
  pub get-put :
      (k j : K) (v : V) (m : Dict K V) → get j (put k v m) ≡ (if k == j then some v else get j m)
  unfolding get put
  get-put k j v [] = refl
  get-put k j v ((i, w) ∷ m) =
      ground (arith, e.beq_iff k j, e.beq_iff i k, e.beq_iff i j, get-put k j v m)

  pub get-delete :
      (k j : K) (m : Dict K V) → get j (delete k m) ≡ (if k == j then none else get j m)
  unfolding get delete
  get-delete k j [] = ground arith
  get-delete k j ((i, w) ∷ m) =
      ground (arith, e.beq_iff k j, e.beq_iff i k, e.beq_iff i j, get-delete k j m)

  pub put-Distinct : (k : K) (v : V) (m : Dict K V) → Distinct m → Distinct (put k v m)
  unfolding get put
  put-Distinct k v [] d = ground arith
  put-Distinct k v ((i, w) ∷ m) d =
      ground (arith, e.beq_iff i k, e.beq_iff k i, get-put k i v m, put-Distinct k v m d.1)

  pub delete-Distinct : (k : K) (m : Dict K V) → Distinct m → Distinct (delete k m)
  unfolding get delete
  delete-Distinct k [] d = d
  delete-Distinct k ((i, w) ∷ m) d =
      ground (arith, e.beq_iff i k, e.beq_iff k i, get-delete k i m, delete-Distinct k m d.1)

-- A property of every entry.
module _ {ℓ κ} {K : Type ℓ} {V : Type ℓ} ⦃e : Eq K⦄ where
  pub All-put :
      (P : K × V → Type κ) (k : K) (v : V) (m : Dict K V) → P (k, v) → All P m → All P (put k v m)
  unfolding put
  All-put P k v [] p all = (p, tt)
  All-put P k v ((j, w) ∷ m) p all = elim (Bool-cases (j == k)) [
    | inl same ↦ rw same (p, all.1)
    | inr other ↦ rw other (all.0, All-put P k v m p all.1)
  ]

  pub All-delete : (P : K × V → Type κ) (k : K) (m : Dict K V) → All P m → All P (delete k m)
  unfolding delete
  All-delete P k [] all = tt
  All-delete P k ((j, w) ∷ m) all = elim (Bool-cases (j == k)) [
    | inl same ↦ rw same (All-delete P k m all.1)
    | inr other ↦ rw other (all.0, All-delete P k m all.1)
  ]

  pub All-get :
      (P : K × V → Type κ) (k : K) (v : V) (m : Dict K V) → All P m → get k m ≡ some v → P (k, v)
  unfolding get
  All-get P k v [] all h = absurd (ground arith)
  All-get P k v ((j, w) ∷ m) all h = elim (Bool-cases (j == k)) [
    | inl same ↦
        let key = (e.beq_iff j k).0 same in
        let value = some-injective w v (rw same at h) in subst P (λ i. (key i, value i)) all.0
    | inr other ↦ All-get P k v m all.1 (rw other at h)
  ]

pub All-map {ℓ κ} :
    {A : Type ℓ} (P Q : A → Type κ) (xs : List A) → ((x : A) → P x → Q x) → All P xs → All Q xs
All-map P Q [] f all = tt
All-map P Q (x ∷ xs) f all = (f x all.0, All-map P Q xs f all.1)

pub ruleset dict_laws = (get-put, get-delete)

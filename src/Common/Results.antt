-- ===== src/Common/Results.antt =====
-- Go's `(value, error)` results and run-time panics. The errors are the package's `MagpieError`
-- values (types.go) and one constructor for each `fmt.Errorf` that the modelled code returns.
use mathlib.Core.Path.{◌≡◌, refl}
use mathlib.Core.Logic.{◌⊎◌, inl, inr}
use mathlib.Core.Bool.{Bool, true, false}

pub data Error : Type 0 where
  database_closed invalid_dimensions vector_not_found corrupted_data : Error
  transaction_active read_only invalid_id tx_aborted : Error
  tx_not_active version_deleted transaction_not_active : Error
  read_write_conflict write_write_conflict : Error
  invalid_magic checksum_mismatch invalid_version invalid_metric : Error
  invalid_page_count invalid_index_root invalid_metadata_root : Error
  out_of_bounds bad_page_size invalid_page size_too_small : Error
  wrong_page_type too_many_entries vector_too_large metadata_too_large : Error
  id_too_long truncated entry_too_small wal_not_opened io_error json_error : Error
  no_vectors entry_count data_count dimension_mismatch not_implemented : Error
  already_exists invalid_options unknown_entry pool_running pool_not_running pool_shutting_down
        invalid_pattern :
      Error

-- `panic` is a Go run-time panic, such as a slice index out of range.
pub data Result {ℓ} (A : Type ℓ) : Type ℓ where
  panic : Result A
  err : Error → Result A
  ok : A → Result A

-- `if bad { return e }`
abbrev pub reject : Bool → Error → Result (Unit {0})
reject true e = err e
reject false e = ok tt

infixl 5 ◌>>=◌ ◌>>◌
abbrev pub ◌>>=◌ {ℓ κ} : {A : Type ℓ} {B : Type κ} → Result A → (A → Result B) → Result B
panic >>= next = panic
err e >>= next = err e
ok a >>= next = next a

abbrev pub ◌>>◌ {ℓ} : {A : Type ℓ} → Result (Unit {0}) → Result A → Result A
r >> next = r >>= λ _. next

-- A slice expression or an index that panics out of range.
abbrev pub in_range : Bool → Result (Unit {0})
in_range true = ok tt
in_range false = panic

-- Both parts of a chain that returns have returned.
pub >>=-eq-ok {ℓ κ} :
    {A : Type ℓ} {B : Type κ} (r : Result A) (next : A → Result B) {b : B}
    → (r >>= next) ≡ ok b
    → (a : A) × (r ≡ ok a) × (next a ≡ ok b)
>>=-eq-ok panic next h = cc
>>=-eq-ok (err e) next h = cc
>>=-eq-ok (ok a) next h = (a, refl, h)

pub Result-cases : (r : Result (Unit {0})) → (r ≡ ok tt) ⊎ ((e : Error) × (r ≡ err e)) ⊎ (r ≡ panic)
Result-cases (ok tt) = inl refl
Result-cases (err e) = inr (inl (e, refl))
Result-cases panic = inr (inr refl)

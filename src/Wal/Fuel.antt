-- ===== src/Wal/Fuel.antt =====
-- The reading loops on any bytes: they end, in no more rounds than the file has bytes and one.
use magpie_db.Common.{
  if_either, ℕ, zero, suc, ◌≤◌, ◌<◌, ◌≡◌, refl, ◌∙◌, inl, inr, ◌||◌, Option, some, List, ◌∷◌, arith,
  ltb, Bool-cases, ◌==◌, ℕ-Eq, GoString-Eq, length, take, drop, length-drop, Result, ok, err, panic,
  ◌>>=◌, Error, [],
}
use magpie_db.Bytes.{Bytes, uint}
use magpie_db.Wal.{
  WalEntry, WalLib, max_entry, is_empty, following, read_entry, read_entries, try_entry,
  last_sequence,
}

module _ {M : Type 0} (lib : WalLib M) where
  -- The loop has not run out of fuel.
  abbrev HasEnded : {A : Type 0} → Option A → Type 0
  HasEnded {A} x = (r : A) × (x ≡ some r)

  following-HasEnded :
      (e : Result (WalEntry M)) (x : Option (Result (List (WalEntry M))))
      → HasEnded x
      → HasEnded (following e x)
  unfolding following
  following-HasEnded (err why) x h = (err why, refl)
  following-HasEnded panic x h = (panic, refl)
  following-HasEnded (ok entry) x (r, eq) = rw eq ((r >>= λ es. ok (entry ∷ es)), refl)

  shorter :
      (fuel size : ℕ) (file : Bytes)
      → 4 ≤ length file
      → length file < suc fuel
      → length (drop size (drop 4 file)) < fuel
  shorter fuel size file long h =
      omega (arith, length-drop {0} size (drop 4 file), length-drop {0} 4 file)

  read_entries-HasEnded :
      (fuel : ℕ) (file : Bytes) → length file < fuel → HasEnded (read_entries lib fuel file)
  unfolding read_entries
  read_entries-HasEnded zero file h = absurd (omega arith)
  read_entries-HasEnded (suc fuel) file h = elim (Bool-cases (ltb (length file) 4)) [
    | inl short ↦ rw short (ok [], refl)
    | inr long ↦
        let size = uint (take 4 file) in
        let rest = drop 4 file in
        let ih =
          read_entries-HasEnded fuel (drop size rest) (shorter fuel size file (ground arith) h) in
        if_either HasEnded (ltb (length file) 4 || size == 0 || ltb max_entry size) (ok [], refl)
          (if_either HasEnded (is_empty rest) (err Error.io_error, refl)
            (if_either HasEnded (ltb (length rest) size) (ok [], refl)
              (following-HasEnded (read_entry lib (take size rest))
                (read_entries lib fuel (drop size rest)) ih)))
  ]

  last_round-HasEnded :
      (last : ℕ) (e : Result (WalEntry M)) (more : ℕ → Option (Result ℕ))
      → ((n : ℕ) → HasEnded (more n))
      → HasEnded (elim e [
        | ok entry ↦ more entry.sequence
        | err why ↦ some (ok last)
        | panic ↦ some panic
      ])
  last_round-HasEnded last (ok entry) more h = h entry.sequence
  last_round-HasEnded last (err why) more h = (ok last, refl)
  last_round-HasEnded last panic more h = (panic, refl)

  -- The loop that looks for the last sequence number ends as well.
  last_sequence-HasEnded :
      (fuel last : ℕ) (file : Bytes)
      → length file < fuel
      → HasEnded (last_sequence lib fuel last file)
  unfolding last_sequence
  last_sequence-HasEnded zero last file h = absurd (omega arith)
  last_sequence-HasEnded (suc fuel) last file h = elim (Bool-cases (ltb (length file) 4)) [
    | inl short ↦ rw short (ok last, refl)
    | inr long ↦
        let size = uint (take 4 file) in
        let rest = drop 4 file in
        let ih : (n : ℕ) → HasEnded (last_sequence lib fuel n (drop size rest)) = λ n.
          last_sequence-HasEnded fuel n (drop size rest)
            (shorter fuel size file (ground arith) h) in
        if_either HasEnded (ltb (length file) 4 || size == 0 || ltb max_entry size) (ok last, refl)
          (if_either HasEnded (ltb (length rest) size) (ok last, refl)
            (last_round-HasEnded last (try_entry lib (take size rest))
              (λ n. last_sequence lib fuel n (drop size rest)) ih))
  ]

  same_result :
      (f g : ℕ) (file : Bytes)
      → length file < f
      → length file < g
      → read_entries lib f file ≡ read_entries lib g file
  unfolding read_entries
  same_result zero g file h k = absurd (omega arith)
  same_result (suc f) zero file h k = absurd (omega arith)
  same_result (suc f) (suc g) file h k = elim (Bool-cases (ltb (length file) 4)) [
    | inl short ↦ rw short
    | inr long ↦
        let size = uint (take 4 file) in
        let enough : 4 ≤ length file = ground arith in
        rw (
          same_result f g (drop size (drop 4 file)) (shorter f size file enough h)
            (shorter g size file enough k))
  ]

  -- The two loops that read a file end, whatever the file holds. There is one result that the loop of
  -- ReadAll gives with any fuel above the length of the file; and with such fuel, the loop that looks
  -- for the last sequence number gives a result. Out of fuel neither would give one.
  pub read_entries_ends :
      (file : Bytes)
      → ((r : Result (List (WalEntry M))) × ((fuel : ℕ)
            → length file < fuel
            → read_entries lib fuel file ≡ some r))
        × ((fuel last : ℕ)
            → length file < fuel
            → (r : Result ℕ) × (last_sequence lib fuel last file ≡ some r))
  read_entries_ends file =
      let (r, eq) = read_entries-HasEnded (suc (length file)) file (omega arith) in
      (
        (r, λ fuel h. same_result fuel (suc (length file)) file h (omega arith) ∙ eq),
        λ fuel last h. last_sequence-HasEnded fuel last file h,
      )

-- ===== src/Wal/Torn.antt =====
-- Files of frames: a whole one, and any one that was cut off.
use magpie_db.Common.{
  ℕ, zero, suc, ◌+◌, ◌-◌, ◌≤◌, ◌<◌, ◌≡◌, refl, sym, ap, ◌∙◌, inl, inr, some, List, [], ◌∷◌, ◌++◌,
  arith, ltb, ltb→lt, Bool-cases, ℕ-Eq, GoString-Eq, length, take, replicate, length-append,
  length-take, length-replicate, ok,
}
use mathlib.Core.Path.{subst}
use mathlib.Core.List.{append_assoc, append-nil}
use magpie_db.Bytes.{Bytes}
use magpie_db.Wal.{WalLib, max_entry, frame_bytes, read_entries, last_sequence}
use magpie_db.Wal.Cut.{take-append_ge, length-frame}
use magpie_db.Wal.Frames.{
  Frame, encode, entries_of, AreFrames, last_of, torn_result, read_entries-torn, last_sequence-torn,
}

zeros : Bytes
zeros = replicate 25 0

length-zeros : length zeros ≡ 25
unfolding zeros
length-zeros = length-replicate {A = ℕ} 25 0

take-append_le : (k : ℕ) (xs ys : Bytes) → k ≤ length xs → take k (xs ++ ys) ≡ take k xs
take-append_le zero xs ys h = refl
take-append_le (suc k) [] ys h = absurd (omega arith)
take-append_le (suc k) (x ∷ xs) ys h = ap (◌∷◌ x) (take-append_le k xs ys (omega arith))

pub take_nil : (n : ℕ) → take {A = ℕ} n [] ≡ []
take_nil zero = refl
take_nil (suc n) = refl

length-frame_bytes : (b : Bytes) → length (frame_bytes b) ≡ 4 + length b
length-frame_bytes b = omega (arith, length-frame b [], length-append {0} (frame_bytes b) [])

pub encode-append :
    {M : Type 0} (fs gs : List (Frame M)) → encode (fs ++ gs) ≡ encode fs ++ encode gs
encode-append [] gs = refl
encode-append ((b, e) ∷ fs) gs =
    rw (encode-append fs gs, append_assoc (frame_bytes b) (encode fs) (encode gs))

module _ {M : Type 0} (lib : WalLib M) where
  pub read_entries_whole :
      (fs : List (Frame M))
      → AreFrames lib fs
      → read_entries lib (suc (length (encode fs))) (encode fs) ≡ some (ok (entries_of fs))
  read_entries_whole fs all =
      ap (read_entries lib (suc (length (encode fs)))) (sym (append-nil (encode fs)))
      ∙ read_entries-torn lib fs (suc (length (encode fs))) 0 zeros all
          (omega (arith, length-zeros)) (omega (arith, length-zeros)) (omega arith) (omega arith)

  pub last_sequence_whole :
      (fs : List (Frame M))
      → AreFrames lib fs
      → last_sequence lib (suc (length (encode fs))) 0 (encode fs) ≡ some (ok (last_of 0 fs))
  last_sequence_whole fs all =
      ap (last_sequence lib (suc (length (encode fs))) 0) (sym (append-nil (encode fs)))
      ∙ last_sequence-torn lib fs (suc (length (encode fs))) 0 0 zeros all
          (omega (arith, length-zeros)) (omega (arith, length-zeros)) (omega arith) (omega arith)

  -- The frames `fs`, cut off to the bytes `file`: whole frames, and `k` bytes of another.
  pub record Torn (fs : List (Frame M)) (file : Bytes) : Type 0 where
    pub kept : List (Frame M)
    pub lost : List (Frame M)
    pub split : fs ≡ kept ++ lost
    pub k : ℕ
    pub part : Bytes
    pub cut : file ≡ encode kept ++ take k (frame_bytes part)
    pub big : 25 ≤ length part
    pub short : length part ≤ max_entry
    pub inside : k < 4 + length part

  pub take-Torn : (fs : List (Frame M)) (n : ℕ) → AreFrames lib fs → Torn fs (take n (encode fs))
  take-Torn [] n all = record {
    kept = [];
    lost = [];
    split = refl;
    k = 0;
    part = zeros;
    cut = take_nil n;
    big = omega (arith, length-zeros);
    short = omega (arith, length-zeros);
    inside = omega arith;
  }
  take-Torn ((b, e) ∷ fs) n all = elim (Bool-cases (ltb n (4 + length b))) [
    | inl here ↦ record {
      kept = [];
      lost = (b, e) ∷ fs;
      split = refl;
      k = n;
      part = b;
      cut = take-append_le n (frame_bytes b) (encode fs) (ground (arith, length-frame_bytes b));
      big = all.0.nonempty;
      short = all.0.short;
      inside = ltb→lt n (4 + length b) here;
    }
    | inr past ↦
        let t = take-Torn fs (n - length (frame_bytes b)) all.1 in
        record {
          kept = (b, e) ∷ t.kept;
          lost = t.lost;
          split = ap (◌∷◌ (b, e)) t.split;
          k = t.k;
          part = t.part;
          cut =
              take-append_ge n (frame_bytes b) (encode fs) (ground (arith, length-frame_bytes b))
              ∙ ap (◌++◌ (frame_bytes b)) t.cut
              ∙ sym (append_assoc (frame_bytes b) (encode t.kept) (take t.k (frame_bytes t.part)));
          big = t.big;
          short = t.short;
          inside = t.inside;
        }
  ]

  pub append-Torn :
      (durable fs : List (Frame M)) (file : Bytes)
      → Torn fs file
      → Torn (durable ++ fs) (encode durable ++ file)
  append-Torn durable fs file t = record {
    kept = durable ++ t.kept;
    lost = t.lost;
    split = rw t.split (sym (append_assoc durable t.kept t.lost));
    k = t.k;
    part = t.part;
    cut =
        rw (t.cut, encode-append durable t.kept)
          (sym (append_assoc (encode durable) (encode t.kept) (take t.k (frame_bytes t.part))));
    big = t.big;
    short = t.short;
    inside = t.inside;
  }

  pub append-Torn_lost :
      (durable fs : List (Frame M)) (file : Bytes) (t : Torn fs file)
      → length (append-Torn durable fs file t).lost ≤ length fs
  unfolding append-Torn
  append-Torn_lost durable fs file t =
      omega (arith, ap length t.split, length-append {0} t.kept t.lost)

  All-prefix : (fs gs : List (Frame M)) → AreFrames lib (fs ++ gs) → AreFrames lib fs
  All-prefix [] gs h = tt
  All-prefix (f ∷ fs) gs h = (h.0, All-prefix fs gs h.1)

  pub All-suffix : (fs gs : List (Frame M)) → AreFrames lib (fs ++ gs) → AreFrames lib gs
  All-suffix [] gs h = h
  All-suffix (f ∷ fs) gs h = All-suffix fs gs h.1

  -- Both loops on a file that was cut off.
  pub Torn-reads :
      (fs : List (Frame M)) (file : Bytes)
      → AreFrames lib fs
      → (t : Torn fs file)
      → (read_entries lib (suc (length file)) file ≡ some (torn_result lib t.k (entries_of t.kept)))
        × (last_sequence lib (suc (length file)) 0 file ≡ some (ok (last_of 0 t.kept)))
  Torn-reads fs file all t =
      let kept : AreFrames lib t.kept =
        All-prefix t.kept t.lost (subst (AreFrames lib) t.split all) in
      let whole = encode t.kept ++ take t.k (frame_bytes t.part) in
      let size : length whole ≡ length (encode t.kept) + t.k = ground (
        arith,
        length-append {0} (encode t.kept) (take t.k (frame_bytes t.part)),
        length-take {0} t.k (frame_bytes t.part),
        length-frame_bytes t.part,
        t.inside,
      ) in
      rw t.cut (
        read_entries-torn lib t.kept (suc (length whole)) t.k t.part kept t.big t.short t.inside
            (omega (arith, size)),
        last_sequence-torn lib t.kept (suc (length whole)) 0 t.k t.part kept t.big t.short t.inside
            (omega (arith, size)),
      )

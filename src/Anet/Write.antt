-- ===== src/Anet/Write.antt =====
-- `anetWrite` of anet.cpp.
use aspr1net.Base.{
  ℕ, zero, suc, ◌+◌, ◌≤◌, ◌<◌, [], ◌∷◌, ◌++◌, Option, none, some, ◌≡◌, refl, sym, ap, Result, ok,
  err, out_of_fuel, Bytes, if◌then◌else◌, ◌==◌, ◌∙◌, arith, take, drop, length, length-drop,
  append_assoc, append-nil, Bool-cases, inl, inr, ◌⊎◌,
}
use aspr1net.Anet.{Os}

module _ {W : Type 0} (os : Os W) where
  -- What one write gives, and the loop again after some bytes; none is -1.
  abbrev pub write_next :
      (Bytes → ℕ → W → Result (W × Option ℕ)) → Bytes → ℕ → W × Option ℕ → Result (W × Option ℕ)
  write_next again buf total (w, none) = ok (w, none)
  write_next again buf total (w, some zero) = ok (w, some total)
  write_next again buf total (w, some (suc n)) = again (drop (suc n) buf) (total + suc n) w

  -- The loop of `anetWrite`, with the bytes still to write, and the number of those written.
  unfoldable pub write_from : ℕ → ℕ → Bytes → ℕ → W → Result (W × Option ℕ)
  write_from zero fd buf total w = err out_of_fuel
  write_from (suc f) fd buf total w =
      let more = write_next (write_from f fd) buf total (os.write fd buf w) in
      if length buf == 0 then ok (w, some total) else more

  -- `anetWrite`: each round writes a byte or ends the loop.
  unfoldable pub write_all : ℕ → Bytes → W → Result (W × Option ℕ)
  write_all fd buf w = write_from (suc (length buf)) fd buf 0 w

-- What write(2) says: it writes a first part of the bytes, and returns how many they are.
pub record WriteLaws {W : Type 0} (os : Os W) : Type 0 where
  pub write_bounded :
      (fd : ℕ) (buf : Bytes) (w : W) {w' : W} {n : ℕ}
      → os.write fd buf w ≡ (w', some n)
      → n ≤ length buf
  pub write_sent :
      (fd : ℕ) (buf : Bytes) (w : W) {w' : W} {n : ℕ}
      → os.write fd buf w ≡ (w', some n)
      → os.sent w' fd ≡ os.sent w fd ++ take n buf

-- The number is that of the bytes written in all: all of them, unless a write wrote none. Where the
-- loop failed, a write did.
abbrev pub Written : {W : Type 0} → Os W → ℕ → Bytes → ℕ → W → W × Option ℕ → Type 0
Written {W} os fd buf total w (w', none) =
    (rest : Bytes) × (w1 : W) × (os.write fd rest w1 ≡ (w', none))
Written {W} os fd buf total w (w', some out) =
    (n : ℕ) × (out ≡ total + n)
    × (n ≤ length buf)
    × (os.sent w' fd ≡ os.sent w fd ++ take n buf)
    × ((n ≡ length buf)
        ⊎ ((rest : Bytes) × (w1 : W) × (0 < length rest) × (os.write fd rest w1 ≡ (w', some 0))))

take-two : (n m : ℕ) (xs : Bytes) → take n xs ++ take m (drop n xs) ≡ take (n + m) xs
take-two zero m xs = let same : 0 + m ≡ m = omega arith in rw same refl
take-two (suc n) zero [] = let same : suc n + 0 ≡ suc n = omega arith in rw same refl
take-two (suc n) (suc m) [] =
    let same : suc n + suc m ≡ suc (n + suc m) = omega arith in rw same refl
take-two (suc n) zero (x ∷ xs) =
    let same : suc n + 0 ≡ suc (n + 0) = omega arith in
    rw same (ap (λ rest. x ∷ rest) (take-two n zero xs))
take-two (suc n) (suc m) (x ∷ xs) =
    let same : suc n + suc m ≡ suc (n + suc m) = omega arith in
    rw same (ap (λ rest. x ∷ rest) (take-two n (suc m) xs))

module _ {W : Type 0} (os : Os W) (laws : WriteLaws os) where
  Written-after :
      (fd : ℕ) (buf : Bytes) (total n : ℕ) (w w' : W) (r : W × Option ℕ)
      → os.sent w' fd ≡ os.sent w fd ++ take n buf
      → n ≤ length buf
      → Written os fd (drop n buf) (total + n) w' r
      → Written os fd buf total w r
  Written-after fd buf total n w w' (end, none) sent le rest = rest
  Written-after fd buf total n w w' (end, some out) sent le (m, is, short, stream, why) = (
    n + m,
    omega arith,
    omega (arith, length-drop n buf),
    stream
        ∙ ap (λ x. x ++ take m (drop n buf)) sent
        ∙ append_assoc (os.sent w fd) (take n buf) (take m (drop n buf))
        ∙ ap (λ x. os.sent w fd ++ x) (take-two n m buf),
    elim why [ inl all ↦ inl (omega (arith, length-drop n buf)) | inr ended ↦ inr ended ],
  )

  write_next_lem :
      (f fd : ℕ) (buf : Bytes) (total : ℕ) (w : W) (again : Bytes → ℕ → W → Result (W × Option ℕ))
      → 0 < length buf
      → length buf < suc f
      → ((d : Bytes) (t : ℕ) (x : W)
          → length d < f
          → (r : W × Option ℕ) × (again d t x ≡ ok r) × Written os fd d t x r)
      → (answer : W × Option ℕ) → os.write fd buf w ≡ answer
      → (r : W × Option ℕ) × (write_next os again buf total answer ≡ ok r)
        × Written os fd buf total w r
  write_next_lem f fd buf total w again left h rest (w', none) e = ((w', none), refl, (buf, w, e))
  write_next_lem f fd buf total w again left h rest (w', some zero) e = (
    (w', some total),
    refl,
    (0, omega arith, omega arith, laws.write_sent fd buf w e, inr (buf, w, left, e)),
  )
  write_next_lem f fd buf total w again left h rest (w', some (suc n)) e =
      let bound = laws.write_bounded fd buf w e in
      let (r, same, written) =
        rest (drop (suc n) buf) (total + suc n) w' (omega (arith, length-drop (suc n) buf)) in
      (
        r,
        same,
        Written-after fd buf total (suc n) w w' r (laws.write_sent fd buf w e) bound written,
      )

  write_from_lem :
      (f fd : ℕ) (buf : Bytes) (total : ℕ) (w : W)
      → length buf < f
      → (r : W × Option ℕ) × (write_from os f fd buf total w ≡ ok r) × Written os fd buf total w r
  unfolding write_from
  write_from_lem zero fd buf total w h = absurd (omega arith)
  write_from_lem (suc f) fd buf total w h = elim (Bool-cases (length buf == 0)) [
    | inl done ↦ (
      (w, some total),
      rw done refl,
      (0, omega arith, omega arith, sym (append-nil (os.sent w fd)), inl (ground arith)),
    )
    | inr left ↦
        let (r, same, written) =
          write_next_lem f fd buf total w (write_from os f fd) (ground arith) h
            (write_from_lem f fd) (os.write fd buf w) refl in
        (r, rw left same, written)
  ]

  -- `anetWrite` returns. The number that it returns is that of the bytes written, which are the first
  -- ones of the buffer: all that were given, unless a write wrote none; it returns -1 only after a
  -- write that failed.
  pub write_all_lem :
      (fd : ℕ) (buf : Bytes) (w : W)
      → (r : W × Option ℕ) × (write_all os fd buf w ≡ ok r) × Written os fd buf 0 w r
  unfolding write_all
  write_all_lem fd buf w = write_from_lem (suc (length buf)) fd buf 0 w (omega arith)

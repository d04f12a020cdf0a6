-- ===== src/Anet/Transfer.antt =====
-- The loops of anet.cpp that call again: `anetGenericAccept`, `anetRead` and `anetWrite`.
use aspr1net.Base.{
  ℕ, zero, suc, ◌-◌, ◌≤◌, ◌<◌, [], ◌∷◌, ◌++◌, Option, none, some, ◌≡◌, ◌≢◌, refl, sym, ap, Result,
  ok, err, out_of_fuel, Bytes, if◌then◌else◌, ◌==◌, ◌∙◌, arith, length, length-append, append_assoc,
  append-nil, Bool-cases, inl, inr, ◌⊎◌,
}
use aspr1net.Anet.{Os, Acceptance, accepted, interrupted, failed}

abbrev pub descriptor_of : Acceptance → Option ℕ
descriptor_of (accepted fd) = some fd
descriptor_of interrupted = none
descriptor_of failed = none

module _ {W : Type 0} (os : Os W) where
  abbrev pub accepted_or : (W → Result (W × Option ℕ)) → W × Acceptance → Result (W × Option ℕ)
  accepted_or again (w, accepted fd) = ok (w, some fd)
  accepted_or again (w, interrupted) = again w
  accepted_or again (w, failed) = ok (w, none)

  -- `anetGenericAccept`: `while (1)`, on fuel.
  unfoldable pub generic_accept : ℕ → ℕ → W → Result (W × Option ℕ)
  generic_accept zero s w = err out_of_fuel
  generic_accept (suc f) s w = accepted_or (generic_accept f s) (os.accept s w)

  -- So many calls of accept in a row are interrupted.
  pub data Interrupted (s : ℕ) : ℕ → W → W → Type 0 where
    at_once : {w : W} → Interrupted s 0 w w
    once_more :
        {n : ℕ} {w w' w'' : W}
        → os.accept s w ≡ (w', interrupted)
        → Interrupted s n w' w''
        → Interrupted s (suc n) w w''

  accepted_or_answer :
      (again : W → Result (W × Option ℕ)) (r : W × Acceptance)
      → r.1 ≢ interrupted
      → accepted_or again r ≡ ok (r.0, descriptor_of r.1)
  accepted_or_answer again (w, accepted fd) h = refl
  accepted_or_answer again (w, interrupted) h = absurd (h refl)
  accepted_or_answer again (w, failed) h = refl

  -- `anetGenericAccept` calls accept again after each interruption, and returns what the first call
  -- that is not interrupted gives: the descriptor, or -1 if it failed. It takes one round more than
  -- there are interruptions.
  pub generic_accept_lem :
      (s n : ℕ) {w w' : W}
      → Interrupted s n w w'
      → (os.accept s w').1 ≢ interrupted
      → generic_accept (suc n) s w ≡ ok ((os.accept s w').0, descriptor_of (os.accept s w').1)
  unfolding generic_accept
  generic_accept_lem s zero {w} at_once h =
      accepted_or_answer (generic_accept zero s) (os.accept s w) h
  generic_accept_lem s (suc n) (once_more e more) h =
      ap (accepted_or (generic_accept (suc n) s)) e ∙ generic_accept_lem s n more h

  -- What one read gives, and the loop again after some bytes; none is -1.
  abbrev pub read_next :
      (ℕ → Bytes → W → Result (W × Option Bytes))
      → ℕ
      → Bytes
      → W × Option Bytes
      → Result (W × Option Bytes)
  read_next again count got (w, none) = ok (w, none)
  read_next again count got (w, some []) = ok (w, some got)
  read_next again count got (w, some (b ∷ bs)) = again (count - length (b ∷ bs)) (got ++ b ∷ bs) w

  -- The loop of `anetRead`, with so many bytes still to read, and those read so far.
  unfoldable pub read_from : ℕ → ℕ → ℕ → Bytes → W → Result (W × Option Bytes)
  read_from zero fd count got w = err out_of_fuel
  read_from (suc f) fd count got w =
      let more = read_next (read_from f fd) count got (os.read fd count w) in
      if count == 0 then ok (w, some got) else more

  -- `anetRead`: each round reads a byte or ends the loop, so one round more than bytes is enough.
  unfoldable pub read_all : ℕ → ℕ → W → Result (W × Option Bytes)
  read_all fd count w = read_from (suc count) fd count [] w

-- What read(2) says: no more bytes than asked for, and they are the next ones of the stream.
pub record StreamLaws {W : Type 0} (os : Os W) : Type 0 where
  pub read_bounded :
      (fd n : ℕ) (w : W) {w' : W} {bs : Bytes} → os.read fd n w ≡ (w', some bs) → length bs ≤ n
  pub read_taken :
      (fd n : ℕ) (w : W) {w' : W} {bs : Bytes}
      → os.read fd n w ≡ (w', some bs)
      → os.pending w fd ≡ bs ++ os.pending w' fd

-- The loop came to the count, or a read returned no bytes; where it failed, a read did.
abbrev pub Filled : {W : Type 0} → Os W → ℕ → ℕ → Bytes → W → W × Option Bytes → Type 0
Filled {W} os fd count got w (w', none) = (n : ℕ) × (w1 : W) × (os.read fd n w1 ≡ (w', none))
Filled {W} os fd count got w (w', some out) =
    (bs : Bytes) × (out ≡ got ++ bs)
    × (os.pending w fd ≡ bs ++ os.pending w' fd)
    × (length bs ≤ count)
    × ((length bs ≡ count) ⊎ ((n : ℕ) × (w1 : W) × (0 < n) × (os.read fd n w1 ≡ (w', some []))))

module _ {W : Type 0} (os : Os W) (laws : StreamLaws os) where
  -- Some bytes in front of what the rest of the loop reads.
  Filled-after :
      (fd count : ℕ) (got bs : Bytes) (w w' : W) (r : W × Option Bytes)
      → os.pending w fd ≡ bs ++ os.pending w' fd
      → length bs ≤ count
      → Filled os fd (count - length bs) (got ++ bs) w' r
      → Filled os fd count got w r
  Filled-after fd count got bs w w' (end, none) taken le rest = rest
  Filled-after fd count got bs w w' (end, some out) taken le (cs, is, stream, short, why) = (
    bs ++ cs,
    is ∙ append_assoc got bs cs,
    taken ∙ ap (λ x. bs ++ x) stream ∙ sym (append_assoc bs cs (os.pending end fd)),
    omega (arith, length-append bs cs),
    elim why [ inl all ↦ inl (omega (arith, length-append bs cs)) | inr ended ↦ inr ended ],
  )

  -- What `read_next` makes of an answer, when the rest of the loop does as it should.
  read_next_lem :
      (f fd count : ℕ) (got : Bytes) (w : W) (again : ℕ → Bytes → W → Result (W × Option Bytes))
      → 0 < count
      → count < suc f
      → ((c : ℕ) (g : Bytes) (x : W)
          → c < f
          → (r : W × Option Bytes) × (again c g x ≡ ok r) × Filled os fd c g x r)
      → (answer : W × Option Bytes) → os.read fd count w ≡ answer
      → (r : W × Option Bytes) × (read_next os again count got answer ≡ ok r)
        × Filled os fd count got w r
  read_next_lem f fd count got w again left h rest (w', none) e = ((w', none), refl, (count, w, e))
  read_next_lem f fd count got w again left h rest (w', some []) e = (
    (w', some got),
    refl,
    ([], sym (append-nil got), laws.read_taken fd count w e, omega arith, inr (count, w, left, e)),
  )
  read_next_lem f fd count got w again left h rest (w', some (b ∷ bs)) e =
      let bound = laws.read_bounded fd count w e in
      let (r, same, filled) = rest (count - length (b ∷ bs)) (got ++ b ∷ bs) w' (omega arith) in
      (
        r,
        same,
        Filled-after fd count got (b ∷ bs) w w' r (laws.read_taken fd count w e) bound filled,
      )

  read_from_lem :
      (f fd count : ℕ) (got : Bytes) (w : W)
      → count < f
      → (r : W × Option Bytes) × (read_from os f fd count got w ≡ ok r) × Filled os fd count got w r
  unfolding read_from
  read_from_lem zero fd count got w h = absurd (omega arith)
  read_from_lem (suc f) fd count got w h = elim (Bool-cases (count == 0)) [
    | inl done ↦ (
      (w, some got),
      rw done refl,
      ([], sym (append-nil got), refl, omega arith, inl (ground arith)),
    )
    | inr left ↦
        let (r, same, filled) =
          read_next_lem f fd count got w (read_from os f fd) (ground arith) h (read_from_lem f fd)
            (os.read fd count w) refl in
        (r, rw left same, filled)
  ]

  -- `anetRead` returns. The bytes that it puts into the buffer are the next ones of the stream, at
  -- most as many as asked for, and just as many unless a read came to the end of the file; it
  -- returns -1 only after a read that failed.
  pub read_all_lem :
      (fd count : ℕ) (w : W)
      → (r : W × Option Bytes) × (read_all os fd count w ≡ ok r) × Filled os fd count [] w r
  unfolding read_all
  read_all_lem fd count w = read_from_lem (suc count) fd count [] w (omega arith)

-- ===== src/Wire/Exact.antt =====
-- On a connection that stands, `anetRead` and `anetWrite` move all the bytes that they are asked for.
use aspr1net.Base.{
  ℕ, zero, suc, ◌+◌, ◌^◌, ◌%◌, ◌≤◌, ◌<◌, [], ◌∷◌, ◌++◌, Option, none, some, ◌≡◌, ◌≢◌, refl, sym, ap,
  ◌∙◌, arith, Result, ok, Bytes, length, drop, length-append, take-all, inl, inr, Bool-cases, ◌==◌,
  drop-all, size_mod, le_bytes, of_le_bytes, of_le_bytes-le_bytes, length-le_bytes, append_assoc,
  append-nil,
}
use aspr1net.Base.Int.{pos}
use aspr1net.Anet.{Os}
use aspr1net.Anet.Transfer.{read_all, StreamLaws, Filled, read_all_lem}
use aspr1net.Anet.Write.{write_all, write_from, write_next, WriteLaws, Written, write_all_lem}
use aspr1net.Buffer.{head_size, head_bytes}
use aspr1net.Wire.{packed, stored, bytes_of, read_fd, recv_integer}

-- A connection that stands: no call fails, and each moves at least a byte as long as there is one.
pub record Stands {W : Type 0} (os : Os W) (fd : ℕ) : Type 0 where
  pub read_laws : StreamLaws os
  pub write_laws : WriteLaws os
  pub reads : (n : ℕ) (w : W) → (os.read fd n w).1 ≢ none
  pub reads_some :
      (n : ℕ) (w : W) {w' : W} → 0 < n → os.read fd n w ≡ (w', some []) → os.pending w fd ≡ []
  pub writes : (bs : Bytes) (w : W) → (os.write fd bs w).1 ≢ none
  pub writes_apart : (bs : Bytes) (w : W) → os.pending (os.write fd bs w).0 fd ≡ os.pending w fd
  pub writes_some : (bs : Bytes) (w : W) → 0 < length bs → (os.write fd bs w).1 ≢ some 0

-- The first bytes of two streams that are equal.
pub same_front : (a b c d : Bytes) → a ++ b ≡ c ++ d → length a ≡ length c → (a ≡ c) × (b ≡ d)
same_front [] b [] d e h = (refl, e)
same_front [] b (y ∷ c) d e h = absurd (omega arith)
same_front (x ∷ a) b [] d e h = absurd (omega arith)
same_front (x ∷ a) b (y ∷ c) d e h =
    let (front, rest) = same_front a b c d (cc) (omega arith) in (cc, rest)

module _ {W : Type 0} (os : Os W) (fd : ℕ) (c : Stands os fd) where
  read_exact-Filled :
      (bs rest : Bytes) (w : W)
      → os.pending w fd ≡ bs ++ rest
      → (r : W × Option Bytes) → Filled os fd (length bs) [] w r
      → (r.1 ≡ some bs) × (os.pending r.0 fd ≡ rest)
  read_exact-Filled bs rest w there (w', none) (n, w1, e) = absurd (c.reads n w1 (ap (λ x. x.1) e))
  read_exact-Filled bs rest w there (w', some out) (got, is, taken, short, inl all) =
      let (front, left) = same_front got (os.pending w' fd) bs rest (sym taken ∙ there) all in
      (ap (λ x. some x) (is ∙ front), left)
  read_exact-Filled bs rest w there (w', some out) (got, is, taken, short, inr (n, w1, more, e)) =
      let none_left : os.pending w' fd ≡ [] =
        sym (c.read_laws.read_taken fd n w1 e) ∙ c.reads_some n w1 more e in
      let sizes = ap length (sym taken ∙ there) in
      let all : length got ≡ length bs = omega (
        arith,
        sizes,
        length-append got (os.pending w' fd),
        length-append bs rest,
        ap length none_left,
      ) in
      let (front, left) = same_front got (os.pending w' fd) bs rest (sym taken ∙ there) all in
      (ap (λ x. some x) (is ∙ front), left)

  -- `anetRead` gets the bytes it is asked for, if they are to come.
  pub read_all-exact :
      (bs rest : Bytes) (w : W)
      → os.pending w fd ≡ bs ++ rest
      → (w' : W) × (read_all os fd (length bs) w ≡ ok (w', some bs)) × (os.pending w' fd ≡ rest)
  read_all-exact bs rest w there =
      let ((w', got), done, filled) = read_all_lem os c.read_laws fd (length bs) w in
      let (is, left) = read_exact-Filled bs rest w there (w', got) filled in
      (w', done ∙ ap (λ x. ok (w', x)) is, left)

  -- To write leaves what is to come.
  abbrev KeepsPending : W → W × Option ℕ → Type 0
  KeepsPending w r = os.pending r.0 fd ≡ os.pending w fd

  write_next_keeps :
      (again : Bytes → ℕ → W → Result (W × Option ℕ)) (buf : Bytes) (total : ℕ)
      (answer r : W × Option ℕ)
      → ((d : Bytes) (t : ℕ) (x : W) (y : W × Option ℕ) → again d t x ≡ ok y → KeepsPending x y)
      → write_next os again buf total answer ≡ ok r
      → KeepsPending answer.0 r
  write_next_keeps again buf total (w, none) r rest e = cc
  write_next_keeps again buf total (w, some zero) r rest e = cc
  write_next_keeps again buf total (w, some (suc n)) r rest e =
      rest (drop (suc n) buf) (total + suc n) w r e

  write_from_keeps :
      (f : ℕ) (buf : Bytes) (total : ℕ) (w : W) (r : W × Option ℕ)
      → write_from os f fd buf total w ≡ ok r
      → KeepsPending w r
  unfolding write_from
  write_from_keeps zero buf total w r e = cc
  write_from_keeps (suc f) buf total w r e = elim (Bool-cases (length buf == 0)) [
    | inl done ↦ ground (arith, e)
    | inr left ↦
        write_next_keeps (write_from os f fd) buf total (os.write fd buf w) r (write_from_keeps f)
          (ground (arith, e))
        ∙ c.writes_apart buf w
  ]

  write_exact-Written :
      (bs : Bytes) (w : W) (r : W × Option ℕ)
      → Written os fd bs 0 w r
      → (r.1 ≡ some (length bs)) × (os.sent r.0 fd ≡ os.sent w fd ++ bs)
  write_exact-Written bs w (w', none) (rest, w1, e) = absurd (c.writes rest w1 (ap (λ x. x.1) e))
  write_exact-Written bs w (w', some out) (n, is, short, sent, inl all) = (
    ap (λ x. some x) (omega arith),
    sent ∙ ap (λ x. os.sent w fd ++ x) (take-all n bs (omega arith)),
  )
  write_exact-Written bs w (w', some out) (n, is, short, sent, inr (rest, w1, some_left, e)) =
      absurd (c.writes_some rest w1 some_left (ap (λ x. x.1) e))

  -- `anetWrite` sends all the bytes, and takes nothing of what is to come.
  pub write_all-exact :
      (bs : Bytes) (w : W)
      → (w' : W) × (write_all os fd bs w ≡ ok (w', some (length bs)))
        × (os.sent w' fd ≡ os.sent w fd ++ bs)
        × (os.pending w' fd ≡ os.pending w fd)
  unfolding write_all
  write_all-exact bs w =
      let ((w', got), done, written) = write_all_lem os c.write_laws fd bs w in
      let (is, sent) = write_exact-Written bs w (w', got) written in
      (
        w',
        done ∙ ap (λ x. ok (w', x)) is,
        sent,
        write_from_keeps (suc (length bs)) bs 0 w (w', got) done,
      )

  -- The same with a size_t below 2 ^ 31.
  pub read_fd-exact :
      (bs rest : Bytes) (n : ℕ) (w : W)
      → n ≡ length bs
      → n < 2 ^ 31
      → os.pending w fd ≡ bs ++ rest
      → (w' : W) × (read_fd os (pos fd) n w ≡ ok (w', some bs)) × (os.pending w' fd ≡ rest)
  unfolding read_fd
  read_fd-exact bs rest n w e small there =
      let (w', done, left) = read_all-exact bs rest w there in
      let count : n % 2 ^ 32 ≡ length bs = omega arith in
      (w', rw count (ground (arith, done)), left)

  -- The head of a package, and what stands behind it.
  pub read_head :
      (payload rest garbage : Bytes) (w : W)
      → length payload < 2 ^ 31
      → length garbage ≡ 8
      → os.pending w fd ≡ packed payload ++ rest
      → (w' : W) × (read_fd os (pos fd) head_size w ≡ ok (w', some (head_bytes (length payload))))
        × (of_le_bytes (stored garbage (head_bytes (length payload))) ≡ length payload)
        × (os.pending w' fd ≡ payload ++ rest)
  read_head payload rest garbage w small eight there =
      let head = head_bytes (length payload) in
      let size = length-le_bytes 8 (length payload) in
      let (w', done, left) =
        read_fd-exact head (payload ++ rest) head_size w (omega arith) (omega arith)
          (there ∙ append_assoc head payload rest) in
      let gone : drop (length head) garbage ≡ [] = drop-all (length head) garbage (omega arith) in
      (
        w',
        done,
        ap of_le_bytes (ap (λ x. head ++ x) gone ∙ append-nil head)
            ∙ of_le_bytes-le_bytes (length payload) (omega arith),
        left,
      )

  recv_integer_steps :
      (garbage number : Bytes) (n len : ℕ) (w w1 w2 : W) (got : Option Bytes)
      → read_fd os (pos fd) head_size w ≡ ok (w1, got)
      → of_le_bytes (stored garbage (bytes_of got)) ≡ len
      → read_fd os (pos fd) len w1 ≡ ok (w2, some number)
      → length number ≤ 8
      → of_le_bytes (stored (head_bytes 0) number) ≡ n
      → recv_integer os garbage (pos fd) w ≡ ok (w2, n)
  unfolding recv_integer
  recv_integer_steps garbage number n len w w1 w2 got headed is done short value =
      ground (arith, headed, is, done, value)

  -- A number that was sent as a package is received.
  pub recv_integer-packed :
      (n : ℕ) (rest garbage : Bytes) (w : W)
      → n < size_mod
      → length garbage ≡ 8
      → os.pending w fd ≡ packed (le_bytes 8 n) ++ rest
      → (w' : W) × (recv_integer os garbage (pos fd) w ≡ ok (w', n)) × (os.pending w' fd ≡ rest)
  recv_integer-packed n rest garbage w small eight there =
      let number = le_bytes 8 n in
      let size = length-le_bytes 8 n in
      let (w1, headed, len, left) = read_head number rest garbage w (omega arith) eight there in
      let (w2, done, end) = read_fd-exact number rest (length number) w1 refl (omega arith) left in
      let empty : drop (length number) (head_bytes 0) ≡ [] =
        drop-all (length number) (head_bytes 0) (omega (arith, length-le_bytes 8 0)) in
      (
        w2,
        recv_integer_steps garbage number n (length number) w w1 w2
            (some (head_bytes (length number))) headed len done (omega arith)
            (ap of_le_bytes (ap (λ x. number ++ x) empty ∙ append-nil number)
              ∙ of_le_bytes-le_bytes n small),
        end,
      )

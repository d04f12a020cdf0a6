-- ===== src/Wire/Clean.antt =====
-- The loops of anet.cpp, and what is made of them, go through no pointer to what was deleted.
use aspr1net.Base.{
  ℕ, zero, suc, ◌+◌, ◌-◌, ◌%◌, ◌^◌, [], ◌∷◌, ◌++◌, Option, none, some, Bytes, Result, length, drop,
  Clean, bind-Sure, if-Sure, fails, gives,
}
use aspr1net.Base.Int.{ℤ, pos, negsuc}
use aspr1net.Anet.{Os, Acceptance, accepted, interrupted, failed}
use aspr1net.Anet.Transfer.{read_next, read_from, read_all, accepted_or, generic_accept}
use aspr1net.Anet.Write.{write_next, write_from, write_all}
use aspr1net.Buffer.{head_size}
use aspr1net.Wire.{read_fd, write_fd, recv_integer}

module _ {W : Type 0} (os : Os W) where
  accepted_or-Clean :
      (again : W → Result (W × Option ℕ)) (r : W × Acceptance)
      → ((w : W) → Clean (again w))
      → Clean (accepted_or os again r)
  accepted_or-Clean again (w, accepted fd) h = gives tt
  accepted_or-Clean again (w, interrupted) h = h w
  accepted_or-Clean again (w, failed) h = gives tt

  pub generic_accept-Clean : (f s : ℕ) (w : W) → Clean (generic_accept os f s w)
  unfolding generic_accept
  generic_accept-Clean zero s w = fails tt
  generic_accept-Clean (suc f) s w = accepted_or-Clean _ (os.accept s w) (generic_accept-Clean f s)

  read_next-Clean :
      (again : ℕ → Bytes → W → Result (W × Option Bytes)) (count : ℕ) (got : Bytes)
      (r : W × Option Bytes)
      → ((n : ℕ) (g : Bytes) (w : W) → Clean (again n g w))
      → Clean (read_next os again count got r)
  read_next-Clean again count got (w, none) h = gives tt
  read_next-Clean again count got (w, some []) h = gives tt
  read_next-Clean again count got (w, some (b ∷ bs)) h =
      h (count - length (b ∷ bs)) (got ++ b ∷ bs) w

  read_from-Clean : (f fd count : ℕ) (got : Bytes) (w : W) → Clean (read_from os f fd count got w)
  unfolding read_from
  read_from-Clean zero fd count got w = fails tt
  read_from-Clean (suc f) fd count got w =
      if-Sure _ (gives tt) (read_next-Clean _ count got (os.read fd count w) (read_from-Clean f fd))

  write_next-Clean :
      (again : Bytes → ℕ → W → Result (W × Option ℕ)) (buf : Bytes) (total : ℕ) (r : W × Option ℕ)
      → ((b : Bytes) (t : ℕ) (w : W) → Clean (again b t w))
      → Clean (write_next os again buf total r)
  write_next-Clean again buf total (w, none) h = gives tt
  write_next-Clean again buf total (w, some zero) h = gives tt
  write_next-Clean again buf total (w, some (suc n)) h = h (drop (suc n) buf) (total + suc n) w

  write_from-Clean :
      (f fd : ℕ) (buf : Bytes) (total : ℕ) (w : W) → Clean (write_from os f fd buf total w)
  unfolding write_from
  write_from-Clean zero fd buf total w = fails tt
  write_from-Clean (suc f) fd buf total w =
      if-Sure _ (gives tt)
        (write_next-Clean _ buf total (os.write fd buf w) (write_from-Clean f fd))

  read_fd-Clean : (fd : ℤ) (n : ℕ) (w : W) → Clean (read_fd os fd n w)
  unfolding read_fd read_all
  read_fd-Clean (pos fd) n w =
      if-Sure _ (read_from-Clean (suc (n % 2 ^ 32)) fd (n % 2 ^ 32) [] w) (fails tt)
  read_fd-Clean (negsuc m) n w = gives tt

  pub write_fd-Clean : (fd : ℤ) (bs : Bytes) (w : W) → Clean (write_fd os fd bs w)
  unfolding write_fd write_all
  write_fd-Clean (pos fd) bs w = if-Sure _ (write_from-Clean _ fd _ 0 w) (fails tt)
  write_fd-Clean (negsuc m) bs w = gives tt

  pub recv_integer-Clean : (garbage : Bytes) (fd : ℤ) (w : W) → Clean (recv_integer os garbage fd w)
  unfolding recv_integer
  recv_integer-Clean garbage fd w = bind-Sure (read_fd-Clean fd head_size w) (λ head h.
      bind-Sure (read_fd-Clean fd _ head.0) (λ number h. if-Sure _ (fails tt) (gives tt)))

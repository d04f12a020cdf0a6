-- ===== src/Server/Watching.antt =====
-- What the commands and the transfers of a session leave of the interest list of epoll: all of it.
use aspr1net.Base.{
  ℕ, zero, suc, ◌+◌, ◌-◌, ◌%◌, ◌^◌, ◌==◌, List, [], ◌∷◌, ◌++◌, Option, none, some, ◌≡◌, ◌∙◌, Bytes,
  Result, ok, err, null_pointer, ◌>>=◌, if◌then◌else◌, length, drop, of_le_bytes, codes, Gives,
  raised, gave, bind-Gives, if-Gives, Gives-Any,
}
use aspr1net.Base.Int.{ℤ, pos, negsuc}
use aspr1net.Ae.Epoll.{Kernel}
use aspr1net.Arg.{argv}
use aspr1net.Anet.{Os, SocketOption, Acceptance, accepted, interrupted, failed}
use aspr1net.Anet.Transfer.{read_next, read_from, read_all, accepted_or, generic_accept}
use aspr1net.Anet.Write.{write_next, write_from, write_all}
use aspr1net.Buffer.{Allocator, Buffer, head_size, readable_size, write_str, write_int}
use aspr1net.Buffer.Memory.{mem_read, mem_write}
use aspr1net.Stdio.{Files}
use aspr1net.Wire.{stored, bytes_of, read_fd, read_once, write_fd, recv_integer}
use aspr1net.Chunks.{file_chunks, flush, flush_all}
use aspr1net.Command.{element}
use aspr1net.Server.{
  Session, ServerCommand, ping_command, get_command, set_command, file_send_command,
  file_recv_command, recv, recv_chunks, file_send, file_recv, ping, invoke, file_name,
}
use aspr1net.Server.Handlers.{write_session}

-- What the system calls on sockets do to the interest list: close takes the descriptor out of it.
pub record Undisturbed {W : Type 0} (k : Kernel W) (os : Os W) : Type 0 where
  pub read_keeps : (fd n : ℕ) (w : W) (j : ℕ) → k.registered (os.read fd n w).0 j ≡ k.registered w j
  pub write_keeps :
      (fd : ℕ) (bs : Bytes) (w : W) (j : ℕ) → k.registered (os.write fd bs w).0 j ≡ k.registered w j
  pub accept_keeps : (fd : ℕ) (w : W) (j : ℕ) → k.registered (os.accept fd w).0 j ≡ k.registered w j
  pub setsockopt_keeps :
      (fd : ℕ) (option : SocketOption) (val : ℤ) (w : W) (j : ℕ)
      → k.registered (os.setsockopt fd option val w).0 j ≡ k.registered w j
  pub closed :
      (fd : ℕ) (w : W) (j : ℕ)
      → k.registered (os.close fd w) j ≡ (if fd == j then none else k.registered w j)

module _ {W : Type 0} (k : Kernel W) (os : Os W) (u : Undisturbed k os) (w0 : W) where
  -- The interest list of the world is that of `w0`.
  abbrev pub Kept : W → Type 0
  Kept w = (j : ℕ) → k.registered w j ≡ k.registered w0 j

  abbrev pub KeptBy : {V : Type 0} → Result (W × V) → Type 0
  KeptBy = Gives (λ r. Kept r.0)

  abbrev pub KeptBoth : {V U : Type 0} → Result (W × V × U) → Type 0
  KeptBoth = Gives (λ r. Kept r.0)

  accepted_or-Kept :
      (again : W → Result (W × Option ℕ)) (r : W × Acceptance)
      → Kept r.0
      → ((w : W) → Kept w → KeptBy (again w))
      → KeptBy (accepted_or os again r)
  accepted_or-Kept again (w, accepted fd) h rest = gave h
  accepted_or-Kept again (w, interrupted) h rest = rest w h
  accepted_or-Kept again (w, failed) h rest = gave h

  pub accept-Kept : (f s : ℕ) (w : W) → Kept w → KeptBy (generic_accept os f s w)
  unfolding generic_accept
  accept-Kept zero s w h = raised
  accept-Kept (suc f) s w h =
      accepted_or-Kept _ (os.accept s w) (λ j. u.accept_keeps s w j ∙ h j) (accept-Kept f s)

  read_next-Kept :
      (again : ℕ → Bytes → W → Result (W × Option Bytes)) (count : ℕ) (got : Bytes)
      (r : W × Option Bytes)
      → Kept r.0
      → ((n : ℕ) (g : Bytes) (w : W) → Kept w → KeptBy (again n g w))
      → KeptBy (read_next os again count got r)
  read_next-Kept again count got (w, none) h rest = gave h
  read_next-Kept again count got (w, some []) h rest = gave h
  read_next-Kept again count got (w, some (b ∷ bs)) h rest =
      rest (count - length (b ∷ bs)) (got ++ b ∷ bs) w h

  read_from-Kept :
      (f fd count : ℕ) (got : Bytes) (w : W) → Kept w → KeptBy (read_from os f fd count got w)
  unfolding read_from
  read_from-Kept zero fd count got w h = raised
  read_from-Kept (suc f) fd count got w h = if-Gives (count == 0) (gave h) (
      read_next-Kept _ count got (os.read fd count w) (λ j. u.read_keeps fd count w j ∙ h j)
        (read_from-Kept f fd))

  write_next-Kept :
      (again : Bytes → ℕ → W → Result (W × Option ℕ)) (buf : Bytes) (total : ℕ) (r : W × Option ℕ)
      → Kept r.0
      → ((b : Bytes) (t : ℕ) (w : W) → Kept w → KeptBy (again b t w))
      → KeptBy (write_next os again buf total r)
  write_next-Kept again buf total (w, none) h rest = gave h
  write_next-Kept again buf total (w, some zero) h rest = gave h
  write_next-Kept again buf total (w, some (suc n)) h rest =
      rest (drop (suc n) buf) (total + suc n) w h

  write_from-Kept :
      (f fd : ℕ) (buf : Bytes) (total : ℕ) (w : W)
      → Kept w
      → KeptBy (write_from os f fd buf total w)
  unfolding write_from
  write_from-Kept zero fd buf total w h = raised
  write_from-Kept (suc f) fd buf total w h = if-Gives (length buf == 0) (gave h) (
      write_next-Kept _ buf total (os.write fd buf w) (λ j. u.write_keeps fd buf w j ∙ h j)
        (write_from-Kept f fd))

  read_fd-Kept : (fd : ℤ) (n : ℕ) (w : W) → Kept w → KeptBy (read_fd os fd n w)
  unfolding read_fd read_all
  read_fd-Kept (pos fd) n w h =
      if-Gives _ (read_from-Kept (suc (n % 2 ^ 32)) fd (n % 2 ^ 32) [] w h) raised
  read_fd-Kept (negsuc m) n w h = gave h

  write_fd-Kept : (fd : ℤ) (bs : Bytes) (w : W) → Kept w → KeptBy (write_fd os fd bs w)
  unfolding write_fd write_all
  write_fd-Kept (pos fd) bs w h = if-Gives _ (write_from-Kept _ fd _ 0 w h) raised
  write_fd-Kept (negsuc m) bs w h = gave h

  pub read_once-Kept : (fd : ℤ) (n : ℕ) (w : W) → Kept w → Kept (read_once os fd n w).0
  unfolding read_once
  read_once-Kept (pos fd) n w h j = u.read_keeps fd n w j ∙ h j
  read_once-Kept (negsuc m) n w h j = h j

  recv_integer-Kept :
      (garbage : Bytes) (fd : ℤ) (w : W) → Kept w → KeptBy (recv_integer os garbage fd w)
  unfolding recv_integer
  recv_integer-Kept garbage fd w h = bind-Gives (read_fd-Kept fd head_size w h) (λ head h1.
      bind-Gives (read_fd-Kept fd _ head.0 h1) (λ number h2. if-Gives _ raised (gave h2)))

  flush-Kept : (fd : ℤ) (b : Buffer) (w : W) → Kept w → KeptBy (flush os fd b w)
  unfolding flush
  flush-Kept fd b w h =
      bind-Gives (Gives-Any (readable_size b))
        (λ n t. bind-Gives (Gives-Any (mem_read b.buff 0 n)) (λ bs t. write_fd-Kept fd bs w h))

  flush_all-Kept : (fd : ℤ) (bs : List Buffer) (w : W) → Kept w → KeptBy (flush_all os fd bs w)
  unfolding flush_all
  flush_all-Kept fd [] w h = gave h
  flush_all-Kept fd (b ∷ bs) w h =
      bind-Gives (flush-Kept fd b w h)
        (λ r h1. bind-Gives (flush_all-Kept fd bs r.0 h1) (λ r h2. gave h2))

  pub write_session-Kept : (s : Session) (w : W) → Kept w → KeptBy (write_session os s w)
  unfolding write_session
  write_session-Kept s w h =
      bind-Gives (flush-Kept s.fd s.w_buffer w h)
        (λ first h1. bind-Gives (flush_all-Kept s.fd s.buffer_list first.0 h1) (λ rest h2. gave h2))

  module _ {F : Type 0} (alloc : Allocator) (fs : Files F) where
    recv-Kept : (s : Session) (w : W) → Kept w → KeptBoth (recv alloc os s w)
    unfolding recv
    recv-Kept s w h =
        let len =
          of_le_bytes
            (stored (alloc.fresh head_size) (bytes_of (read_once os s.fd head_size w).1)) in
        let head = read_once-Kept s.fd head_size w h in
        let body = read_once-Kept s.fd len (read_once os s.fd head_size w).0 head in
        bind-Gives (Gives-Any (mem_write _ _ _))
          (λ filled t. bind-Gives (Gives-Any (mem_write _ _ _)) (λ ended t. gave body))

    recv_chunks-Kept :
        (n handle : ℕ) (s : Session) (w : W) (f : F)
        → Kept w
        → KeptBoth (recv_chunks alloc os fs n handle s w f)
    unfolding recv_chunks
    recv_chunks-Kept zero handle s w f h = gave h
    recv_chunks-Kept (suc n) handle s w f h = bind-Gives (recv-Kept s w h) (λ r h1.
        if-Gives _ (gave h1) (
          bind-Gives (Gives-Any (readable_size r.1.r_buffer)) (λ size t.
            bind-Gives (Gives-Any (mem_read r.1.r_buffer.buff 0 size))
              (λ bs t. recv_chunks-Kept n handle r.1 r.0 (fs.fwrite handle bs f) h1))))

    file_send-Kept : (s : Session) (w : W) (f : F) → Kept w → KeptBoth (file_send alloc os fs s w f)
    unfolding file_send
    file_send-Kept s w f h =
        bind-Gives (Gives-Any (element (argv s.arg 1)))
          (λ name t. opened (fs.fopen_write (file_name name) f))
      where
        opened :
            (r : F × Option ℕ)
            → KeptBoth (elim r.1 [
              | none ↦ err null_pointer
              | some handle ↦ (do
                (w1, num) ← recv_integer os (alloc.fresh 8) s.fd w
                (w2, s1, f2) ← recv_chunks alloc os fs num handle s w1 r.0
                ok (w2, s1, fs.fclose handle f2))
            ])
        opened (f1, none) = raised
        opened (f1, some handle) =
            bind-Gives (recv_integer-Kept (alloc.fresh 8) s.fd w h) (λ number h1.
              bind-Gives (recv_chunks-Kept number.1 handle s number.0 f1 h1) (λ r h2. gave h2))

    file_recv-Kept :
        (fuel : ℕ) (s : Session) (w : W) (f : F)
        → Kept w
        → KeptBoth (file_recv alloc os fs fuel s w f)
    unfolding file_recv
    file_recv-Kept fuel s w f h =
        bind-Gives (Gives-Any (element (argv s.arg 1)))
          (λ name t. opened (fs.fopen_read (file_name name) f))
      where
        opened :
            (r : F × Option ℕ)
            → KeptBoth (elim r.1 [
              | none ↦ err null_pointer
              | some handle ↦ (do
                (f2, chunks) ← file_chunks alloc fs fuel handle r.0 []
                b ← write_int alloc s.w_buffer (length chunks)
                ok (w, record s { w_buffer = b; buffer_list = chunks }, fs.fclose handle f2))
            ])
        opened (f1, none) = raised
        opened (f1, some handle) =
            bind-Gives (Gives-Any (file_chunks alloc fs fuel handle f1 [])) (λ r t.
              bind-Gives (Gives-Any (write_int alloc s.w_buffer (length r.1))) (λ b t. gave h))

    pub invoke-Kept :
        (fuel : ℕ) (command : ServerCommand) (s : Session) (w : W) (f : F)
        → Kept w
        → KeptBoth (invoke alloc os fs fuel command s w f)
    unfolding invoke ping
    invoke-Kept fuel ping_command s w f h =
        bind-Gives (Gives-Any (write_str alloc s.w_buffer (codes "pong."))) (λ b t. gave h)
    invoke-Kept fuel get_command s w f h = gave h
    invoke-Kept fuel set_command s w f h = gave h
    invoke-Kept fuel file_send_command s w f h = file_send-Kept s w f h
    invoke-Kept fuel file_recv_command s w f h = file_recv-Kept fuel s w f h

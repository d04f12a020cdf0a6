-- ===== src/Server/Clean.antt =====
-- The commands go through no pointer to what was deleted, and leave the descriptor and the loop of
-- their session.
use aspr1net.Base.{
  ℕ, zero, suc, [], Option, none, some, ◌≡◌, refl, ◌∙◌, Bytes, Result, ok, err, null_pointer, ◌>>=◌,
  length, codes, Sure, Clean, bind-Sure, if-Sure, fails, gives,
}
use aspr1net.Arg
use aspr1net.Arg.{argv}
use aspr1net.Anet.{Os}
use aspr1net.Buffer.{Allocator, write_int}
use aspr1net.Buffer.Clean.{
  mem_read-Clean, mem_write-Clean, readable_size-Clean, write_str-Clean, write_int-Clean,
}
use aspr1net.Stdio.{Files}
use aspr1net.Wire.Clean.{recv_integer-Clean}
use aspr1net.Chunks.Clean.{file_chunks-Clean, flush-Clean, flush_all-Clean}
use aspr1net.Command.{element, split}
use aspr1net.Server.{
  Session, ServerCommand, ping_command, get_command, set_command, file_send_command,
  file_recv_command, block_text, process_input_buffer, recv, recv_chunks, file_send, file_recv,
  ping, invoke, file_name,
}
use aspr1net.Server.Handlers.{write_session, advanced}
use aspr1net.Wire.{recv_integer}
use aspr1net.Chunks.{file_chunks}

-- The same descriptor, and the same loop.
abbrev pub SameEnds : Session → Session → Type 0
SameEnds s s' = (s'.fd ≡ s.fd) × (s'.has_loop ≡ s.has_loop)

SameEnds-trans : (a b c : Session) → SameEnds a b → SameEnds b c → SameEnds a c
SameEnds-trans a b c (fd, loop) (fd', loop') = (fd' ∙ fd, loop' ∙ loop)

pub element-Clean : {V : Type 0} (v : Option V) → Clean (element v)
element-Clean none = fails tt
element-Clean (some v) = gives tt

split-Clean : {V : Type 0} (v : Option V) → Clean (split v)
split-Clean none = fails tt
split-Clean (some v) = gives tt

block_text-Clean : (block : Bytes) → Clean (block_text block)
unfolding block_text
block_text-Clean block = if-Sure _ (gives tt) (fails tt)

pub process_input_buffer-Sure : (s : Session) → Sure (SameEnds s) (process_input_buffer s)
unfolding process_input_buffer
process_input_buffer-Sure s = bind-Sure (block_text-Clean s.r_buffer.buff) (λ text h.
    bind-Sure (split-Clean (Arg.process s.arg (some text))) (λ arg h. gives (refl, refl)))

-- The session of an outcome has the ends that it had.
abbrev pub Keeps : {W F : Type 0} → Session → W × Session × F → Type 0
Keeps s r = SameEnds s r.1

module _ {W : Type 0} (alloc : Allocator) (os : Os W) where
  recv-Keeps : (s : Session) (w : W) → Sure (Keeps s) (recv alloc os s w)
  unfolding recv
  recv-Keeps s w =
      bind-Sure (mem_write-Clean _ _ _)
        (λ filled h. bind-Sure (mem_write-Clean _ _ _) (λ ended h. gives (refl, refl)))

module _ {W : Type 0} (os : Os W) where
  pub write_session-Sure : (s : Session) (w : W) → Sure (λ r. SameEnds s r.1) (write_session os s w)
  unfolding write_session
  write_session-Sure s w = bind-Sure (flush-Clean os s.fd s.w_buffer w) (λ first h.
      bind-Sure (flush_all-Clean os s.fd s.buffer_list first.0) (λ rest h. gives (ends first.1)))
    where
      ends :
          (n : Option ℕ)
          → SameEnds s (record s { w_buffer = advanced s.w_buffer n; buffer_list = [] })
      ends n = (refl, refl)

module _ {W F : Type 0} (alloc : Allocator) (os : Os W) (fs : Files F) where
  recv_chunks-Keeps :
      (n h : ℕ) (s : Session) (w : W) (f : F) → Sure (Keeps s) (recv_chunks alloc os fs n h s w f)
  unfolding recv_chunks
  recv_chunks-Keeps zero h s w f = gives (refl, refl)
  recv_chunks-Keeps (suc n) h s w f = bind-Sure (recv-Keeps alloc os s w) (λ r same.
      if-Sure _ (gives same) (
        bind-Sure (readable_size-Clean r.1.r_buffer) (λ size k.
          bind-Sure (mem_read-Clean r.1.r_buffer.buff 0 size)
            (λ bs k. after s r.1 same (recv_chunks-Keeps n h r.1 r.0 (fs.fwrite h bs f))))))
    where
      after :
          (s s1 : Session) {r : Result (W × Session × F)}
          → SameEnds s s1
          → Sure (Keeps s1) r
          → Sure (Keeps s) r
      after s s1 same (fails k) = fails k
      after s s1 same (gives {value} k) = gives (SameEnds-trans s s1 value.1 same k)

  file_send-Keeps : (s : Session) (w : W) (f : F) → Sure (Keeps s) (file_send alloc os fs s w f)
  unfolding file_send
  file_send-Keeps s w f =
      bind-Sure (element-Clean (argv s.arg 1))
        (λ name h. opened (fs.fopen_write (file_name name) f))
    where
      opened :
          (r : F × Option ℕ)
          → Sure (Keeps s) (elim r.1 [
            | none ↦ err null_pointer
            | some h ↦ (do
              (w1, num) ← recv_integer os (alloc.fresh 8) s.fd w
              (w2, s1, f2) ← recv_chunks alloc os fs num h s w1 r.0
              ok (w2, s1, fs.fclose h f2))
          ])
      opened (f1, none) = fails tt
      opened (f1, some h) = bind-Sure (recv_integer-Clean os (alloc.fresh 8) s.fd w) (λ number k.
          bind-Sure (recv_chunks-Keeps number.1 h s number.0 f1) (λ r same. gives same))

  file_recv-Keeps :
      (fuel : ℕ) (s : Session) (w : W) (f : F) → Sure (Keeps s) (file_recv alloc os fs fuel s w f)
  unfolding file_recv
  file_recv-Keeps fuel s w f =
      bind-Sure (element-Clean (argv s.arg 1)) (λ name h. opened (fs.fopen_read (file_name name) f))
    where
      opened :
          (r : F × Option ℕ)
          → Sure (Keeps s) (elim r.1 [
            | none ↦ err null_pointer
            | some h ↦ (do
              (f2, chunks) ← file_chunks alloc fs fuel h r.0 []
              b ← write_int alloc s.w_buffer (length chunks)
              ok (w, record s { w_buffer = b; buffer_list = chunks }, fs.fclose h f2))
          ])
      opened (f1, none) = fails tt
      opened (f1, some h) = bind-Sure (file_chunks-Clean alloc fs fuel h f1 []) (λ r k.
          bind-Sure (write_int-Clean alloc s.w_buffer (length r.1)) (λ b k. gives (refl, refl)))

  pub invoke-Keeps :
      (fuel : ℕ) (command : ServerCommand) (s : Session) (w : W) (f : F)
      → Sure (Keeps s) (invoke alloc os fs fuel command s w f)
  unfolding invoke ping
  invoke-Keeps fuel ping_command s w f =
      bind-Sure (write_str-Clean alloc s.w_buffer (codes "pong.")) (λ b h. gives (refl, refl))
  invoke-Keeps fuel get_command s w f = gives (refl, refl)
  invoke-Keeps fuel set_command s w f = gives (refl, refl)
  invoke-Keeps fuel file_send_command s w f = file_send-Keeps s w f
  invoke-Keeps fuel file_recv_command s w f = file_recv-Keeps fuel s w f

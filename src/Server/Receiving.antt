-- ===== src/Server/Receiving.antt =====
-- What a session receives, where each read gets all the bytes that it asks for: `recv`, which calls
-- read once for a head and once for a payload, and the loop of `file_send_command`.
use aspr1net.Base.{
  ℕ, ◌^◌, ◌<◌, [], ◌∷◌, ◌++◌, some, ◌≡◌, refl, sym, ap, ◌∙◌, arith, ok, Bytes, length, of_le_bytes,
  length-le_bytes, of_le_bytes-le_bytes, append_assoc, append-nil, drop, drop-all,
}
use aspr1net.Base.Int.{pos}
use aspr1net.Ae.Epoll.{to_int}
use aspr1net.Anet.{Os}
use aspr1net.Anet.Transfer.{StreamLaws}
use aspr1net.Buffer
use aspr1net.Buffer.{Allocator, head_size, head_bytes, readable_size, contents}
use aspr1net.Buffer.Memory.{
  mem_write-ok, overwrite, length-overwrite, take-overwrite, take-overwrite_below,
}
use aspr1net.Buffer.Moves.{IsValid, contents-from_start}
use aspr1net.Wire.{packed, stored, read_once}
use aspr1net.Wire.Exact.{same_front}
use aspr1net.Server.{Session, recv}

-- A read gets all that it asks for, if so much is to come.
pub record ReadsWhole {W : Type 0} (os : Os W) (fd : ℕ) : Type 0 where
  pub laws : StreamLaws os
  pub whole :
      (n : ℕ) (bs rest : Bytes) (w : W)
      → os.pending w fd ≡ bs ++ rest
      → n ≡ length bs
      → (os.read fd n w).1 ≡ some bs

-- What a receipt leaves of a session with the payload in its block.
abbrev received : Session → Bytes → Session
received s payload =
    let n = length payload in
    let r = record s.r_buffer {
      buff = overwrite (overwrite s.r_buffer.buff 0 payload) n (0 ∷ []);
      read_idx = 0;
      write_idx = n;
    } in
    record s { r_buffer = r }

-- A block of a size below 2 ^ 31, as one that `new` gave.
abbrev pub HasBlock : Session → Type 0
HasBlock s = (length s.r_buffer.buff ≡ s.r_buffer.size) × (s.r_buffer.size < 2 ^ 31)

pub record IsKept (s s' : Session) : Type 0 where
  pub same_fd : s'.fd ≡ s.fd
  pub same_size : s'.r_buffer.size ≡ s.r_buffer.size
  pub valid : IsValid s'.r_buffer
  pub from_start : s'.r_buffer.read_idx ≡ 0

module _ {W : Type 0} (os : Os W) (fd : ℕ) (reads : ReadsWhole os fd) where
  pub read_whole :
      (n : ℕ) (bs rest : Bytes) (w : W)
      → os.pending w fd ≡ bs ++ rest
      → n ≡ length bs
      → (w' : W) × (os.read fd n w ≡ (w', some bs)) × (os.pending w' fd ≡ rest)
  read_whole n bs rest w there all =
      let w' = (os.read fd n w).0 in
      let done : os.read fd n w ≡ (w', some bs) =
        ap (λ x. (w', x)) (reads.whole n bs rest w there all) in
      let (front, left) =
        same_front bs (os.pending w' fd) bs rest (sym (reads.laws.read_taken fd n w done) ∙ there)
          refl in
      (w', done, left)

module _ {W : Type 0} (alloc : Allocator) (os : Os W) (fd : ℕ) (reads : ReadsWhole os fd) where
  recv_steps :
      (s : Session) (head payload : Bytes) (len : ℕ) (w w1 w2 : W)
      → s.fd ≡ pos fd
      → os.read fd head_size w ≡ (w1, some head)
      → of_le_bytes (stored (alloc.fresh head_size) head) ≡ len
      → os.read fd len w1 ≡ (w2, some payload)
      → length payload < length s.r_buffer.buff
      → recv alloc os s w ≡ ok (w2, received s payload, to_int (length payload))
  unfolding recv read_once Buffer.reset
  recv_steps s head payload len w w1 w2 at_fd headed is done fits = ground (
    arith,
    at_fd,
    headed,
    is,
    done,
    mem_write-ok s.r_buffer.buff 0 payload,
    length-overwrite s.r_buffer.buff 0 payload,
    mem_write-ok (overwrite s.r_buffer.buff 0 payload) (length payload) (0 ∷ []),
  )

  -- A package that fits into the block with a NUL behind it is received.
  pub recv-packed :
      (s : Session) (payload rest : Bytes) (w : W)
      → s.fd ≡ pos fd
      → HasBlock s
      → length payload < s.r_buffer.size
      → os.pending w fd ≡ packed payload ++ rest
      → (w' : W) × (s' : Session) × (recv alloc os s w ≡ ok (w', s', pos (length payload)))
        × (contents s'.r_buffer ≡ payload)
        × (os.pending w' fd ≡ rest)
        × IsKept s s'
  recv-packed s payload rest w at_fd (sized, small) fits there =
      let n = length payload in
      let head = head_bytes n in
      let eight = length-le_bytes 8 n in
      let (w1, headed, left) =
        read_whole os fd reads head_size head (payload ++ rest) w
          (there ∙ append_assoc head payload rest) (sym eight) in
      let (w2, done, end) = read_whole os fd reads n payload rest w1 left refl in
      let gone : drop (length head) (alloc.fresh 8) ≡ [] =
        drop-all (length head) (alloc.fresh 8) (omega (arith, alloc.length-fresh 8)) in
      let len : of_le_bytes (stored (alloc.fresh head_size) head) ≡ n =
        ap of_le_bytes (ap (λ x. head ++ x) gone ∙ append-nil head)
        ∙ of_le_bytes-le_bytes n (omega arith) in
      let block = overwrite s.r_buffer.buff 0 payload in
      let block_size : length block ≡ s.r_buffer.size =
        length-overwrite s.r_buffer.buff 0 payload (omega arith) ∙ sized in
      let int_n : to_int n ≡ pos n = ground arith in
      (
        w2,
        received s payload,
        recv_steps s head payload n w w1 w2 at_fd headed len done (omega arith)
            ∙ ap (λ i. ok (w2, received s payload, i)) int_n,
        contents-from_start (overwrite block n (0 ∷ [])) 0 n refl
            ∙ take-overwrite_below n block n (0 ∷ []) (omega arith) (omega arith)
            ∙ take-overwrite s.r_buffer.buff 0 payload n (omega arith) (omega arith),
        end,
        record {
          same_fd = refl;
          same_size = refl;
          valid = record {
            ordered = omega arith;
            within = omega arith;
            sized = length-overwrite block n (0 ∷ []) (omega arith) ∙ block_size;
            small = omega arith;
          };
          from_start = refl;
        },
      )

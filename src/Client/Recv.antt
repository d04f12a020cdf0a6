-- ===== src/Client/Recv.antt =====
-- One package that the client receives.
use aspr1net.Base.{
  ℕ, ◌+◌, ◌^◌, ◌≤◌, ◌<◌, ◌++◌, Option, some, ◌≡◌, refl, ap, ◌∙◌, arith, ok, err, out_of_bounds,
  Bytes, length, of_le_bytes,
}
use aspr1net.Base.Int.{pos}
use aspr1net.Anet.{Os}
use aspr1net.Buffer.{Allocator, head_size, head_bytes, contents}
use aspr1net.Buffer.Memory.{
  mem_write-ok, mem_write-err, overwrite, length-overwrite, take-overwrite,
}
use aspr1net.Buffer.Moves.{IsValid, contents-from_start}
use aspr1net.Wire.{packed, stored, bytes_of, read_fd}
use aspr1net.Wire.Exact.{Stands, read_head, read_fd-exact}
use aspr1net.Client.{Client, recv}

-- The client with the payload in its block.
abbrev pub received : Client → Bytes → Client
received c payload =
    let r = record c.r_buffer {
      buff = overwrite c.r_buffer.buff 0 payload;
      read_idx = 0;
      write_idx = length payload;
    } in
    record c { r_buffer = r }

-- A block of a size below 2 ^ 31, as one that `new` gave.
abbrev pub HasBlock : Client → Type 0
HasBlock c = (length c.r_buffer.buff ≡ c.r_buffer.size) × (c.r_buffer.size < 2 ^ 31)

-- What a receipt leaves of a client: its descriptor, and the size of its block, which is read from
-- the start.
pub record IsKept (c c' : Client) : Type 0 where
  pub same_fd : c'.fd ≡ c.fd
  pub same_size : c'.r_buffer.size ≡ c.r_buffer.size
  pub valid : IsValid c'.r_buffer
  pub from_start : c'.r_buffer.read_idx ≡ 0

module _ {W : Type 0} (alloc : Allocator) (os : Os W) (fd : ℕ) (stands : Stands os fd) where
  recv_steps :
      (c : Client) (w w1 w2 : W) (got : Option Bytes) (payload : Bytes) (len : ℕ)
      → read_fd os c.fd head_size w ≡ ok (w1, got)
      → of_le_bytes (stored (alloc.fresh head_size) (bytes_of got)) ≡ len
      → read_fd os c.fd len w1 ≡ ok (w2, some payload)
      → (length payload ≤ length c.r_buffer.buff
          → recv alloc os c w ≡ ok (w2, received c payload, pos (length payload)))
        × (length c.r_buffer.buff < length payload → recv alloc os c w ≡ err out_of_bounds)
  unfolding recv
  recv_steps c w w1 w2 got payload len headed is done = (
    (λ fits. ground (arith, headed, is, done, mem_write-ok c.r_buffer.buff 0 payload)),
    (λ past. ground (arith, headed, is, done, mem_write-err c.r_buffer.buff 0 payload)),
  )

  -- Both outcomes of the receipt of a package, by its length.
  recv_either :
      (c : Client) (payload rest : Bytes) (w : W)
      → c.fd ≡ pos fd
      → length payload < 2 ^ 31
      → os.pending w fd ≡ packed payload ++ rest
      → (w' : W) × (os.pending w' fd ≡ rest)
        × (length payload ≤ length c.r_buffer.buff
            → recv alloc os c w ≡ ok (w', received c payload, pos (length payload)))
        × (length c.r_buffer.buff < length payload → recv alloc os c w ≡ err out_of_bounds)
  recv_either c payload rest w at_fd small there =
      let (w1, headed, len, left) =
        read_head os fd stands payload rest (alloc.fresh head_size) w small (alloc.length-fresh 8)
          there in
      let (w2, done, end) =
        read_fd-exact os fd stands payload rest (length payload) w1 refl small left in
      let (fits, past) =
        recv_steps c w w1 w2 (some (head_bytes (length payload))) payload (length payload)
          (ap (λ d. read_fd os d head_size w) at_fd ∙ headed) len
          (ap (λ d. read_fd os d (length payload) w1) at_fd ∙ done) in
      (w2, end, fits, past)

  -- A package that fits into the block is received on a connection that stands, however the stream is
  -- cut: its payload can be read from the buffer, its length is returned, and the stream goes on
  -- behind it.
  pub recv-packed :
      (c : Client) (payload rest : Bytes) (w : W)
      → c.fd ≡ pos fd
      → HasBlock c
      → length payload ≤ c.r_buffer.size
      → os.pending w fd ≡ packed payload ++ rest
      → (w' : W) × (c' : Client) × (recv alloc os c w ≡ ok (w', c', pos (length payload)))
        × (contents c'.r_buffer ≡ payload)
        × (os.pending w' fd ≡ rest)
        × IsKept c c'
  recv-packed c payload rest w at_fd (sized, small) fits there =
      let (w', end, done, past) = recv_either c payload rest w at_fd (omega arith) there in
      let room : 0 + length payload ≤ length c.r_buffer.buff = omega arith in
      (
        w',
        received c payload,
        done (omega arith),
        contents-from_start (overwrite c.r_buffer.buff 0 payload) 0 (length payload) refl
            ∙ take-overwrite c.r_buffer.buff 0 payload (length payload) room (omega arith),
        end,
        record {
          same_fd = refl;
          same_size = refl;
          valid = record {
            ordered = omega arith;
            within = fits;
            sized = length-overwrite c.r_buffer.buff 0 payload room ∙ sized;
            small = omega arith;
          };
          from_start = refl;
        },
      )

  -- A package that is larger than the block, and shorter than 2 ^ 31 bytes, is written past the end
  -- of the block, when it comes whole on a connection that stands: its head is never compared with
  -- the size of the block.
  pub recv_overruns :
      (c : Client) (payload rest : Bytes) (w : W)
      → c.fd ≡ pos fd
      → HasBlock c
      → c.r_buffer.size < length payload
      → length payload < 2 ^ 31
      → os.pending w fd ≡ packed payload ++ rest
      → recv alloc os c w ≡ err out_of_bounds
  recv_overruns c payload rest w at_fd (sized, small) large int there =
      let (w', end, done, past) = recv_either c payload rest w at_fd int there in past (omega arith)

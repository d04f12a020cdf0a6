-- ===== src/Console.antt =====
-- client_main.cpp: the lines of the console, and the loops over them. Standard input is the characters
-- that are to come.
pub mod Bounds
mod Tests
use aspr1net.Base.{
  ℕ, zero, suc, ◌+◌, ◌-◌, ◌&&◌, ◌==◌, List, [], ◌∷◌, Bool, Option, none, some, ◌≡◌, Result, ok, err,
  out_of_fuel, ◌>>=◌, ltb, if◌then◌else◌, Bytes, true, false,
}
use aspr1net.Base.Int.{ℤ, pos, minus_one, eqb_ℤ}
use aspr1net.Anet.{Os}
use aspr1net.Buffer.{Allocator}
use aspr1net.Buffer.Memory.{mem_write, c_string}
use aspr1net.Stdio.{Files}
use aspr1net.Client
use aspr1net.Client.{Client, Outcome, connect}

-- What a call of `fgetline` leaves: the block, what is still to come, and the value returned.
pub record Line : Type 0 where
  pub block : Bytes
  pub rest : Bytes
  pub status : ℤ

-- The end of `fgetline`, with `_len` and whether `_c` is EOF.
abbrev pub end_line : Bytes → ℕ → Bool → Bytes → Result Line
end_line block len eof rest =
    if len == 0 && eof then ok (record { block = block; rest = rest; status = minus_one }) else (do
      ended ← mem_write block len (0 ∷ [])
      ok (record { block = ended; rest = rest; status = pos len }))

-- The loop over fgetc, which takes a character before it looks at the room.
unfoldable pub get_chars : ℕ → Bytes → ℕ → Bytes → Result Line
get_chars n block len [] = end_line block len true []
get_chars n block len (c ∷ cs) =
    let more = (do put ← mem_write block len (c ∷ []); get_chars n put (suc len) cs) in
    let ended = end_line block len false cs in
    if ltb len n then (if c == 10 then ended else more) else ended

unfoldable pub fgetline : Bytes → ℕ → Bytes → Result Line
unfolding get_chars
fgetline block n input = get_chars (n - 1) block 0 input

abbrev pub default_listen_port : ℕ
default_listen_port = 12345

module _ {W F : Type 0} (alloc : Allocator) (os : Os W) (fs : Files F) (fuel : ℕ) where
  -- `while (_client_connected == -1)`, on fuel; none is the return from `main`.
  unfoldable pub connect_loop :
      ℕ → ℤ → Bytes → Bytes → Client → W → Result (Option (Bytes × Bytes × Client × W))
  unfolding fgetline connect
  connect_loop zero connected block input c w = err out_of_fuel
  connect_loop (suc n) connected block input c w =
      let again = (do
        line ← fgetline block 128 input
        let (w1, c1, fd) = connect os c (c_string line.block) default_listen_port w
        let next = connect_loop n fd line.block line.rest c1 w1
        if eqb_ℤ line.status minus_one then ok none else next) in
      if eqb_ℤ connected minus_one then again else ok (some (block, input, c, w))

  -- `while (1)`, on fuel.
  unfoldable pub command_loop : ℕ → Bytes → Bytes → Client → W → F → Result (Client × W × F)
  unfolding fgetline Client.process
  command_loop zero block input c w f = err out_of_fuel
  command_loop (suc n) block input c w f = do
    line ← fgetline block 128 input
    let next = (do
      out ← Client.process alloc os fs fuel c (c_string line.block) w f
      command_loop n line.block line.rest out.client out.world out.files)
    if eqb_ℤ line.status minus_one then ok (c, w, f) else next

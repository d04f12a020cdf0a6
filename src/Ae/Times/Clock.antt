-- ===== src/Ae/Times/Clock.antt =====
-- When a new time event is due.
use aspr1net.Base.{
  ℕ, zero, suc, ◌+◌, ◌/◌, ◌%◌, ◌-◌, ◌<◌, ◌≤◌, ap, ◌∷◌, Option, ok, ◌≡◌, refl, arith, ◌∙◌,
  Bool-cases, inl, inr,
}
use aspr1net.Base.Int.{ℤ, pos, ◌+ℤ◌, ◌-ℤ◌, ltb_ℤ, int_laws, pos_part, eq_of_parts, -ℤ_parts}
use aspr1net.Ae.Types.{EventLoop}
use aspr1net.Ae.Epoll.{Kernel}
use aspr1net.Ae.Times.{current_time, carry, time_event, add_time_event}

sub_pos : (a b : ℕ) → b ≤ a → pos a -ℤ pos b ≡ pos (a - b)
sub_pos a b h = eq_of_parts _ _ (omega (arith, -ℤ_parts (pos a) (pos b)))

add_pos : (z : ℤ) (a b c : ℕ) → a + b ≡ c → z +ℤ pos a +ℤ pos b ≡ z +ℤ pos c
add_pos z a b c h = eq_of_parts _ _ (omega int_laws)

add_zero : (z : ℤ) → z ≡ z +ℤ pos 0
add_zero z = eq_of_parts _ _ (omega int_laws)

-- The loop splits the milliseconds into whole seconds and a rest below 1000.
carry_lem :
    (f : ℕ) (sec : ℤ) (n : ℕ)
    → n < f
    → carry f sec (pos n) ≡ ok (sec +ℤ pos (n / 1000), pos (n % 1000))
unfolding carry
carry_lem zero sec n h = elim h [ ]
carry_lem (suc f) sec n h = elim (Bool-cases (ltb_ℤ (pos n) (pos 1000))) [
  | inl below ↦
      let small : n < 1000 = ground arith in
      let whole : n / 1000 ≡ 0 = omega arith in
      let rest : n % 1000 ≡ n = omega arith in
      rw (below, whole, rest) (ap (λ z. ok (z, pos n)) (add_zero sec))
  | inr above ↦
      let large : 1000 ≤ n = ground arith in
      let rest : (n - 1000) % 1000 ≡ n % 1000 = omega arith in
      let whole : 1 + (n - 1000) / 1000 ≡ n / 1000 = omega arith in
      rw (above, sub_pos n 1000 large)
        (carry_lem f (sec +ℤ pos 1) (n - 1000) (omega arith)
          ∙ rw (rest, add_pos sec 1 ((n - 1000) / 1000) (n / 1000) whole) refl)
]

due_time :
    (sec : ℤ) (c d : ℕ)
    → carry
        (suc (pos_part (pos c +ℤ pos (d % 1000))))
        (sec +ℤ pos (d / 1000))
        (pos c +ℤ pos (d % 1000))
      ≡ ok (sec +ℤ pos ((c + d) / 1000), pos ((c + d) % 1000))
due_time sec c d =
    let r = c + d % 1000 in
    let sum : pos c +ℤ pos (d % 1000) ≡ pos r = eq_of_parts _ _ (omega int_laws) in
    let whole : d / 1000 + r / 1000 ≡ (c + d) / 1000 = omega arith in
    let rest : r % 1000 ≡ (c + d) % 1000 = omega arith in
    rw sum (
      carry_lem (suc r) (sec +ℤ pos (d / 1000)) r (omega arith)
      ∙ rw (rest, add_pos sec (d / 1000) (r / 1000) ((c + d) / 1000) whole) refl)

-- A time event added with a delay that is not negative is due at the present time and the delay
-- together, in seconds and milliseconds below 1000. It goes to the front of the list under the next
-- id, which is returned and not given again.
pub add_time_event_lem :
    {W : Type 0} (k : Kernel W) (l : EventLoop W) (delay : ℕ) (proc : Option ℕ) (client_data : ℕ)
    (timeup_proc : Option ℕ)
    → let now = current_time k l.world in
      add_time_event k l (pos delay) proc client_data timeup_proc
      ≡ ok (
        record l {
          time_event_list =
              record {
                id = pos l.time_event_next_id;
                when_sec = now.0 +ℤ pos ((now.1 + delay) / 1000);
                when_ms = pos ((now.1 + delay) % 1000);
                proc = proc;
                timeup_proc = timeup_proc;
                client_data = client_data;
              }
              ∷ l.time_event_list;
          time_event_next_id = l.time_event_next_id + 1;
        },
        pos l.time_event_next_id,
      )
unfolding add_time_event time_event
add_time_event_lem k l delay proc client_data timeup_proc =
    rw (due_time (current_time k l.world).0 (current_time k l.world).1 delay)

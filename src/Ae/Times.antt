-- ===== src/Ae/Times.antt =====
-- The time events of ae.cpp: their constructor, `add_time_event`, `del_time_event` and
-- `nearest_time_event`. Sums of seconds do not overflow here.
pub mod Clock
pub mod Deletion
pub mod Nearest
use aspr1net.Base.{
  ℕ, zero, suc, ◌+◌, ◌*◌, ◌/◌, ◌%◌, Bool, true, false, not, ◌&&◌, ◌||◌, List, [], ◌∷◌, Option, none,
  some, Result, ok, err, out_of_fuel, ◌≡◌, if◌then◌else◌, ◌>>=◌,
}
use aspr1net.Base.Int.{
  ℤ, pos, negsuc, minus_one, ltb_ℤ, eqb_ℤ, ◌+ℤ◌, ◌-ℤ◌, tdiv_ℤ, tmod_ℤ, pos_part,
}
use aspr1net.Ae.Types.{TimeEvent, EventLoop}
use aspr1net.Ae.Epoll.{Kernel}

-- `_S_current_time`: seconds, and milliseconds.
unfoldable pub current_time : {W : Type 0} → Kernel W → W → ℤ × ℕ
current_time k w = let (sec, usec) = k.gettimeofday w in (sec, usec / 1000)

-- `while (_when_ms >= 1000)`.
unfoldable pub carry : ℕ → ℤ → ℤ → Result (ℤ × ℤ)
carry zero sec ms = err out_of_fuel
carry (suc f) sec ms =
    let next = carry f (sec +ℤ pos 1) (ms -ℤ pos 1000) in
    if ltb_ℤ ms (pos 1000) then ok (sec, ms) else next

-- `ae_time_event(_id, _ms, _proc, _data, _t_proc)`. Each round of the loop takes 1000 off
-- `_when_ms`, so its value is enough fuel.
unfoldable pub time_event :
    {W : Type 0} → Kernel W → W → ℤ → ℤ → Option ℕ → ℕ → Option ℕ → Result TimeEvent
time_event k w id ms proc client_data timeup_proc =
    let (cur_s, cur_ms) = current_time k w in
    let sec = cur_s +ℤ tdiv_ℤ ms 1000 in
    let rest = pos cur_ms +ℤ tmod_ℤ ms 1000 in
    do
      (when_sec, when_ms) ← carry (suc (pos_part rest)) sec rest
      ok (record {
        id = id;
        when_sec = when_sec;
        when_ms = when_ms;
        proc = proc;
        timeup_proc = timeup_proc;
        client_data = client_data;
      })

unfoldable pub add_time_event :
    {W : Type 0} → Kernel W → EventLoop W → ℤ → Option ℕ → ℕ → Option ℕ → Result (EventLoop W × ℤ)
add_time_event k l ms proc client_data timeup_proc = do
  te ← time_event k l.world (pos l.time_event_next_id) ms proc client_data timeup_proc
  ok (
    record l {
      time_event_list = te ∷ l.time_event_list;
      time_event_next_id = l.time_event_next_id + 1;
    },
    te.id,
  )

-- AE_DELETED_EVENT_ID.
abbrev pub ae_deleted_event_id : ℤ
ae_deleted_event_id = minus_one

-- The loop of `del_time_event`: the first event with the id gets the deleted one; none if it ends.
unfoldable pub mark_deleted : ℤ → List TimeEvent → Option (List TimeEvent)
mark_deleted id [] = none
mark_deleted id (te ∷ rest) =
    let later = mark_deleted id rest in
    if eqb_ℤ te.id id
    then some (record te { id = ae_deleted_event_id } ∷ rest)
    else elim later [ none ↦ none | some marked ↦ some (te ∷ marked) ]

unfoldable pub del_time_event : {W : Type 0} → EventLoop W → ℤ → EventLoop W × ℤ
del_time_event l id = elim (mark_deleted id l.time_event_list) [
  | none ↦ (l, minus_one)
  | some marked ↦ (record l { time_event_list = marked }, pos 0)
]

-- The test of `nearest_time_event` against the event found so far.
abbrev pub earlier : TimeEvent → TimeEvent → Bool
earlier a b =
    ltb_ℤ a.when_sec b.when_sec || (eqb_ℤ a.when_sec b.when_sec && ltb_ℤ a.when_ms b.when_ms)

abbrev pub nearer : Option TimeEvent → TimeEvent → Option TimeEvent
nearer none te = some te
nearer (some found) te = if earlier te found then some te else some found

unfoldable pub nearest_from : Option TimeEvent → List TimeEvent → Option TimeEvent
nearest_from found [] = found
nearest_from found (te ∷ rest) = nearest_from (nearer found te) rest

unfoldable pub nearest_time_event : {W : Type 0} → EventLoop W → Option TimeEvent
unfolding nearest_from
nearest_time_event l = nearest_from none l.time_event_list

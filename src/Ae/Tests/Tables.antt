-- ===== src/Ae/Tests/Tables.antt =====
-- The theorems on the tables of events, at concrete loops.
use mathlib.Core.List.{Mem}
use aspr1net.Base.{
  ℕ, ◌+◌, ◌/◌, ◌%◌, ◌&&◌, [], ◌∷◌, none, some, ◌≡◌, refl, ok, ◌⊎◌, inr, if◌then◌else◌, ◌==◌, arith,
  All, set,
}
use aspr1net.Base.Int.{ℤ, pos, minus_one, ◌+ℤ◌, eqb_ℤ}
use aspr1net.Ae.Types.{
  ae_none, ae_readable, ae_writable, mask_or, mask_without, TimeEvent, EventLoop,
}
use aspr1net.Ae.Files.{ae_ok, highest_below, add_file_event, del_file_event, get_file_event}
use aspr1net.Ae.Files.Invariant.{WellFormed, add_file_event-WellFormed, del_file_event-WellFormed}
use aspr1net.Ae.Files.Effects.{get_file_event-add_file_event, get_file_event-del_file_event}
use aspr1net.Ae.Times.{current_time, add_time_event, del_time_event, nearest_time_event}
use aspr1net.Ae.Times.Clock.{add_time_event_lem}
use aspr1net.Ae.Times.Deletion.{IdsBelow, Deletes, del_time_event-Deletes}
use aspr1net.Ae.Times.Nearest.{NotLater, nearest_time_event_lem}
use aspr1net.Ae.Tests.{World, kernel, kernel_laws, reader, state, serving, serving-WellFormed}

add_file_event-WellFormed_example :
    (after : EventLoop World) × (status : ℤ) × (add_file_event kernel serving
        (pos 0)
        ae_writable
        (some 5)
        8
      ≡ ok (after, status))
    × WellFormed kernel after
add_file_event-WellFormed_example =
    add_file_event-WellFormed kernel kernel_laws serving serving-WellFormed 0 ae_writable (some 5) 8
      refl

del_file_event-WellFormed_example :
    (after : EventLoop World) × (del_file_event kernel serving (pos 1) ae_readable ≡ ok after)
    × WellFormed kernel after
del_file_event-WellFormed_example =
    del_file_event-WellFormed kernel kernel_laws serving serving-WellFormed 1 ae_readable

get_file_event-add_file_event_example :
    (after : EventLoop World) × (status : ℤ) × (add_file_event kernel serving
        (pos 1)
        ae_writable
        (some 5)
        8
      ≡ ok (after, status))
    × ((j : ℕ)
        → get_file_event after (pos j) ≡ (
            if eqb_ℤ status ae_ok && 1 == j
            then ok (mask_or ae_readable ae_writable)
            else get_file_event serving (pos j)))
unfolding get_file_event
get_file_event-add_file_event_example =
    get_file_event-add_file_event kernel serving refl 1 ae_writable (some 5) 8 refl

abbrev del_example : EventLoop World
del_example = record serving {
  events = set serving.events 1 (record reader { mask = ae_none });
  max_fd = minus_one;
  world = λ j. if 1 == j then none else serving.world j;
}

get_file_event-del_file_event_example :
    get_file_event del_example (pos 1)
    ≡ (if 1 == 1 then ok (mask_without ae_readable ae_readable) else get_file_event serving (pos 1))
unfolding get_file_event del_file_event highest_below
get_file_event-del_file_event_example =
    get_file_event-del_file_event kernel serving refl 1 1 ae_readable {s = state} refl refl refl

serving-IdsBelow : IdsBelow serving.time_event_next_id serving.time_event_list
serving-IdsBelow = (inr (1, refl, omega arith, refl), (inr (0, refl, omega arith, refl), tt))

add_time_event_lem_example :
    add_time_event kernel serving (pos 1750) (some 7) 0 none
    ≡ ok (
      record serving {
        time_event_list =
            record {
              id = pos 2;
              when_sec =
                  (current_time kernel serving.world).0
                  +ℤ pos (((current_time kernel serving.world).1 + 1750) / 1000);
              when_ms = pos (((current_time kernel serving.world).1 + 1750) % 1000);
              proc = some 7;
              timeup_proc = none;
              client_data = 0;
            }
            ∷ serving.time_event_list;
        time_event_next_id = 3;
      },
      pos 2,
    )
add_time_event_lem_example = add_time_event_lem kernel serving 1750 (some 7) 0 none

del_time_event-Deletes_example : Deletes serving 0 (del_time_event serving (pos 0))
del_time_event-Deletes_example = del_time_event-Deletes serving 0 serving-IdsBelow

nearest_time_event_lem_example :
    ((serving.time_event_list ≡ []) × (nearest_time_event serving ≡ none))
    ⊎ ((te : TimeEvent) × (nearest_time_event serving ≡ some te)
        × Mem te serving.time_event_list
        × All (NotLater te) serving.time_event_list)
nearest_time_event_lem_example = nearest_time_event_lem serving

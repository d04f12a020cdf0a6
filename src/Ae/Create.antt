-- ===== src/Ae/Create.antt =====
-- The constructor of `ae_event_loop`, and `_S_epoll_create` of ae_epoll.hpp.
use aspr1net.Base.{
  ℕ, zero, suc, false, List, [], ◌∷◌, Option, none, some, ◌≡◌, refl, length, replicate, arith,
}
use aspr1net.Base.Int.{minus_one}
use aspr1net.Ae.Types.{ae_none, FileEvent, no_file_event, FiredEvent, Report, EpollState, EventLoop}
use aspr1net.Ae.Epoll.{Kernel, KernelLaws}
use aspr1net.Ae.Files.Top.{is_active}
use aspr1net.Ae.Files.Invariant.{WellFormed, interest_at}

-- `new ae_fired_event[n]` and `new epoll_event[n]` leave their cells as they were.
pub record Arrays : Type 0 where
  pub fresh_fired : ℕ → List FiredEvent
  pub fresh_reports : ℕ → List Report
  pub length-fresh_fired : (n : ℕ) → length (fresh_fired n) ≡ n
  pub length-fresh_reports : (n : ℕ) → length (fresh_reports n) ≡ n

-- `for (i = from; i < size; ++i) _events[i]._mask = AE_NONE;`
abbrev pub clear_from : ℕ → List FileEvent → List FileEvent
clear_from from [] = []
clear_from zero (fe ∷ events) = record fe { mask = ae_none } ∷ clear_from zero events
clear_from (suc from) (fe ∷ events) = fe ∷ clear_from from events

-- `_S_epoll_create`: none is `nullptr`.
unfoldable pub epoll_state : {W : Type 0} → Kernel W → Arrays → ℕ → W → W × Option EpollState
epoll_state k arrays size w =
    let (w', fd) = k.epoll_create w in
    (
      w',
      elim fd [
        | none ↦ none
        | some n ↦ some (record { events_size = size; events = arrays.fresh_reports size })
      ],
    )

unfoldable pub create : {W : Type 0} → Kernel W → Arrays → ℕ → W → EventLoop W
unfolding epoll_state
create k arrays size w =
    let (w', state) = epoll_state k arrays size w in
    record {
      max_fd = minus_one;
      fdset_size = size;
      time_event_next_id = 0;
      last_time = k.time w;
      events = clear_from 0 (replicate size no_file_event);
      fired = arrays.fresh_fired size;
      time_event_list = [];
      stop_flag = false;
      api_data = state;
      bs_proc = none;
      world = w';
    }

pub length-new_table : (size : ℕ) → length (clear_from 0 (replicate size no_file_event)) ≡ size
length-new_table zero = refl
length-new_table (suc n) = omega (arith, length-new_table n)

inactive-new_table :
    (size j : ℕ)
    → (is_active (clear_from 0 (replicate size no_file_event)) j ≡ false)
      × (interest_at (clear_from 0 (replicate size no_file_event)) j ≡ none)
inactive-new_table zero j = (refl, refl)
inactive-new_table (suc n) zero = (refl, refl)
inactive-new_table (suc n) (suc j) = inactive-new_table n j

-- A new event loop is well-formed, also where epoll gave no descriptor.
pub create-WellFormed :
    {W : Type 0} (k : Kernel W) (laws : KernelLaws k) (arrays : Arrays) (size : ℕ) (w : W)
    → WellFormed k (create k arrays size w)
unfolding create
create-WellFormed k laws arrays size w = record {
  sized = length-new_table size;
  top = (refl, λ j. (inactive-new_table size j).0);
  watched = λ j. ground (arith, laws.created_empty w j, (inactive-new_table size j).1);
}

-- ===== src/Ae/Resize.antt =====
-- `resize` of ae.cpp, and that of ae_epoll.hpp, with the blocks that are freed on the way.
use aspr1net.Base.{
  ℕ, suc, Bool, true, false, not, List, ◌++◌, none, some, ◌≡◌, ◌≢◌, refl, Result, ok, err, ◌⊎◌, inl,
  inr, Bool-cases, Option-cases, double_free, null_pointer, if◌then◌else◌, ◌>>=◌, ◌==◌, length,
  take, drop, replicate, arith,
}
use aspr1net.Base.Int.{ℤ, pos, negsuc, ltb_ℤ, ◌<ℤ◌}
use aspr1net.Ae.Types.{no_file_event, EpollState, EventLoop}
use aspr1net.Ae.Create.{Arrays, clear_from}
use aspr1net.Ae.Files.{ae_ok, ae_err}

-- Which of the two arrays that `resize` replaces are still allocated.
pub record Live : Type 0 where
  pub old_events : Bool
  pub old_fired : Bool

-- `delete[] _old_events`, and `delete[] _old_fired`, which the source does not say.
abbrev pub delete_old_events : Live → Result Live
delete_old_events m = if m.old_events then ok (record m { old_events = false }) else err double_free

-- `std::move` of the first cells of an array to the front of a new one.
abbrev pub moved {ℓ} : {A : Type ℓ} → List A → List A → List A
moved old new = take (length new) old ++ drop (length old) new

-- `ae_epoll_state::resize`.
abbrev pub resize_state : Arrays → EpollState → ℕ → EpollState
resize_state arrays s n = record {
  events_size = n;
  events = moved s.events (arrays.fresh_reports n);
}

-- `_max_fd + 1`, where the clearing of the new table begins.
abbrev pub after_max : ℤ → ℕ
after_max (pos n) = suc n
after_max (negsuc m) = 0

unfoldable pub resize : {W : Type 0} → Arrays → EventLoop W → ℕ → Result (EventLoop W × ℤ)
resize arrays l n =
    if n == l.fdset_size
    then ok (l, ae_ok)
    else if not (ltb_ℤ l.max_fd (pos n))
    then ok (l, ae_err)
    else elim l.api_data [
      | none ↦ err null_pointer
      | some s ↦ (do
        let live : Live = record { old_events = true; old_fired = true }
        let events = moved l.events (replicate n no_file_event)
        once ← delete_old_events live
        let fired = moved l.fired (arrays.fresh_fired n)
        twice ← delete_old_events once
        ok (
          record l {
            api_data = some (resize_state arrays s n);
            events = clear_from (after_max l.max_fd) events;
            fired = fired;
            fdset_size = n;
          },
          ae_ok,
        ))
    ]

-- Only the calls of `resize` that have nothing to do, or would cut off a watched descriptor, return,
-- and they change nothing: any other goes through a null pointer, if epoll gave no descriptor, or
-- frees a block twice.
pub resize_lem :
    {W : Type 0} (arrays : Arrays) (l : EventLoop W) (n : ℕ)
    → ((n ≡ l.fdset_size) × (resize arrays l n ≡ ok (l, ae_ok)))
      ⊎ ((n ≢ l.fdset_size)
          × ((¬ (l.max_fd <ℤ pos n) × (resize arrays l n ≡ ok (l, ae_err)))
              ⊎ ((l.max_fd <ℤ pos n)
                  × (((l.api_data ≡ none) × (resize arrays l n ≡ err null_pointer))
                      ⊎ ((s : EpollState) × (l.api_data ≡ some s)
                          × (resize arrays l n ≡ err double_free))))))
unfolding resize
resize_lem arrays l n = elim (Bool-cases (n == l.fdset_size)) [
  | inl same ↦ inl (ground arith, rw same refl)
  | inr changed ↦ inr (
    ground arith,
    elim (Bool-cases (ltb_ℤ l.max_fd (pos n))) [
      | inr cut ↦ inl (ground arith, ground (arith, changed, cut))
      | inl room ↦ inr (
        ground arith,
        elim (Option-cases l.api_data) [
          | inl closed ↦ inl (closed, ground (arith, changed, room, closed))
          | inr (s, opened) ↦ inr (s, opened, ground (arith, changed, room, opened))
        ],
      )
    ],
  )
]

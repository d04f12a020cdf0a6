-- ===== src/Ae/Times/Nearest.antt =====
-- `nearest_time_event` finds an event that is due first.
use mathlib.Core.List.{Mem, Mem-prop, mem-cons, mem-cons_self, mem-cons_of_mem}
use mathlib.Core.Logic.Or
use aspr1net.Base.{
  List, [], ◌∷◌, none, some, ◌≡◌, refl, arith, Bool-cases, inl, inr, ◌⊎◌, true, false, All,
}
use aspr1net.Ae.Types.{TimeEvent, EventLoop}
use aspr1net.Ae.Times.{earlier, nearest_from, nearest_time_event}

-- `a` is due no later than `b`.
abbrev pub NotLater : TimeEvent → TimeEvent → Type 0
NotLater a b = earlier b a ≡ false

NotLater-trans : (a b c : TimeEvent) → NotLater a b → NotLater b c → NotLater a c
NotLater-trans a b c h k = ground arith

earlier-NotLater : (a b : TimeEvent) → earlier a b ≡ true → NotLater a b
earlier-NotLater a b h = ground arith

skip_second :
    {te found : TimeEvent} (x : TimeEvent) (rest : List TimeEvent)
    → Mem te (found ∷ rest)
    → Mem te (found ∷ x ∷ rest)
skip_second {te} {found} x rest m =
    Or.elim Mem-prop (mem-cons.0 m) (λ e. mem-cons.1 (Or.inl e))
      (λ t. mem-cons_of_mem found (mem-cons_of_mem x t))

-- From an event on, the search ends with an event that is due no later than that one and all the
-- rest, and is one of them.
nearest_from_lem :
    (found : TimeEvent) (rest : List TimeEvent)
    → (te : TimeEvent) × (nearest_from (some found) rest ≡ some te)
      × NotLater te found
      × All (NotLater te) rest
      × Mem te (found ∷ rest)
unfolding nearest_from
nearest_from_lem found [] = (found, refl, ground arith, tt, mem-cons_self)
nearest_from_lem found (x ∷ rest) = elim (Bool-cases (earlier x found)) [
  | inl closer ↦
      let (te, e, first, all, mem) = nearest_from_lem x rest in
      (
        te,
        rw closer e,
        NotLater-trans te x found first (earlier-NotLater x found closer),
        (first, all),
        mem-cons_of_mem found mem,
      )
  | inr farther ↦
      let (te, e, first, all, mem) = nearest_from_lem found rest in
      (
        te,
        rw farther e,
        first,
        (NotLater-trans te found x first farther, all),
        skip_second x rest mem,
      )
]

-- `nearest_time_event` is null exactly where there is no time event; else it is one of them, and no
-- other is due earlier, by seconds and then by milliseconds.
pub nearest_time_event_lem :
    {W : Type 0} (l : EventLoop W)
    → ((l.time_event_list ≡ []) × (nearest_time_event l ≡ none))
      ⊎ ((te : TimeEvent) × (nearest_time_event l ≡ some te)
          × Mem te l.time_event_list
          × All (NotLater te) l.time_event_list)
unfolding nearest_time_event
nearest_time_event_lem l = over l.time_event_list refl
  where
    over :
        (events : List TimeEvent)
        → l.time_event_list ≡ events
        → ((l.time_event_list ≡ []) × (nearest_from none l.time_event_list ≡ none))
          ⊎ ((te : TimeEvent) × (nearest_from none l.time_event_list ≡ some te)
              × Mem te l.time_event_list
              × All (NotLater te) l.time_event_list)
    over [] e = inl (e, rw e refl)
    over (x ∷ rest) e =
        let (te, found, first, all, mem) = nearest_from_lem x rest in
        inr (te, rw e found, rw e mem, rw e (first, all))

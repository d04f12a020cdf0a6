-- ===== src/Base/Outcomes.antt =====
-- Results that are no use of what was deleted, whatever they are made of.
use mathlib.Core.Path.{◌≡◌, refl, subst}
use mathlib.Core.Bool.{Bool, true, false}
use aspr1net.Base.Tests.{if◌then◌else◌}
use aspr1net.Base.Faults.{
  Fault, out_of_bounds, assert_failed, null_pointer, double_free, dangling_pointer, out_of_fuel,
  Result, err, ok, ◌>>=◌,
}

-- Any fault but the use of what was deleted.
abbrev pub Other : Fault → Type 0
Other out_of_bounds = Unit
Other assert_failed = Unit
Other null_pointer = Unit
Other double_free = Unit
Other dangling_pointer = ⊥
Other out_of_fuel = Unit

-- A result whose value has a property, and which is no use of what was deleted.
pub data Sure {V : Type 0} (P : V → Type 0) : Result V → Type 0 where
  fails : {fault : Fault} → Other fault → Sure P (err fault)
  gives : {value : V} → P value → Sure P (ok value)

abbrev pub Any : {V : Type 0} → V → Type 0
Any value = Unit

abbrev pub Clean : {V : Type 0} → Result V → Type 0
Clean = Sure Any

module _ {V U : Type 0} {P : V → Type 0} {Q : U → Type 0} where
  pub bind-Sure :
      {r : Result V} {next : V → Result U}
      → Sure P r
      → ((v : V) → P v → Sure Q (next v))
      → Sure Q (r >>= next)
  bind-Sure (fails h) go = fails h
  bind-Sure (gives {value} h) go = go value h

module _ {V : Type 0} {P : V → Type 0} where
  pub if-Sure : (b : Bool) {x y : Result V} → Sure P x → Sure P y → Sure P (if b then x else y)
  if-Sure true h k = h
  if-Sure false h k = k

-- A result whose value has a property, if it has a value.
pub data Gives {V : Type 0} (P : V → Type 0) : Result V → Type 0 where
  raised : {fault : Fault} → Gives P (err fault)
  gave : {value : V} → P value → Gives P (ok value)

module _ {V U : Type 0} {P : V → Type 0} {Q : U → Type 0} where
  pub bind-Gives :
      {r : Result V} {next : V → Result U}
      → Gives P r
      → ((v : V) → P v → Gives Q (next v))
      → Gives Q (r >>= next)
  bind-Gives raised go = raised
  bind-Gives (gave {value} h) go = go value h

module _ {V : Type 0} {P : V → Type 0} where
  pub if-Gives : (b : Bool) {x y : Result V} → Gives P x → Gives P y → Gives P (if b then x else y)
  if-Gives true h k = h
  if-Gives false h k = k

pub Gives-Any : {V : Type 0} (r : Result V) → Gives Any r
Gives-Any (err fault) = raised
Gives-Any (ok value) = gave tt

module _ {V : Type 0} {P : V → Type 0} where
  pub Gives-of : (r : Result V) → ((v : V) → r ≡ ok v → P v) → Gives P r
  Gives-of (err fault) go = raised
  Gives-of (ok value) go = gave (go value refl)

  pub Gives-ok : {r : Result V} {v : V} → Gives P r → r ≡ ok v → P v
  Gives-ok raised e = absurd (err_ok e)
    where
      err_ok : {fault : Fault} {v : V} → ¬ err fault ≡ ok v
      err_ok e = cc
  Gives-ok (gave {value} h) e = subst P (ok_eq e) h
    where
      ok_eq : {a b : V} → ok a ≡ ok b → a ≡ b
      ok_eq e = cc

  pub Gives-map : {Q : V → Type 0} {r : Result V} → Gives P r → ((v : V) → P v → Q v) → Gives Q r
  Gives-map raised go = raised
  Gives-map (gave {value} h) go = gave (go value h)

-- The rest of a chain, with what the first operation gave.
pub bind-Gives_eq :
    {V U : Type 0} {Q : U → Type 0} (r : Result V) {next : V → Result U}
    → ((v : V) → r ≡ ok v → Gives Q (next v))
    → Gives Q (r >>= next)
bind-Gives_eq (err fault) go = raised
bind-Gives_eq (ok value) go = go value refl

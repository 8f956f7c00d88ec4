-- ===== src/ControlledRobot/Promises.antt =====
-- The map `pendingPermissionRequests` of src/ControlledRobot/ControlledRobot.hpp: a
-- `std::promise<bool>` for each request, made when its key is first used.
use robot_remote_control.Base.{
  Option-cases, inl, inr, Bool, true, false, if◌then◌else◌, Option, none, some, ◌≡◌, refl, List, [],
  ◌∷◌, arith,
}
use robot_remote_control.Bytes.{Bytes, str_eq, str_eq_iff}

pub record Promise : Type 0 where
  pub retrieved : Bool
  pub value : Option Bool

abbrev pub Promises : Type 0
Promises = List (Bytes × Promise)

abbrev pub new_promise : Promise
new_promise = record { retrieved = false; value = none }

-- `pendingPermissionRequests[uid]`
unfoldable pub promise_at : Bytes → Promises → Promise
promise_at uid [] = new_promise
promise_at uid ((key, p) ∷ ps) = if str_eq key uid then p else promise_at uid ps

-- The map after the promise of the key was changed to `p`.
unfoldable pub put_promise : Bytes → Promise → Promises → Promises
put_promise uid p [] = (uid, p) ∷ []
put_promise uid p ((key, q) ∷ ps) =
    if str_eq key uid then (key, p) ∷ ps else (key, q) ∷ put_promise uid p ps

-- `set_value`, with the exception of a promise that has a value caught.
unfoldable pub set_value : Bool → Promise → Promise
set_value v p = elim p.value [ none ↦ record p { value = some v } | some w ↦ p ]

-- `get_future`: a second call throws.
unfoldable pub get_future : Promise → Option Promise
get_future p = if p.retrieved then none else some (record p { retrieved = true })

pub promise_at-put_promise :
    (uid key : Bytes) (p : Promise) (ps : Promises)
    → promise_at key (put_promise uid p ps) ≡ (if str_eq uid key then p else promise_at key ps)
unfolding promise_at put_promise
promise_at-put_promise uid key p [] = refl
promise_at-put_promise uid key p ((k, q) ∷ ps) = ground (
  arith,
  str_eq_iff uid key,
  str_eq_iff k uid,
  str_eq_iff k key,
  promise_at-put_promise uid key p ps,
)

-- The first value that a promise is given stays.
pub value-set_value :
    (v : Bool) (p : Promise)
    → (set_value v p).value ≡ elim p.value [ none ↦ some v | some w ↦ some w ]
unfolding set_value
value-set_value v p = elim (Option-cases p.value) [
  | inl e ↦ rw (e, set_value)
  | inr (w, e) ↦ rw (e, set_value) e
]

pub get_future_lem :
    (p : Promise)
    → get_future p ≡ (if p.retrieved then none else some (record p { retrieved = true }))
unfolding get_future
get_future_lem p = refl

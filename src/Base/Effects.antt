-- ===== src/Base/Effects.antt =====
-- Code that acts on a world `W`, may return early with an error of type `E` by `?`, and may
-- panic: the world comes back in all three cases, since what was done stays done.
use Prim.Native.String.{String}
use mathlib.Core.Option.{Option, none, some}

-- Rust's `Result`.
pub data Result (A E : Type 0) : Type 0 where
  ok : A → Result A E
  err : E → Result A E

-- How a call ended: with a value, by an early return of an error, or by a panic.
pub data Ended (E A : Type 0) : Type 0 where
  returned : A → Ended E A
  failed : E → Ended E A
  panicked : String → Ended E A

abbrev pub Exec : Type 0 → Type 0 → Type 0 → Type 0
Exec W E A = W → Ended E A × W

module _ {W E A : Type 0} where
  abbrev pub pure : A → Exec W E A
  pure a w = (returned a, w)

  abbrev pub fail : E → Exec W E A
  fail e w = (failed e, w)

  abbrev pub panic : String → Exec W E A
  panic msg w = (panicked msg, w)

  -- `r?`
  abbrev pub from_result : Result A E → Exec W E A
  from_result (ok a) = pure a
  from_result (err e) = fail e

  -- `o.ok_or(e)?`
  abbrev pub ok_or : Option A → E → Exec W E A
  ok_or none e = fail e
  ok_or (some a) e = pure a

  -- `o.expect(msg)`
  abbrev pub expect : Option A → String → Exec W E A
  expect none msg = panic msg
  expect (some a) msg = pure a

module _ {W E : Type 0} where
  abbrev pub modify : (W → W) → Exec W E (Unit {0})
  modify f w = (returned tt, f w)

module _ {W E F A : Type 0} where
  -- `r.map_err(f)?`
  abbrev pub map_err : (E → F) → Exec W E A → Exec W F A
  map_err f m w = elim (m w).0 [
    | returned a ↦ (returned a, (m w).1)
    | failed e ↦ (failed (f e), (m w).1)
    | panicked msg ↦ (panicked msg, (m w).1)
  ]

  -- A call whose `Result` is matched on by the caller.
  abbrev pub attempt : Exec W E A → Exec W F (Result A E)
  attempt m w = elim (m w).0 [
    | returned a ↦ (returned (ok a), (m w).1)
    | failed e ↦ (returned (err e), (m w).1)
    | panicked msg ↦ (panicked msg, (m w).1)
  ]

infixl 5 ◌>>=◌ ◌>>◌
abbrev pub ◌>>=◌ : {W E A B : Type 0} → Exec W E A → (A → Exec W E B) → Exec W E B
◌>>=◌ m f w = elim (m w).0 [
  | returned a ↦ f a (m w).1
  | failed e ↦ (failed e, (m w).1)
  | panicked msg ↦ (panicked msg, (m w).1)
]

abbrev pub ◌>>◌ : {W E A B : Type 0} → Exec W E A → Exec W E B → Exec W E B
m >> k = m >>= λ _. k

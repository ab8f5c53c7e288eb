-- ===== src/Node/Returns.antt =====
-- Parts of the node that return a value, from every trace.
use polkadot_confidential_of.Base.{
  ◌≡◌, refl, ap, Bool, true, false, [], ◌∷◌, ◌++◌, Exec, Ended, returned, pure, modify, map_err,
  if◌then◌else◌, arith,
}
use polkadot_confidential_of.Node.{◌>>=◌, Action, Trace, call}

-- Some answer, and no error and no panic.
abbrev pub Answered : {E A : Type 0} → Ended E A → Type 0
Answered {E} {A} r = (a : A) × (r ≡ returned a)

module _ {E A : Type 0} (P : A → Type 0) where
  -- From every trace the part returns a value that has a property.
  abbrev pub Returns : Exec Trace E A → Type 0
  Returns m = (t : Trace) → (a : A) × (u : Trace) × (m t ≡ (returned a, u)) × P a

-- Nothing is asked of the value.
abbrev pub Free : {A : Type 0} → A → Type 0
Free a = Unit

module _ {E A : Type 0} where
  pub pure-Returns : {P : A → Type 0} (a : A) → P a → Returns {E = E} P (pure a)
  pure-Returns a h t = (a, t, refl, h)

  pub call-Returns :
      (act : Action) (answer : Trace → Ended E A)
      → ((t : Trace) → Answered (answer t))
      → Returns Free (call act answer)
  call-Returns act answer h t =
      let (a, e) = h t in (a, t ++ (act ∷ []), ap (λ r. (r, t ++ (act ∷ []))) e, tt)

pub modify-Returns : {E : Type 0} (acts : Trace) → Returns {E = E} Free (modify (λ t. t ++ acts))
modify-Returns acts t = (tt, t ++ acts, refl, tt)

module _ {E A B : Type 0} {P : A → Type 0} {Q : B → Type 0} {f : A → Exec Trace E B} where
  pub bind-Returns :
      {m : Exec Trace E A} → Returns P m → ((a : A) → P a → Returns Q (f a)) → Returns Q (m >>= f)
  unfolding ◌>>=◌
  bind-Returns {m} first second t =
      let (a, u, e, h) = first t in
      let (b, v, e', h') = second a h u in (b, v, ground (arith, e, e'), h')

module _ {E F A : Type 0} {P : A → Type 0} (f : E → F) where
  pub map_err-Returns : (m : Exec Trace E A) → Returns P m → Returns P (map_err f m)
  map_err-Returns m first t = let (a, u, e, h) = first t in (a, u, ground (arith, e), h)

module _ {E : Type 0} where
  pub if-Returns :
      (b : Bool) {m n : Exec Trace E (Unit {0})}
      → (b ≡ true → Returns Free m)
      → Returns Free n
      → Returns Free (if b then m else n)
  if-Returns true first second = first refl
  if-Returns false first second = second

-- ===== src/Node/Traces.antt =====
-- How a part of the node acts: what it writes to the trace, however its calls are answered.
use mathlib.Core.Path.{subst}
use polkadot_confidential_of.Base.{
  Bool, true, false, if◌then◌else◌, ◌≡◌, refl, sym, ap, ◌∙◌, String, [], ◌∷◌, ◌++◌, append-nil,
  append_assoc, Exec, Ended, returned, failed, panicked, pure, panic, map_err, modify,
}
use polkadot_confidential_of.Node.{◌>>=◌, Action, Trace, call}

module _ {E A : Type 0} (P : A → Type 0) where
  -- A run ended with a value that has a property, and did all of a plan; or it ended otherwise,
  -- and did a first part.
  pub data Done (plan t : Trace) : Ended E A × Trace → Type 0 where
    whole : {a : A} → P a → Done plan t (returned a, t ++ plan)
    failed_after :
        {e : E} (acts rest : Trace) → acts ++ rest ≡ plan → Done plan t (failed e, t ++ acts)
    panicked_after :
        {msg : String} (acts rest : Trace)
        → acts ++ rest ≡ plan
        → Done plan t (panicked msg, t ++ acts)

  abbrev pub Does : Exec Trace E A → Trace → Type 0
  Does m plan = (t : Trace) → Done plan t (m t)

  pub pure-Does : (a : A) → P a → Does (pure a) []
  pure-Does a h t = subst (λ u. Done [] t (returned a, u)) (append-nil t) (whole h)

  pub panic-Does : (msg : String) (plan : Trace) → Does (panic msg) plan
  panic-Does msg plan t =
      subst (λ u. Done plan t (panicked msg, u)) (append-nil t) (panicked_after [] plan refl)

  later : (xs ys t : Trace) (r : Ended E A × Trace) → Done ys (t ++ xs) r → Done (xs ++ ys) t r
  later xs ys t _ (whole {a} h) =
      subst (λ u. Done (xs ++ ys) t (returned a, u)) (sym (append_assoc t xs ys)) (whole h)
  later xs ys t _ (failed_after {e} acts rest h) =
      subst (λ u. Done (xs ++ ys) t (failed e, u)) (sym (append_assoc t xs acts))
        (failed_after (xs ++ acts) rest (append_assoc xs acts rest ∙ ap (λ l. xs ++ l) h))
  later xs ys t _ (panicked_after {msg} acts rest h) =
      subst (λ u. Done (xs ++ ys) t (panicked msg, u)) (sym (append_assoc t xs acts))
        (panicked_after (xs ++ acts) rest (append_assoc xs acts rest ∙ ap (λ l. xs ++ l) h))

-- Nothing is said of the value.
abbrev pub Any : {A : Type 0} → A → Type 0
Any a = Unit

module _ {E A : Type 0} where
  answered : (act : Action) (t : Trace) (r : Ended E A) → Done Any (act ∷ []) t (r, t ++ act ∷ [])
  answered act t (returned a) = whole tt
  answered act t (failed e) = failed_after (act ∷ []) [] (append-nil (act ∷ []))
  answered act t (panicked msg) = panicked_after (act ∷ []) [] (append-nil (act ∷ []))

  pub call-Does :
      (act : Action) (answer : Trace → Ended E A) → Does Any (call act answer) (act ∷ [])
  call-Does act answer t = answered act t (answer t)

pub modify-Does : {E : Type 0} (acts : Trace) → Does {E = E} Any (modify (λ t. t ++ acts)) acts
modify-Does acts t = whole tt

module _ {E A B : Type 0} (P : A → Type 0) (Q : B → Type 0) (f : A → Exec Trace E B)
    (xs ys : Trace) where
  bound :
      ((a : A) → P a → Does Q (f a) ys)
      → (t : Trace) (r : Ended E A × Trace) → Done P xs t r
      → Done Q (xs ++ ys) t (((λ u. r) >>= f) t)
  unfolding ◌>>=◌
  bound second t _ (whole {a} h) = later Q xs ys t (f a (t ++ xs)) (second a h (t ++ xs))
  bound second t _ (failed_after acts rest h) =
      failed_after acts (rest ++ ys) (sym (append_assoc acts rest ys) ∙ ap (λ l. l ++ ys) h)
  bound second t _ (panicked_after acts rest h) =
      panicked_after acts (rest ++ ys) (sym (append_assoc acts rest ys) ∙ ap (λ l. l ++ ys) h)

module _ {E A B : Type 0} {P : A → Type 0} {Q : B → Type 0} {f : A → Exec Trace E B}
    {xs ys : Trace} where
  pub bind-Does :
      {m : Exec Trace E A}
      → Does P m xs
      → ((a : A) → P a → Does Q (f a) ys)
      → Does Q (m >>= f) (xs ++ ys)
  unfolding ◌>>=◌
  bind-Does {m} first second t = bound P Q f xs ys second t (m t) (first t)

module _ {E F A : Type 0} {P : A → Type 0} {plan : Trace} (f : E → F) where
  converted :
      (t : Trace) (r : Ended E A × Trace) → Done P plan t r → Done P plan t (map_err f (λ u. r) t)
  converted t _ (whole h) = whole h
  converted t _ (failed_after acts rest h) = failed_after acts rest h
  converted t _ (panicked_after acts rest h) = panicked_after acts rest h

  pub map_err-Does : {m : Exec Trace E A} → Does P m plan → Does P (map_err f m) plan
  map_err-Does {m} done t = converted t (m t) (done t)

module _ {E : Type 0} where
  pub when-Does :
      (b : Bool) {m : Exec Trace E (Unit {0})} {acts : Trace}
      → Does Any m acts
      → Does Any (if b then m else pure tt) (if b then acts else [])
  when-Does true done = done
  when-Does false done = pure-Does Any tt tt

  pub unless-Does :
      (b : Bool) {m : Exec Trace E (Unit {0})} {acts : Trace}
      → Does Any m acts
      → Does Any (if b then pure tt else m) (if b then [] else acts)
  unless-Does true done = pure-Does Any tt tt
  unless-Does false done = done

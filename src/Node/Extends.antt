-- ===== src/Node/Extends.antt =====
-- Parts of the node that only add actions of a kind to the trace.
use mathlib.Core.Path.{subst}
use polkadot_confidential_of.Base.{
  ◌≡◌, refl, sym, ap, ◌∙◌, [], ◌∷◌, ◌++◌, Exec, Ended, returned, failed, panicked, map_err,
  append_assoc, append-nil, All, All-append, All-first, Bool, true, false, if◌then◌else◌,
}
use polkadot_confidential_of.Node.{◌>>=◌, Action, Trace, call}
use polkadot_confidential_of.Node.Traces.{Does, Done, whole, failed_after, panicked_after}

module _ (P : Action → Type 0) where
  -- A trace goes on with actions of the kind `P`.
  abbrev pub Onto : Trace → Trace → Type 0
  Onto t u = (acts : Trace) × (u ≡ t ++ acts) × All P acts

  -- What a part of the node does is added to the trace, and is of the kind `P`.
  abbrev pub Extends : (E A : Type 0) → Exec Trace E A → Type 0
  Extends E A m = (t : Trace) → Onto t (m t).1

  pub Onto-refl : (t : Trace) → Onto t t
  Onto-refl t = ([], sym (append-nil t), tt)

  pub Onto-trans : (t u v : Trace) → Onto t u → Onto u v → Onto t v
  Onto-trans t u v (acts, e, h) (more, e', h') = (
    acts ++ more,
    e' ∙ ap (λ l. l ++ more) e ∙ append_assoc t acts more,
    All-append P acts more h h',
  )

  pub appended : (act : Action) → P act → (t : Trace) → Onto t (t ++ act ∷ [])
  appended act h t = (act ∷ [], refl, (h, tt))

  module _ {E A : Type 0} where
    pub unmoved : (r : Ended E A) → Extends E A (λ t. (r, t))
    unmoved r t = Onto-refl t

    pub called : (act : Action) (answer : Trace → Ended E A) → P act → Extends E A (call act answer)
    called act answer h = appended act h

    pub done-Onto :
        {Q : A → Type 0} (plan t : Trace) (r : Ended E A × Trace)
        → All P plan
        → Done Q plan t r
        → Onto t r.1
    done-Onto plan t _ h (whole a) = (plan, refl, h)
    done-Onto plan t _ h (failed_after acts rest e) =
        (acts, refl, All-first P acts rest (subst (All P) (sym e) h))
    done-Onto plan t _ h (panicked_after acts rest e) =
        (acts, refl, All-first P acts rest (subst (All P) (sym e) h))

    pub planned :
        {Q : A → Type 0} {m : Exec Trace E A} {plan : Trace}
        → Does Q m plan
        → All P plan
        → Extends E A m
    planned {m} {plan} does h t = done-Onto plan t (m t) h (does t)

    pub branch :
        (b : Bool) (m n : Exec Trace E A)
        → Extends E A m
        → Extends E A n
        → Extends E A (if b then m else n)
    branch true m n h k = h
    branch false m n h k = k

  module _ {E A B : Type 0} where
    pub continued :
        (m : Exec Trace E A) (f : A → Exec Trace E B) (t : Trace)
        → ((a : A) → Extends E B (f a))
        → Onto (m t).1 ((m >>= f) t).1
    unfolding ◌>>=◌
    continued m f t second = by_end (m t)
      where
        by_end : (r : Ended E A × Trace) → Onto r.1 (((λ u. r) >>= f) t).1
        by_end (returned a, u) = second a u
        by_end (failed x, u) = Onto-refl u
        by_end (panicked msg, u) = Onto-refl u

    pub chained :
        (m : Exec Trace E A) (f : A → Exec Trace E B)
        → Extends E A m
        → ((a : A) → Extends E B (f a))
        → Extends E B (m >>= f)
    chained m f first second t = Onto-trans t _ _ (first t) (continued m f t second)

  module _ {E F A : Type 0} (f : E → F) (m : Exec Trace E A) where
    pub mapped : Extends E A m → Extends F A (map_err f m)
    mapped first t = by_end (m t) (first t)
      where
        by_end : (r : Ended E A × Trace) → Onto t r.1 → Onto t (map_err f (λ u. r) t).1
        by_end (returned a, u) h = h
        by_end (failed x, u) h = h
        by_end (panicked msg, u) h = h

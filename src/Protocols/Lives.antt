-- ===== src/Protocols/Lives.antt =====
-- The life of an objective: a sequence of steps, each with the transactions that it submits, of
-- which a flag in the objective allows one.
use go_nitro.Base.{
  subst, ◌≡◌, ◌≢◌, refl, sym, ap, ◌∙◌, ◌⊎◌, inl, inr, Bool, true, false, List, [], ◌∷◌, ◌++◌,
}
use go_nitro.Protocols.{ChainTransaction}

pub distinct_flags : false ≢ true
distinct_flags e = cc

append_nothing :
    (t : ChainTransaction) (ts us : List ChainTransaction) → ts ≡ t ∷ [] → us ≡ [] → ts ++ us ≡ ts
append_nothing t ts us one none_left = ap (λ l. ts ++ l) none_left ∙ ap (λ l. l ++ []) one ∙ sym one

module _ {O : Type 0} (Step : O → List ChainTransaction → O → Type 0) where
  pub data Life : O → List ChainTransaction → O → Type 0 where
    here : (o : O) → Life o [] o
    next :
        (o u e : O) (ts us : List ChainTransaction)
        → Step o ts u
        → Life u us e
        → Life o (ts ++ us) e

module _ {O : Type 0} (submitted : O → Bool) (Step : O → List ChainTransaction → O → Type 0)
    (IsDue : O → ChainTransaction → O → Type 0) where
  -- No transaction and the flag as it was, or one that is due, and the flag raised.
  abbrev pub AtMostOneNow : O → List ChainTransaction → O → Type 0
  AtMostOneNow o ts u =
      (ts ≡ []) × (submitted u ≡ submitted o)
      ⊎ (submitted o ≡ false)
        × (submitted u ≡ true)
        × (t : ChainTransaction) × (ts ≡ t ∷ [])
        × IsDue o t u

  -- The step of a life that submits the transaction, from `before` to `after`: nothing is submitted
  -- in front of it nor after it, and the transaction is due in it.
  pub record Moment (o : O) (t : ChainTransaction) (e : O) : Type 0 where
    pub before : O
    pub after : O
    pub until : Life Step o [] before
    pub now : Step before (t ∷ []) after
    pub since : Life Step after [] e
    pub due : IsDue before t after

  -- The same of a life, in which the one transaction is due at the step that submits it.
  abbrev pub AtMostOne : O → List ChainTransaction → O → Type 0
  AtMostOne o ts e =
      (ts ≡ []) × (submitted e ≡ submitted o)
      ⊎ (submitted o ≡ false)
        × (submitted e ≡ true)
        × (t : ChainTransaction) × (ts ≡ t ∷ [])
        × Moment o t e

  later :
      (o u e : O) (ts us : List ChainTransaction) (t : ChainTransaction)
      → Step o ts u
      → ts ≡ []
      → Moment u t e
      → Moment o t e
  later o u e ts us t s quiet m = record {
    before = m.before;
    after = m.after;
    until = next o u m.before [] [] (subst (λ l. Step o l u) quiet s) m.until;
    now = m.now;
    since = m.since;
    due = m.due;
  }

  AtMostOne-append :
      (o u e : O) (ts us : List ChainTransaction)
      → Step o ts u
      → Life Step u us e
      → AtMostOneNow o ts u
      → AtMostOne u us e
      → AtMostOne o (ts ++ us) e
  AtMostOne-append o u e ts us s l (inl (quiet, kept)) (inl (quiet', kept')) =
      inl (ap (λ l. l ++ us) quiet ∙ quiet', kept' ∙ kept)
  AtMostOne-append o u e ts us s l (inl (quiet, kept)) (inr (fresh, raised, t, one, m)) =
      inr
        (sym kept ∙ fresh, raised, t, ap (λ l. l ++ us) quiet ∙ one, later o u e ts us t s quiet m)
  AtMostOne-append o u e ts us s l (inr (fresh, raised, t, one, due)) (inl (quiet, kept)) = inr (
    fresh,
    kept ∙ raised,
    t,
    append_nothing t ts us one quiet ∙ one,
    record {
      before = o;
      after = u;
      until = here o;
      now = subst (λ l. Step o l u) one s;
      since = subst (λ l. Life Step u l e) quiet l;
      due = due;
    },
  )
  AtMostOne-append o u e ts us s l (inr (_, raised, _, _, _)) (inr (fresh, _, _, _, _)) =
      absurd (distinct_flags (sym fresh ∙ raised))

  -- If each step submits at most one transaction and raises the flag with it, so does a life.
  pub Life-AtMostOne :
      ((o u : O) (ts : List ChainTransaction) → Step o ts u → AtMostOneNow o ts u)
      → (o : O) (ts : List ChainTransaction) (e : O) → Life Step o ts e
      → AtMostOne o ts e
  Life-AtMostOne each o ts e (here _) = inl (refl, refl)
  Life-AtMostOne each o ts e (next _ u _ us rest s l) =
      AtMostOne-append o u e us rest s l (each o u us s) (Life-AtMostOne each u rest e l)

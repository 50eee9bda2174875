-- ===== src/Chain/Submits.antt =====
-- How many transactions a call submits, with one rule for each way to build a call.
use keeper_bot.Base.{
  ◌≡◌, refl, ◌∙◌, ap, ◌⊎◌, inl, inr, Bool, true, false, [], ◌∷◌, ◌++◌, Result, ok, err,
  if◌then◌else◌, String,
}
use keeper_bot.Chain.{
  Pubkey, Instruction, Transaction, Rpc, Session, Io, pure, lift, attempt, ask, continue, ◌>>=◌,
  send_instruction,
}

-- No transaction is submitted.
pub record Quiet {World A : Type 0} (m : Io World A) : Type 0 where
  pub at : (s : Session World) → (m s).1.sent ≡ s.sent

-- At most one transaction is submitted, and it is as `P` says.
pub record AtMostOne {World A : Type 0} (P : Transaction → Type 0) (m : Io World A) : Type 0 where
  pub at :
      (s : Session World)
      → ((m s).1.sent ≡ s.sent) ⊎ ((tx : Transaction) × ((m s).1.sent ≡ s.sent ++ tx ∷ []) × P tx)

-- From one session, a call submits at most one transaction, and it is as `P` says.
abbrev pub OneFrom :
    {World A : Type 0} → (Transaction → Type 0) → Session World → Result A × Session World → Type 0
OneFrom P s out =
    (out.1.sent ≡ s.sent) ⊎ ((tx : Transaction) × (out.1.sent ≡ s.sent ++ tx ∷ []) × P tx)

module _ {World A : Type 0} where
  pub Quiet-pure : (a : A) → Quiet {World = World} (pure a)
  Quiet-pure a = record { at = λ s. refl }

  pub Quiet-lift : (r : Result A) → Quiet {World = World} (lift r)
  Quiet-lift r = record { at = λ s. refl }

  pub Quiet-ask : (call : World → Result A × World) → Quiet (ask call)
  Quiet-ask call = record { at = λ s. refl }

  pub Quiet-attempt : (m : Io World A) → Quiet m → Quiet (attempt m)
  Quiet-attempt m q = record { at = λ s. q.at s }

  pub Quiet-if : (b : Bool) (m n : Io World A) → Quiet m → Quiet n → Quiet (if b then m else n)
  Quiet-if true m n qm qn = qm
  Quiet-if false m n qm qn = qn

  pub AtMostOne-if :
      {P : Transaction → Type 0} (b : Bool) (m n : Io World A)
      → AtMostOne P m
      → AtMostOne P n
      → AtMostOne P (if b then m else n)
  AtMostOne-if true m n om on = om
  AtMostOne-if false m n om on = on

  pub AtMostOne-weaken :
      {P Q : Transaction → Type 0} (m : Io World A)
      → ((tx : Transaction) → P tx → Q tx)
      → AtMostOne P m
      → AtMostOne Q m
  AtMostOne-weaken m imp om = record {
    at = λ s. elim (om.at s) [
      | inl none_sent ↦ inl none_sent
      | inr (tx, one_sent, p) ↦ inr (tx, one_sent, imp tx p)
    ];
  }

  pub AtMostOne-attempt :
      {P : Transaction → Type 0} (m : Io World A) → AtMostOne P m → AtMostOne P (attempt m)
  AtMostOne-attempt m om = record { at = λ s. om.at s }

  pub AtMostOne-Quiet : {P : Transaction → Type 0} (m : Io World A) → Quiet m → AtMostOne P m
  AtMostOne-Quiet m q = record { at = λ s. inl (q.at s) }

module _ {World A B : Type 0} where
  pub Quiet-bind :
      (m : Io World A) (f : A → Io World B) → Quiet m → ((a : A) → Quiet (f a)) → Quiet (m >>= f)
  Quiet-bind m f qm qf = record { at = λ s. let (r, s') = m s in then_at r s' ∙ qm.at s }
    where
      then_at : (r : Result A) (s' : Session World) → (continue r f s').1.sent ≡ s'.sent
      then_at (ok a) s' = (qf a).at s'
      then_at (err e) s' = refl

  module _ {P : Transaction → Type 0} (m : Io World A) (f : A → Io World B) where
    -- Looks first and may submit afterwards.
    pub AtMostOne-bind-Quiet : Quiet m → ((a : A) → AtMostOne P (f a)) → AtMostOne P (m >>= f)
    AtMostOne-bind-Quiet qm of = record { at = λ s. let (r, s') = m s in then_at r s s' (qm.at s) }
      where
        then_at :
            (r : Result A) (s s' : Session World)
            → s'.sent ≡ s.sent
            → ((continue r f s').1.sent ≡ s.sent)
              ⊎ ((tx : Transaction) × ((continue r f s').1.sent ≡ s.sent ++ tx ∷ []) × P tx)
        then_at (ok a) s s' same = elim ((of a).at s') [
          | inl none_sent ↦ inl (none_sent ∙ same)
          | inr (tx, one_sent, p) ↦ inr (tx, one_sent ∙ ap (λ l. l ++ tx ∷ []) same, p)
        ]
        then_at (err e) s s' same = inl same

    -- Submits first and only looks afterwards.
    pub AtMostOne-bind_then : AtMostOne P m → ((a : A) → Quiet (f a)) → AtMostOne P (m >>= f)
    AtMostOne-bind_then om qf = record { at = λ s. let (r, s') = m s in then_at r s s' (om.at s) }
      where
        quiet_at : (r : Result A) (s' : Session World) → (continue r f s').1.sent ≡ s'.sent
        quiet_at (ok a) s' = (qf a).at s'
        quiet_at (err e) s' = refl

        then_at :
            (r : Result A) (s s' : Session World)
            → (s'.sent ≡ s.sent) ⊎ ((tx : Transaction) × (s'.sent ≡ s.sent ++ tx ∷ []) × P tx)
            → ((continue r f s').1.sent ≡ s.sent)
              ⊎ ((tx : Transaction) × ((continue r f s').1.sent ≡ s.sent ++ tx ∷ []) × P tx)
        then_at r s s' (inl none_sent) = inl (quiet_at r s' ∙ none_sent)
        then_at r s s' (inr (tx, one_sent, p)) = inr (tx, quiet_at r s' ∙ one_sent, p)

module _ {World A : Type 0} {P : Transaction → Type 0} where
  -- A guard whose outcome the branches rely on.
  pub AtMostOne-guard :
      (b : Bool) (m n : Io World A)
      → (b ≡ true → AtMostOne P m)
      → (b ≡ false → AtMostOne P n)
      → AtMostOne P (if b then m else n)
  AtMostOne-guard true m n om on = om refl
  AtMostOne-guard false m n om on = on refl

  -- A result that what follows relies on.
  pub AtMostOne-bind_lift :
      {B : Type 0} (r : Result B) (f : B → Io World A)
      → ((b : B) → r ≡ ok b → AtMostOne P (f b))
      → AtMostOne P (lift r >>= f)
  AtMostOne-bind_lift (ok b) f of = of b refl
  AtMostOne-bind_lift (err e) f of = record { at = λ s. inl refl }

module _ {World A B C : Type 0} {P : Transaction → Type 0} where
  -- Looks first, and may submit what depends on the answer that the cluster gave.
  pub AtMostOne-bind_ask :
      (call : World → Result A × World) (g : A → B) (f : B → Io World C)
      → ((a : A) (w : World) → (call w).0 ≡ ok a → AtMostOne P (f (g a)))
      → AtMostOne P ((ask call >>= λ a. pure (g a)) >>= f)
  AtMostOne-bind_ask call g f of = record {
    at = λ s.
        answered (call s.world).0 (record s { world = (call s.world).1 })
          λ a e. (of a s.world e).at;
  }
    where
      answered :
          (r : Result A) (s : Session World)
          → ((a : A)
              → r ≡ ok a
              → (s : Session World)
              → ((f (g a) s).1.sent ≡ s.sent)
                ⊎ ((tx : Transaction) × ((f (g a) s).1.sent ≡ s.sent ++ tx ∷ []) × P tx))
          → (((continue r (λ a. pure (g a)) >>= f) s).1.sent ≡ s.sent)
            ⊎ ((tx : Transaction) × (((continue r (λ a. pure (g a)) >>= f) s).1.sent
                  ≡ s.sent ++ tx ∷ [])
                × P tx)
      answered (ok a) s of_a = of_a a refl s
      answered (err e) s of_a = inl refl

  -- The same where a failed read is a value.
  pub AtMostOne-bind_attempt :
      (call : World → Result A × World) (g : A → B) (f : Result B → Io World C)
      → ((a : A) (w : World) → (call w).0 ≡ ok a → AtMostOne P (f (ok (g a))))
      → ((e : String) → AtMostOne P (f (err e)))
      → AtMostOne P (attempt (ask call >>= λ a. pure (g a)) >>= f)
  AtMostOne-bind_attempt call g f of failed = record {
    at = λ s.
        answered (call s.world).0 (record s { world = (call s.world).1 })
          λ a e. (of a s.world e).at;
  }
    where
      answered :
          (r : Result A) (s : Session World)
          → ((a : A)
              → r ≡ ok a
              → (s : Session World)
              → ((f (ok (g a)) s).1.sent ≡ s.sent)
                ⊎ ((tx : Transaction) × ((f (ok (g a)) s).1.sent ≡ s.sent ++ tx ∷ []) × P tx))
          → (((attempt (continue r (λ a. pure (g a))) >>= f) s).1.sent ≡ s.sent)
            ⊎ ((tx : Transaction) × (((attempt (continue r (λ a. pure (g a))) >>= f) s).1.sent
                  ≡ s.sent ++ tx ∷ [])
                × P tx)
      answered (ok a) s of_a = of_a a refl s
      answered (err e) s of_a = (failed e).at s

pub ruleset quiet_rules = (Quiet-pure, Quiet-lift, Quiet-ask, Quiet-attempt, Quiet-if, Quiet-bind)

pub ruleset submit_rules =
    (AtMostOne-if, AtMostOne-Quiet, AtMostOne-bind-Quiet, AtMostOne-bind_then)

module _ {World : Type 0} (rpc : Rpc World) where
  pub send_instruction-AtMostOne :
      (keypair : Pubkey) (ix : Instruction)
      → AtMostOne (λ tx. tx.instructions ≡ ix ∷ []) (send_instruction rpc keypair ix)
  unfolding send_instruction
  send_instruction-AtMostOne keypair ix =
      AtMostOne-bind-Quiet _ _ (Quiet-ask rpc.get_latest_blockhash) λ blockhash. record {
        at = λ s. inr (
          record { instructions = ix ∷ []; payer = keypair; recent_blockhash = blockhash },
          refl,
          refl,
        );
      }

-- ===== src/Sql/Transaction.antt =====
-- sql/db.go: TransactionCtx, as the calls that it makes on a transaction of gorm.
use go_toolkits.Base.{
  ◌≡◌, refl, ◌↔◌, Bool, true, false, not, ◌&&◌, Option, none, some, List, [], ◌∷◌, ◌++◌,
  if◌then◌else◌,
}

-- How the function that is given ends: with an error or nil, or with a panic.
pub data Outcome (E P : Type 0) : Type 0 where
  returns : Option E → Outcome E P
  panics : P → Outcome E P

-- Begin, on a context with a timeout or not, and whether it succeeds; Commit, and whether it does;
-- Rollback; and the deferred cancel of the context.
pub data Step : Type 0 where
  begins commits : Bool → Step
  rolls_back cancels : Step

-- The error of TransactionCtx: nil, that of the function or of Commit, or one that tells of a panic.
pub data Failure (E P : Type 0) : Type 0 where
  failed : E → Failure E P
  panicked : P → Failure E P

-- What gorm and the database do: the error of Begin, that of Commit on a transaction that is open, and
-- that of Commit on one whose Begin failed: its Error holds the one of Begin.
pub record Gorm (E : Type 0) : Type 0 where
  pub begin_error : Option E
  pub commit_error : Option E
  pub invalid : E → E

-- What the steps leave of a transaction.
pub data State : Type 0 where
  closed opened committed aborted : State

-- The state behind a step: Commit and Rollback end an open transaction, whether they succeed or not, and
-- database/sql rolls an open one back once its context is cancelled.
abbrev pub after : State → Step → State
after s (begins true) = opened
after opened (commits true) = committed
after opened (commits false) = aborted
after opened rolls_back = aborted
after opened cancels = aborted
after s _ = s

abbrev pub state_of : State → List Step → State
state_of s [] = s
state_of s (x ∷ steps) = state_of (after s x) steps

abbrev pub succeeds : {E : Type 0} → Option E → Bool
succeeds none = true
succeeds (some e) = false

-- The Error of tx.Commit(), of the error of Begin.
abbrev pub commit : {E : Type 0} → Gorm E → Option E → Option E
commit gorm none = gorm.commit_error
commit gorm (some e) = some (gorm.invalid e)

abbrev pub as_failure : {E P : Type 0} → Option E → Option (Failure E P)
as_failure none = none
as_failure (some e) = some (failed e)

module _ {E P : Type 0} (gorm : Gorm E) where
  -- What follows Begin: f(tx), which is called whether Begin has failed or not, and what the deferred
  -- recover makes of it.
  unfoldable pub finish : Option E → Outcome E P → List Step × Option (Failure E P)
  finish begin_error (panics p) = ([], some (panicked p))
  finish begin_error (returns (some e)) = (rolls_back ∷ [], some (failed e))
  finish begin_error (returns none) =
      (commits (succeeds (commit gorm begin_error)) ∷ [], as_failure (commit gorm begin_error))

  -- TransactionCtx, of whether TransTimeout is set, whether the context has a deadline, and how f ends.
  unfoldable pub transaction_ctx : Bool → Bool → Outcome E P → List Step × Option (Failure E P)
  transaction_ctx timeout deadline f =
      let (steps, err) = finish gorm.begin_error f in
      if timeout && not deadline
      then (begins (succeeds gorm.begin_error) ∷ steps ++ cancels ∷ [], err)
      else (begins (succeeds gorm.begin_error) ∷ steps, err)

  -- Transaction, on a background context, which has no deadline.
  pub transaction : Bool → Outcome E P → List Step × Option (Failure E P)
  transaction timeout f = transaction_ctx timeout false f

module _ {E P : Type 0} where
  abbrev pub Panics : Outcome E P → Type 0
  Panics f = (p : P) × (f ≡ panics p)

  -- Begin succeeds, the function returns nil, and Commit succeeds.
  abbrev pub Passes : Gorm E → Outcome E P → Type 0
  Passes gorm f = (gorm.begin_error ≡ none) × (f ≡ returns none) × (gorm.commit_error ≡ none)

  -- What is so of the steps and the error, with a timeout that is set here or not.
  abbrev Facts : Gorm E → Bool → Outcome E P → List Step × Option (Failure E P) → Type 0
  Facts gorm b f p =
      ((state_of closed p.0 ≡ committed) ↔ Passes gorm f)
      × ((p.1 ≡ none) ↔ Passes gorm f)
      × ((state_of closed p.0 ≡ opened) ↔ ((gorm.begin_error ≡ none) × Panics f × (b ≡ false)))

  finish-Facts :
      (b c : Option E) (invalid : E → E) (t : Bool) (f : Outcome E P)
      → let gorm : Gorm E = record { begin_error = b; commit_error = c; invalid = invalid } in
        Facts gorm t f (
          if t
          then (begins (succeeds b) ∷ (finish gorm b f).0 ++ cancels ∷ [], (finish gorm b f).1)
          else (begins (succeeds b) ∷ (finish gorm b f).0, (finish gorm b f).1))
  unfolding finish
  finish-Facts none c invalid true (panics p) =
      ((λ h. cc, λ (h, k, l). cc), (λ h. cc, λ (h, k, l). cc), (λ h. cc, λ (h, k, l). cc))
  finish-Facts none c invalid false (panics p) = (
    (λ h. cc, λ (h, k, l). cc),
    (λ h. cc, λ (h, k, l). cc),
    (λ h. (refl, (p, refl), refl), λ h. refl),
  )
  finish-Facts (some e) c invalid true (panics p) =
      ((λ h. cc, λ (h, k, l). cc), (λ h. cc, λ (h, k, l). cc), (λ h. cc, λ (h, k, l). cc))
  finish-Facts none c invalid true (returns (some x)) =
      ((λ h. cc, λ (h, k, l). cc), (λ h. cc, λ (h, k, l). cc), (λ h. cc, λ (h, (p, k), l). cc))
  finish-Facts (some e) c invalid true (returns (some x)) =
      ((λ h. cc, λ (h, k, l). cc), (λ h. cc, λ (h, k, l). cc), (λ h. cc, λ (h, (p, k), l). cc))
  finish-Facts (some e) c invalid true (returns none) =
      ((λ h. cc, λ (h, k, l). cc), (λ h. cc, λ (h, k, l). cc), (λ h. cc, λ (h, (p, k), l). cc))
  finish-Facts none none invalid true (returns none) = (
    (λ h. (refl, refl, refl), λ h. refl),
    (λ h. (refl, refl, refl), λ h. refl),
    (λ h. cc, λ (h, (p, k), l). cc),
  )
  finish-Facts none (some e) invalid true (returns none) =
      ((λ h. cc, λ (h, k, l). cc), (λ h. cc, λ (h, k, l). cc), (λ h. cc, λ (h, (p, k), l). cc))
  finish-Facts (some e) c invalid false (panics p) =
      ((λ h. cc, λ (h, k, l). cc), (λ h. cc, λ (h, k, l). cc), (λ h. cc, λ (h, k, l). cc))
  finish-Facts none c invalid false (returns (some x)) =
      ((λ h. cc, λ (h, k, l). cc), (λ h. cc, λ (h, k, l). cc), (λ h. cc, λ (h, (p, k), l). cc))
  finish-Facts (some e) c invalid false (returns (some x)) =
      ((λ h. cc, λ (h, k, l). cc), (λ h. cc, λ (h, k, l). cc), (λ h. cc, λ (h, (p, k), l). cc))
  finish-Facts (some e) c invalid false (returns none) =
      ((λ h. cc, λ (h, k, l). cc), (λ h. cc, λ (h, k, l). cc), (λ h. cc, λ (h, (p, k), l). cc))
  finish-Facts none none invalid false (returns none) = (
    (λ h. (refl, refl, refl), λ h. refl),
    (λ h. (refl, refl, refl), λ h. refl),
    (λ h. cc, λ (h, (p, k), l). cc),
  )
  finish-Facts none (some e) invalid false (returns none) =
      ((λ h. cc, λ (h, k, l). cc), (λ h. cc, λ (h, k, l). cc), (λ h. cc, λ (h, (p, k), l). cc))

  -- As long as the function does not end the transaction itself: it is committed exactly if Begin
  -- succeeds, the function returns nil and Commit succeeds, and nil is answered exactly then; and it is
  -- left open, neither committed nor rolled back nor
  -- cancelled, exactly if Begin succeeds, the function panics and the context got no timeout here.
  pub transaction_ctx_iff :
      (gorm : Gorm E) (timeout deadline : Bool) (f : Outcome E P)
      → let (steps, err) = transaction_ctx gorm timeout deadline f in
        ((state_of closed steps ≡ committed) ↔ Passes gorm f)
        × ((err ≡ none) ↔ Passes gorm f)
        × ((state_of closed steps ≡ opened)
            ↔ ((gorm.begin_error ≡ none) × Panics f × (timeout && not deadline ≡ false)))
  unfolding transaction_ctx
  transaction_ctx_iff gorm timeout deadline f =
      finish-Facts gorm.begin_error gorm.commit_error gorm.invalid (timeout && not deadline) f

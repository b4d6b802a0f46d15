-- ===== src/Base/Results.antt =====
-- Go's `(T, error)` results. An error that wraps another (`%w`) is the one that it wraps, since
-- `errors.Is` is all that tests one; a run-time panic is an error of its own.
use Prim.Native.Nat.{ℕ}
use mathlib.Core.Path.{◌≡◌, refl}
use mathlib.Core.Bool.{Bool, true, false}
use mathlib.Core.Logic.{◌⊎◌, inl, inr}
use mathlib.Core.Option.{Option, none, some}

pub data Error : Type 0 where
  -- a nil dereference, an index out of range, or a call of `panic`
  panicked : Error
  -- an error that a library outside the repository returns, by its number
  external : ℕ → Error
  -- channel/consensus_channel
  incorrect_channel_id invalid_deposit insufficient_funds duplicate_guarantee : Error
  guarantee_not_found invalid_amount not_leader proposal_queue_exhausted wrong_signer : Error
  not_follower no_proposals non_matching_proposals invalid_proposal_signature : Error
  invalid_turn_num wrong_turn_num leader_did_not_sign follower_did_not_sign : Error
  malformed_channel wrong_signing_address : Error
  -- types
  not_external_destination : Error
  -- channel/state and channel/state/outcome
  nil_chain_id nil_channel_nonce external_channel_id : Error
  debtees_not_distinct divert_insufficient_funds : Error
  signature_exists no_matching_participant missing_signature : Error
  distinct_states conflicting_signatures : Error
  -- protocols
  not_approved mismatched_ids unhandled_event not_prefund final_state not_a_participant : Error
  channel_exists not_complete several_assets : Error
  not_empty update_in_progress no_final_state not_final unexpected_turn unsigned_event : Error
  not_found nil_connection zero_ledger unknown_ledger zero_channel wrong_channel : Error
  no_such_objective no_such_channel channel_owned unhandled_chain_event blocked : Error
  wrong_allocation_order missing_ledger not_my_objective different_signature wrong_index : Error
  -- channel
  no_supported_state no_signed_states wrong_my_index wrong_participants wrong_allocations : Error

-- A panic is not among the errors that a call returns.
abbrev pub is_panic : Error → Bool
is_panic panicked = true
is_panic _ = false

pub data Result {ℓ} (A : Type ℓ) : Type ℓ where
  ok : A → Result A
  err : Error → Result A

-- `if err != nil { return ..., err }`, in front of what the value goes to.
infixl 5 ◌>>=◌ ◌>>◌
abbrev pub ◌>>=◌ {ℓ κ} : {X : Type ℓ} {Y : Type κ} → Result X → (X → Result Y) → Result Y
err e >>= go = err e
ok x >>= go = go x

-- The same for a call that returns an error alone.
abbrev pub ◌>>◌ {κ} : {Y : Type κ} → Result (Unit {0}) → Result Y → Result Y
call >> next = call >>= λ done. next

-- `if cond { return ..., e }`
abbrev pub fail_if : Bool → Error → Result (Unit {0})
fail_if true e = err e
fail_if false e = ok tt

module _ {ℓ} {A : Type ℓ} where
  abbrev pub or_fail : Option A → Error → Result A
  or_fail none e = err e
  or_fail (some a) e = ok a

  -- The value behind a pointer.
  abbrev pub deref : Option A → Result A
  deref p = or_fail p panicked

-- A chain that succeeds passed its first call.
pub >>=-eq-ok {ℓ κ} :
    {X : Type ℓ} {Y : Type κ} (call : Result X) (go : X → Result Y) {y : Y}
    → (call >>= go) ≡ ok y
    → (x : X) × (call ≡ ok x) × (go x ≡ ok y)
>>=-eq-ok (err e) go q = cc
>>=-eq-ok (ok x) go q = (x, refl, q)

pub fail_if-eq-ok : (b : Bool) (e : Error) {u : Unit {0}} → fail_if b e ≡ ok u → b ≡ false
fail_if-eq-ok true e h = cc
fail_if-eq-ok false e h = refl

pub or_fail-eq-ok {ℓ} :
    {A : Type ℓ} (o : Option A) (e : Error) {a : A} → or_fail o e ≡ ok a → o ≡ some a
or_fail-eq-ok none e h = cc
or_fail-eq-ok (some b) e h = cc

pub ok_injective {ℓ} : {A : Type ℓ} {a b : A} → ok a ≡ ok b → a ≡ b
ok_injective h = cc

pub Result-cases {ℓ} :
    {A : Type ℓ} (r : Result A) → ((a : A) × (r ≡ ok a)) ⊎ ((e : Error) × (r ≡ err e))
Result-cases (ok a) = inl (a, refl)
Result-cases (err e) = inr (e, refl)

-- ===== src/State/Signed/Signers.antt =====
-- Which signatures a signed state holds, and that a complete one has every participant's.
use go_nitro.Base.{
  ℕ, zero, suc, ◌+◌, ◌≤◌, ◌<◌, ◌≡◌, inl, inr, refl, ap, sym, ◌∙◌, true, false, some, Bool-cases,
  Option-cases, List, [], ◌∷◌, length, get_elem?, All, arith, Map, lookup, insert, erase, has_key,
  IsMap, insert-IsMap, erase-IsMap, lookup-erase, erase_missing, ok, >>=-eq-ok, ok_injective, subst,
  ◌==◌,
}
use go_nitro.Types.Destination.{Address}
use go_nitro.State.Signature.{Signature}
use go_nitro.State.Data.{State}
use go_nitro.State.Library.{Library}
use go_nitro.State.Hashing.{recover_signer}
use go_nitro.State.Signed.{SignedState, has_all_signatures, store_signature, add_signature}

-- The signature on the state recovers to the participant at the position.
pub record SignedAt (lib : Library) (s : State) (i : ℕ) (sig : Signature) : Type 0 where
  pub signer : Address
  pub stands : get_elem? s.participants i ≡ some signer
  pub recovers : recover_signer lib s sig ≡ ok signer

-- Each position has one signature, which is its participant's.
pub record IsSigned (lib : Library) (ss : SignedState) : Type 0 where
  pub keyed : IsMap ss.sigs
  pub by : All (λ e. SignedAt lib ss.state e.0 e.1) ss.sigs

get_elem?_bound {ℓ} :
    {A : Type ℓ} (l : List A) (i : ℕ) (x : A) → get_elem? l i ≡ some x → i < length l
get_elem?_bound [] i x h = cc
get_elem?_bound (y ∷ l) zero x h = omega arith
get_elem?_bound (y ∷ l) (suc i) x h = omega (arith, get_elem?_bound l i x h)

module _ {ℓ} {V : Type ℓ} where
  length-erase : (k : ℕ) (m : Map V) → IsMap m → length m ≤ suc (length (erase k m))
  length-erase k [] h = omega arith
  length-erase k ((j, v) ∷ m) h = ground (arith, length-erase k m h.1, erase_missing j m)

  erase_below : (n : ℕ) (m : Map V) → All (λ e. e.0 < suc n) m → All (λ e. e.0 < n) (erase n m)
  erase_below n [] h = tt
  erase_below n ((j, v) ∷ m) h = ground (arith, erase_below n m h.1)

  none_below_zero : (m : Map V) → All (λ e. e.0 < 0) m → length m ≡ 0
  none_below_zero [] h = refl
  none_below_zero (e ∷ m) h = absurd (omega (arith, h.0))

  -- Keys below `n` that all differ are at most `n`.
  keys_bound : (n : ℕ) (m : Map V) → IsMap m → All (λ e. e.0 < n) m → length m ≤ n
  keys_bound zero m d h = omega (arith, none_below_zero m h)
  keys_bound (suc n) m d h =
      omega (
        arith,
        length-erase n m d,
        keys_bound n (erase n m) (erase-IsMap n m d) (erase_below n m h),
      )

  -- A key below `n` that is missing makes them fewer.
  missing_bound :
      (n k : ℕ) (m : Map V)
      → IsMap m
      → All (λ e. e.0 < n) m
      → k < n
      → has_key k m ≡ false
      → length m < n
  missing_bound zero k m d h lt miss = absurd (omega (arith, lt))
  missing_bound (suc n) k m d h lt miss = elim (Bool-cases (k == n)) [
    | inl same ↦
        let gone : erase n m ≡ m = erase_missing n m (ground (arith, same, miss)) in
        omega (arith, keys_bound n m d (subst (All (λ e. e.0 < n)) gone (erase_below n m h)))
    | inr differs ↦
        let fewer =
          missing_bound n k (erase n m) (erase-IsMap n m d) (erase_below n m h)
            (ground (arith, differs, lt)) (ground (arith, lookup-erase k n m, miss, differs)) in
        omega (arith, length-erase n m d, fewer)
  ]

  pub All-insert {κ} :
      (P : ℕ × V → Type κ) (k : ℕ) (v : V) (m : Map V) → P (k, v) → All P m → All P (insert k v m)
  All-insert P k v [] p h = (p, tt)
  All-insert P k v ((j, w) ∷ m) p h = elim (Bool-cases (k == j)) [
    | inl same ↦ rw same (p, h.1)
    | inr differs ↦ rw differs (h.0, All-insert P k v m p h.1)
  ]

  pub All-lookup {κ} :
      (P : ℕ × V → Type κ) (k : ℕ) (v : V) (m : Map V) → All P m → lookup k m ≡ some v → P (k, v)
  All-lookup P k v [] h e = cc
  All-lookup P k v ((j, w) ∷ m) h e = elim (Bool-cases (k == j)) [
    | inl same ↦
        subst (λ x. P (x, v)) (ground (arith, same))
          (subst (λ x. P (j, x)) (ground (arith, same, e)) h.0)
    | inr differs ↦ All-lookup P k v m h.1 (ground (arith, differs, e))
  ]

  pub length-insert_new :
      (k : ℕ) (v : V) (m : Map V) → has_key k m ≡ false → length (insert k v m) ≡ suc (length m)
  length-insert_new k v [] h = refl
  length-insert_new k v ((j, w) ∷ m) h = ground (arith, length-insert_new k v m)

-- What the loop of `AddSignature` checks and does where it succeeds.
store_signature-inv :
    (signer : Address) (sig : Signature) (sigs sigs' : Map Signature) (i : ℕ) (ps : List Address)
    → store_signature signer sig sigs i ps ≡ ok sigs'
    → (k : ℕ) × (get_elem? ps k ≡ some signer)
      × (has_key (i + k) sigs ≡ false)
      × (insert (i + k) sig sigs ≡ sigs')
unfolding store_signature
store_signature-inv signer sig sigs sigs' i [] e = cc
store_signature-inv signer sig sigs sigs' i (p ∷ ps) e = elim (Bool-cases (p == signer)) [
  | inl same ↦ (0, ground (arith, same), ground (arith, same, e), ground (arith, same, e))
  | inr differs ↦
      let (k, at, fresh, new) =
        store_signature-inv signer sig sigs sigs' (suc i) ps (ground (arith, differs, e)) in
      (suc k, at, ground (arith, fresh), ground (arith, new))
]

stored_at :
    (signer : Address) (sig : Signature) (sigs sigs' : Map Signature) (ps : List Address)
    → store_signature signer sig sigs 0 ps ≡ ok sigs'
    → (k : ℕ) × (get_elem? ps k ≡ some signer)
      × (has_key k sigs ≡ false)
      × (insert k sig sigs ≡ sigs')
stored_at signer sig sigs sigs' ps e =
    let (k, at, fresh, new) = store_signature-inv signer sig sigs sigs' 0 ps e in
    (k, at, ground (arith, fresh), ground (arith, new))

module _ (lib : Library) where
  -- `AddSignature` succeeds only with a signature of a participant at a position that had none; it
  -- stores it there, leaves the others, and the signed state stays one whose signatures are its
  -- participants'.
  pub add_signature-IsSigned :
      (ss ss' : SignedState) (sig : Signature)
      → IsSigned lib ss
      → add_signature lib ss sig ≡ ok ss'
      → IsSigned lib ss'
        × (ss'.state ≡ ss.state)
        × ((i : ℕ) × SignedAt lib ss.state i sig
            × (has_key i ss.sigs ≡ false)
            × (ss'.sigs ≡ insert i sig ss.sigs))
  unfolding add_signature
  add_signature-IsSigned ss ss' sig v e =
      let (signer, hr, e1) = >>=-eq-ok (recover_signer lib ss.state sig) _ e in
      let (sigs, hs, e2) =
        >>=-eq-ok (store_signature signer sig ss.sigs 0 ss.state.participants) _ e1 in
      let (k, at, fresh, new) = stored_at signer sig ss.sigs sigs ss.state.participants hs in
      let here : SignedAt lib ss.state k sig = record {
        signer = signer;
        stands = at;
        recovers = hr;
      } in
      let made : IsSigned lib (record ss { sigs = insert k sig ss.sigs }) = record {
        keyed = insert-IsMap k sig ss.sigs v.keyed;
        by = All-insert (λ x. SignedAt lib ss.state x.0 x.1) k sig ss.sigs here v.by;
      } in
      let same : record ss { sigs = insert k sig ss.sigs } ≡ ss' =
        (λ i. record ss { sigs = new i }) ∙ ok_injective e2 in
      (
        subst (IsSigned lib) same made,
        sym (ap (λ x. x.state) same),
        (k, here, fresh, sym (ap (λ x. x.sigs) same)),
      )

  below :
      (ss : SignedState) (m : Map Signature)
      → All (λ e. SignedAt lib ss.state e.0 e.1) m
      → All (λ e. e.0 < length ss.state.participants) m
  below ss [] h = tt
  below ss (e ∷ m) h =
      (get_elem?_bound ss.state.participants e.0 (h.0).signer (h.0).stands, below ss m h.1)

  -- A signed state never has more signatures than participants.
  pub IsSigned-bound :
      (ss : SignedState) → IsSigned lib ss → length ss.sigs ≤ length ss.state.participants
  IsSigned-bound ss v = keys_bound _ ss.sigs v.keyed (below ss ss.sigs v.by)

  -- Where the signatures that are stored are those of participants, comparing their number with
  -- the number of participants, as `HasAllSignatures` does, is enough: every participant has
  -- signed the state.
  pub has_all_signatures_lem :
      (ss : SignedState) (i : ℕ) (signer : Address)
      → IsSigned lib ss
      → has_all_signatures ss ≡ true
      → get_elem? ss.state.participants i ≡ some signer
      → (sig : Signature) × (lookup i ss.sigs ≡ some sig)
        × (recover_signer lib ss.state sig ≡ ok signer)
  unfolding has_all_signatures
  has_all_signatures_lem ss i signer v full at = elim (Option-cases (lookup i ss.sigs)) [
    | inr (sig, e) ↦
        let s = All-lookup (λ x. SignedAt lib ss.state x.0 x.1) i sig ss.sigs v.by e in
        (sig, e, s.recovers ∙ ap ok (ground (arith, s.stands, at)))
    | inl missing ↦
        let lt = get_elem?_bound ss.state.participants i signer at in
        absurd (
          ground (
            arith,
            full,
            missing_bound _ i ss.sigs v.keyed (below ss ss.sigs v.by) lt (ground (arith, missing)),
          ))
  ]

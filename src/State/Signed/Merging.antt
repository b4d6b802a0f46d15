-- ===== src/State/Signed/Merging.antt =====
-- What a merge leaves behind, whether it succeeds or fails.
use go_nitro.Base.{
  ℕ, ◌≤◌, ◌≡◌, inl, inr, refl, ap, ◌∙◌, true, some, Bool-cases, Option-cases, [], ◌∷◌, length,
  arith, Map, lookup, lookup-insert, ok, Result-cases,
}
use go_nitro.State.Signature.{Signature}
use go_nitro.State.Signature
use go_nitro.State.Data
use go_nitro.State.Library.{Library}
use go_nitro.State.Signed.{SignedState, has_all_signatures, add_signature, merge_from, merge}
use go_nitro.State.Signed.Signers.{
  IsSigned, IsSigned-bound, add_signature-IsSigned, length-insert_new,
}

module _ (lib : Library) where
  -- The second signed state is of the same state, all its signatures are its participants', and it
  -- has those of the first.
  pub record Grown (ss r : SignedState) : Type 0 where
    pub signed : IsSigned lib r
    pub same : r.state ≡ ss.state
    pub kept : (i : ℕ) (sig : Signature) → lookup i ss.sigs ≡ some sig → lookup i r.sigs ≡ some sig
    pub count : length ss.sigs ≤ length r.sigs

  unchanged : (ss : SignedState) → IsSigned lib ss → Grown ss ss
  unchanged ss v = record { signed = v; same = refl; kept = λ i sig e. e; count = omega arith }

  Grown-trans : (a b c : SignedState) → Grown a b → Grown b c → Grown a c
  Grown-trans a b c g h = record {
    signed = h.signed;
    same = h.same ∙ g.same;
    kept = λ i sig e. h.kept i sig (g.kept i sig e);
    count = omega (arith, g.count, h.count);
  }

  add_signature-Grown :
      (ss r : SignedState) (sig : Signature)
      → IsSigned lib ss
      → add_signature lib ss sig ≡ ok r
      → Grown ss r
  add_signature-Grown ss r sig v e =
      let (signed, same, (i, at, fresh, new)) = add_signature-IsSigned lib ss r sig v e in
      record {
        signed = signed;
        same = same;
        kept = λ j s h. rw new (ground (arith, lookup-insert j i sig ss.sigs, fresh, h));
        count = rw new (omega (arith, length-insert_new i sig ss.sigs fresh));
      }

  merge_from-Grown :
      (m : Map Signature) (ss : SignedState) → IsSigned lib ss → Grown ss (merge_from lib ss m).0
  unfolding merge_from
  merge_from-Grown [] ss v = unchanged ss v
  merge_from-Grown ((i, sig) ∷ m) ss v = elim (Option-cases (lookup i ss.sigs)) [
    | inr (existing, e) ↦
        rw (merge_from, e)
          (elim (Bool-cases (Signature.equal existing sig)) [
            | inl same ↦ rw same (merge_from-Grown m ss v)
            | inr differs ↦ rw differs (unchanged ss v)
          ])
    | inl missing ↦
        rw (merge_from, missing)
          (elim (Result-cases (add_signature lib ss sig)) [
            | inl (r, e) ↦
                let g = add_signature-Grown ss r sig v e in
                rw (merge_from, e)
                  (Grown-trans ss r (merge_from lib r m).0 g (merge_from-Grown m r g.signed))
            | inr (x, e) ↦ rw (merge_from, e) (unchanged ss v)
          ])
  ]

  -- Whatever signed state is merged into one whose signatures are its participants', and whether
  -- the merge succeeds or not: the state stays, every signature stays, and all signatures are the
  -- participants' afterwards.
  pub merge-Grown : (ss other : SignedState) → IsSigned lib ss → Grown ss (merge lib ss other).0
  unfolding merge
  merge-Grown ss other v = elim (Bool-cases (Data.equal ss.state other.state)) [
    | inl same ↦ rw same (merge_from-Grown other.sigs ss v)
    | inr differs ↦ rw differs (unchanged ss v)
  ]

  -- One that is complete stays complete.
  pub Grown-full :
      (ss r : SignedState) → Grown ss r → has_all_signatures ss ≡ true → has_all_signatures r ≡ true
  unfolding has_all_signatures
  Grown-full ss r g full =
      ground (
        arith,
        full,
        g.count,
        IsSigned-bound lib r g.signed,
        ap (λ x. length x.participants) g.same,
      )

-- ===== src/Pipeline/Final.antt =====
-- What a run of the verification changes.
use dwell.Base.{
  String, Bool, true, false, ◌&&◌, Option, List, [], ◌∷◌, Result, ok, err, find, same, ◌≡◌, refl,
  ◌∙◌, ◌⊎◌, inl, inr, Bool-cases, All, same_iff, arith,
}
use dwell.Base.Int.{ℤ}
use dwell.Thrown.{Thrown}
use dwell.Money.{stroops}
use dwell.Ledger.Entry.{Entry}
use dwell.Ledger.Operations.{Ledger}
use dwell.Ingest.{StoredImpression}
use dwell.Verify.{Verdict, evaluate, is_verified, is_rejected, is_pending}
use dwell.Pipeline.{Options, Pipeline, is_waiting}
use dwell.Pipeline.Verification.{
  update, settle_billed, bill_at, bill, settle, Counts, counted, next_round, verify_each,
  run_verification, verifier_deps,
}

module _ (publisher_id id : String) where
  abbrev pub has_key : StoredImpression → Bool
  has_key i = same i.publisher_id publisher_id && same i.id id

  -- What the pipeline holds under the key.
  abbrev pub stored : Pipeline → Option StoredImpression
  stored p = find has_key p.intake.saved

  same_key :
      (a b : StoredImpression)
      → (same a.publisher_id b.publisher_id && same a.id b.id) ≡ true
      → has_key a ≡ has_key b
  same_key a b h =
      let p : a.publisher_id ≡ b.publisher_id =
        (same_iff a.publisher_id b.publisher_id).0 (ground (arith, h)) in
      let q : a.id ≡ b.id = (same_iff a.id b.id).0 (ground (arith, h)) in
      (λ i. same (p i) publisher_id && same (q i) id)

  update-find :
      (imp : StoredImpression) (is : List StoredImpression)
      → has_key imp ≡ false
      → find has_key (update imp is) ≡ find has_key is
  unfolding update
  update-find imp [] h = rw h refl
  update-find imp (i ∷ is) h =
      elim (Bool-cases (same i.publisher_id imp.publisher_id && same i.id imp.id)) [
        | inl e ↦ let other : has_key i ≡ false = same_key i imp e ∙ h in rw (e, other) (rw h refl)
        | inr e ↦ rw e (elim (Bool-cases (has_key i)) [
          | inl f ↦ rw f refl
          | inr f ↦ rw f (update-find imp is h)
        ])
      ]

  settle_billed-stored :
      (imp : StoredImpression) (p : Pipeline) (outcome : Result Thrown (List Entry) × Ledger)
      → has_key imp ≡ false
      → stored (settle_billed imp p outcome).1 ≡ stored p
  settle_billed-stored imp p (err t, l) h = refl
  settle_billed-stored imp p (ok written, l) h = update-find _ p.intake.saved h

  bill_at-stored :
      (rate : Result Thrown ℤ) (o : Options) (imp : StoredImpression) (p : Pipeline)
      → has_key imp ≡ false
      → stored (bill_at rate o imp p).1 ≡ stored p
  bill_at-stored (err t) o imp p h = refl
  bill_at-stored (ok rate) o imp p h = settle_billed-stored imp p _ h

  settle-stored :
      (o : Options) (imp : StoredImpression) (v : Verdict) (p : Pipeline)
      → has_key imp ≡ false
      → stored (settle o imp v p).1 ≡ stored p
  unfolding settle bill
  settle-stored o imp (is_pending ready_at) p h = refl
  settle-stored o imp (is_rejected reason) p h = update-find _ p.intake.saved h
  settle-stored o imp is_verified p h = bill_at-stored (stroops imp.rate_stroops) o imp p h

  next_round-stored :
      (r : Result Thrown (Unit {0}) × Pipeline) (rest : Pipeline → Result Thrown Counts × Pipeline)
      → ((p : Pipeline) → stored (rest p).1 ≡ stored p)
      → stored (next_round r rest).1 ≡ stored r.1
  next_round-stored (err t, p) rest k = refl
  next_round-stored (ok u, p) rest k = k p

  -- No pending impression has the key.
  abbrev pub NonePending : List StoredImpression → Type 0
  NonePending is =
      All (λ (i : StoredImpression). (is_waiting i.state ≡ false) ⊎ (has_key i ≡ false)) is

  verify_each-stored :
      (o : Options) (all imps : List StoredImpression) (n : Counts) (p : Pipeline)
      → NonePending imps
      → stored (verify_each o all imps n p).1 ≡ stored p
  unfolding verify_each
  verify_each-stored o all [] n p h = refl
  verify_each-stored o all (imp ∷ imps) n p h =
      let verdict = evaluate (verifier_deps o p) imp all in
      elim (Bool-cases (is_waiting imp.state)) [
        | inr e ↦ rw e (verify_each-stored o all imps n p h.1)
        | inl e ↦
            let other : has_key imp ≡ false = elim h.0 [ inl f ↦ cc | inr f ↦ f ] in
            rw e (
              next_round-stored (settle o imp verdict p)
                (verify_each o all imps (counted verdict n))
                (λ p'. verify_each-stored o all imps (counted verdict n) p' h.1)
              ∙ settle-stored o imp verdict p other)
      ]

  -- A run of the verification, whether it returns or throws, leaves what is stored under a key that
  -- no pending impression has: a verdict is final.
  pub run_verification_final :
      (o : Options) (p : Pipeline)
      → NonePending p.intake.saved
      → stored (run_verification o p).1 ≡ stored p
  unfolding run_verification
  run_verification_final o p h = verify_each-stored o p.intake.saved p.intake.saved _ p h

-- ===== src/Ledger/Rows.antt =====
-- Inserting a row and updating rows keep the invariant.
use abmcy_core_payment.Base.{
  String, Bool, true, false, Option, none, some, List, [], ◌∷◌, ◌≡◌, refl, sym, ◌∙◌, subst, arith,
  All, In, here, there, All-map, All-update, any-false, update, if◌then◌else◌, any,
}
use abmcy_core_payment.Model.{Payment}
use abmcy_core_payment.Repo.Payments.{same_key, same_ref}
use abmcy_core_payment.Ledger.{IsAccounted, LinkedTo, IsLinked, IsApart, Pairwise, IsLedger}

-- The columns that no UPDATE of the program writes.
pub record SameBook (p q : Payment) : Type 0 where
  pub id : q.id ≡ p.id
  pub app_id : q.app_id ≡ p.app_id
  pub app_ref : q.app_ref ≡ p.app_ref
  pub kind : q.kind ≡ p.kind
  pub amount_cfa : q.amount_cfa ≡ p.amount_cfa
  pub fee_cfa : q.fee_cfa ≡ p.fee_cfa
  pub net_cfa : q.net_cfa ≡ p.net_cfa
  pub refund_of_payment_id : q.refund_of_payment_id ≡ p.refund_of_payment_id

pub SameBook-refl : (p : Payment) → SameBook p p
SameBook-refl p = record {
  id = refl;
  app_id = refl;
  app_ref = refl;
  kind = refl;
  amount_cfa = refl;
  fee_cfa = refl;
  net_cfa = refl;
  refund_of_payment_id = refl;
}

pub IsAccounted-SameBook : {p q : Payment} → SameBook p q → IsAccounted p → IsAccounted q
IsAccounted-SameBook {p} {q} s h = record {
  positive = rw s.amount_cfa h.positive;
  split = rw (s.amount_cfa, s.fee_cfa, s.net_cfa) h.split;
  capped = rw (s.amount_cfa, s.kind) h.capped;
}

IsApart-SameBook :
    {p q p' q' : Payment} → SameBook p p' → SameBook q q' → IsApart p q → IsApart p' q'
IsApart-SameBook {p} {q} {p'} {q'} s t h = record {
  ids = rw (s.id, t.id) h.ids;
  keys = rw (s.app_id, s.app_ref, s.kind, t.app_id, t.app_ref, t.kind) h.keys;
}

module _ (t : Payment → Bool) (f : Payment → Payment)
    (keeps : (p : Payment) → SameBook p (f p)) where
  -- The row that stands where `d` stood.
  abbrev updated : Payment → Payment
  updated d = if t d then f d else d

  updated-SameBook : (d : Payment) → SameBook d (updated d)
  updated-SameBook d = by_test (t d)
    where
      by_test : (b : Bool) → SameBook d (if b then f d else d)
      by_test true = keeps d
      by_test false = SameBook-refl d

  In-update : {d : Payment} {ps : List Payment} → In d ps → In (updated d) (update t f ps)
  unfolding update
  In-update here = here
  In-update (there m) = there (In-update m)

  LinkedTo-update :
      (ps : List Payment) (r r' : Payment)
      → SameBook r r'
      → (o : Option String) → LinkedTo ps r o
      → LinkedTo (update t f ps) r' o
  LinkedTo-update ps r r' s none h = rw s.kind h
  LinkedTo-update ps r r' s (some id) (d, m, e, l) =
      let u = updated-SameBook d in
      (
        updated d,
        In-update m,
        u.id ∙ e,
        record {
          deposit = u.kind ∙ l.deposit;
          app = u.app_id ∙ (l.app ∙ sym s.app_id);
          whole = u.amount_cfa ∙ (l.whole ∙ sym s.amount_cfa);
        },
      )

  IsLinked-update :
      (ps : List Payment) (r r' : Payment)
      → SameBook r r'
      → IsLinked ps r
      → IsLinked (update t f ps) r'
  IsLinked-update ps r r' s h =
      subst (LinkedTo (update t f ps) r') (sym s.refund_of_payment_id)
        (LinkedTo-update ps r r' s r.refund_of_payment_id h)

  Pairwise-update : (ps : List Payment) → Pairwise ps → Pairwise (update t f ps)
  unfolding update
  Pairwise-update [] h = tt
  Pairwise-update (p ∷ ps) (h, hs) = (
    All-update (IsApart p) (IsApart (if t p then f p else p)) t f
        (λ q a. IsApart-SameBook (updated-SameBook p) (SameBook-refl q) a)
        (λ q _ a. IsApart-SameBook (updated-SameBook p) (keeps q) a) ps h,
    Pairwise-update ps hs,
  )

  -- An update that leaves the book columns alone keeps the ledger.
  pub IsLedger-update : (ps : List Payment) → IsLedger ps → IsLedger (update t f ps)
  IsLedger-update ps h = record {
    rows =
        All-update IsAccounted IsAccounted t f (λ p a. a)
          (λ p _ a. IsAccounted-SameBook (keeps p) a) ps h.rows;
    links =
        All-update (IsLinked ps) (IsLinked (update t f ps)) t f
          (λ r l. IsLinked-update ps r r (SameBook-refl r) l)
          (λ r _ l. IsLinked-update ps r (f r) (keeps r) l) ps h.links;
    apart = Pairwise-update ps h.apart;
  }

LinkedTo-there :
    (p : Payment) (ps : List Payment) (r : Payment) (o : Option String)
    → LinkedTo ps r o
    → LinkedTo (p ∷ ps) r o
LinkedTo-there p ps r none h = h
LinkedTo-there p ps r (some id) (d, m, e, l) = (d, there m, e, l)

IsApart-of_tests : (p q : Payment) → same_key p q ≡ false → same_ref p q ≡ false → IsApart p q
IsApart-of_tests p q h k = record { ids = ground arith; keys = h }

zip-IsApart :
    (p : Payment) (ps : List Payment)
    → All (λ q. same_key p q ≡ false) ps
    → All (λ q. same_ref p q ≡ false) ps
    → All (IsApart p) ps
zip-IsApart p [] h k = tt
zip-IsApart p (q ∷ ps) (h, hs) (k, ks) = (IsApart-of_tests p q h k, zip-IsApart p ps hs ks)

-- A new row that is accounted, linked, and clashes with no row keeps the ledger.
pub IsLedger-insert :
    (p : Payment) (ps : List Payment)
    → IsLedger ps
    → IsAccounted p
    → IsLinked ps p
    → any (same_key p) ps ≡ false
    → any (same_ref p) ps ≡ false
    → IsLedger (p ∷ ps)
IsLedger-insert p ps h a l k r = record {
  rows = (a, h.rows);
  links = (
    LinkedTo-there p ps p p.refund_of_payment_id l,
    All-map (IsLinked ps) (IsLinked (p ∷ ps))
        (λ q lq. LinkedTo-there p ps q q.refund_of_payment_id lq) ps h.links,
  );
  apart = (zip-IsApart p ps (any-false (same_key p) ps k) (any-false (same_ref p) ps r), h.apart);
}
